-- ===== src/Utils/Samples.antt =====
-- A function that fails until its third call.
use charm_integration_testin.Prelude.{ℕ, zero, suc, ◌+◌, ◌≡◌, refl, true, [], ◌∷◌}
use charm_integration_testin.Utils.{Attempt, returned, runtime_error, retry_on_failure}
use charm_integration_testin.Utils.Retries.{IsRetry, retry_on_failure-IsRetry}

-- The world counts the calls, and the result is their number.
abbrev flaky : ℕ → ℕ × Attempt ℕ ℕ
flaky zero = (1, runtime_error true 0)
flaky (suc zero) = (2, runtime_error true 0)
flaky n = (n + 1, returned n)

abbrev no_clock : ℕ → ℕ → ℕ
no_clock d w = w

third_time : retry_on_failure flaky no_clock 2 3 1 0 ≡ (3, returned 2, 1 ∷ 2 ∷ [])
unfolding retry_on_failure
third_time = refl

-- One retry is not enough.
too_few : retry_on_failure flaky no_clock 2 1 1 0 ≡ (2, runtime_error true 0, 1 ∷ [])
unfolding retry_on_failure
too_few = refl

retry_on_failure-IsRetry_example :
    IsRetry flaky no_clock 2 3 1 0 [] (retry_on_failure flaky no_clock 2 3 1 0)
retry_on_failure-IsRetry_example = retry_on_failure-IsRetry flaky no_clock 2 3 1 0
