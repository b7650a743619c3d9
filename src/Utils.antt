-- ===== src/Utils.antt =====
-- utils/retry_decorator.py: `retry_on_failure`. `W` is the state of the world, `T` the type of the
-- result, and a sleep a step on the world.
pub mod Retries
mod Samples
use charm_integration_testin.Prelude.{
  ℕ, zero, suc, ◌+◌, ◌*◌, ◌≤◌, ◌<◌, ◌≡◌, refl, ◌⊎◌, inl, inr, Bool, true, false, ◌&&◌, List, [],
  ◌∷◌, ◌++◌, arith, if◌then◌else◌, length, ltb, Bool-cases,
}

-- What a call does: it returns, or raises a RuntimeError, whose text has the message or not, or
-- raises another exception.
pub data Attempt (T E : Type 0) : Type 0 where
  returned : T → Attempt T E
  runtime_error : Bool → E → Attempt T E
  other_error : E → Attempt T E

-- Only a RuntimeError with the message leads to another attempt.
abbrev pub or_again :
    {W T E : Type 0}
    → W × Attempt T E
    → List ℕ
    → W × Attempt T E × List ℕ
    → W × Attempt T E × List ℕ
or_again (w, runtime_error true e) slept again = again
or_again (w, a) slept again = (w, a, slept)

module _ {W T E : Type 0} (func : W → W × Attempt T E) (sleep : ℕ → W → W) (backoff : ℕ) where
  -- An attempt with `left` attempts after it. The result has the sleeps so far. Delays are in a unit
  -- in which they and the factor are whole.
  unfoldable pub retry_loop : (left current_delay : ℕ) → W → List ℕ → W × Attempt T E × List ℕ
  retry_loop zero current_delay w slept = let a = func w in (a.0, a.1, slept)
  retry_loop (suc left) current_delay w slept = or_again (func w) slept (
      retry_loop left (current_delay * backoff) (sleep current_delay (func w).0)
        (slept ++ current_delay ∷ []))

  -- The wrapper.
  unfoldable pub retry_on_failure : (max_retries delay : ℕ) → W → W × Attempt T E × List ℕ
  unfolding retry_loop
  retry_on_failure max_retries delay w = retry_loop max_retries delay w []
