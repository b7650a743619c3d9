-- ===== src/Utils/Retries.antt =====
-- How often `retry_on_failure` calls the function, and how long it sleeps.
use charm_integration_testin.Prelude.{
  ℕ, zero, suc, ◌*◌, ◌≤◌, ◌≡◌, refl, ap, ◌∙◌, sym, true, false, List, [], ◌∷◌, ◌++◌, arith,
  append_assoc, append-nil,
}
use charm_integration_testin.Utils.{
  Attempt, returned, runtime_error, other_error, retry_loop, retry_on_failure,
}

-- The delays `d`, `d * backoff`, and so on.
abbrev pub delays : (backoff n d : ℕ) → List ℕ
delays backoff zero d = []
delays backoff (suc n) d = d ∷ delays backoff n (d * backoff)

module _ {W T E : Type 0} (func : W → W × Attempt T E) (sleep : ℕ → W → W) (backoff : ℕ) where
  -- From the first world the function fails `n` times with the message, with a growing sleep after
  -- each failure, which leads to the second world.
  pub data Retried : (n d : ℕ) → W → W → Type 0 where
    first : {d : ℕ} {w : W} → Retried 0 d w w
    again :
        {n d : ℕ} {w u v : W} (e : E)
        → func w ≡ (u, runtime_error true e)
        → Retried n (d * backoff) (sleep d u) v
        → Retried (suc n) d w v

  -- `slept` is what was slept before.
  abbrev pub IsRetry : (left d : ℕ) (w : W) (slept : List ℕ) (r : W × Attempt T E × List ℕ) → Type 0
  IsRetry left d w slept r =
      (n : ℕ) × (v : W) × (n ≤ left)
      × Retried n d w v
      × (func v ≡ (r.0, r.1))
      × (r.2 ≡ slept ++ delays backoff n d)
      × ((e : E) → r.1 ≡ runtime_error true e → n ≡ left)

  retry_loop_lem :
      (left d : ℕ) (w : W) (slept : List ℕ) (a : W × Attempt T E)
      → func w ≡ a
      → IsRetry left d w slept (retry_loop func sleep backoff left d w slept)
  unfolding retry_loop
  retry_loop_lem zero d w slept a h =
      (0, w, omega arith, first, refl, sym (append-nil slept), λ e t. refl)
  retry_loop_lem (suc left) d w slept (u, returned t) h =
      rw h (0, w, omega arith, first, h, sym (append-nil slept), λ e k. absurd (cc))
  retry_loop_lem (suc left) d w slept (u, other_error x) h =
      rw h (0, w, omega arith, first, h, sym (append-nil slept), λ e k. absurd (cc))
  retry_loop_lem (suc left) d w slept (u, runtime_error false x) h =
      rw h (0, w, omega arith, first, h, sym (append-nil slept), λ e k. absurd (cc))
  retry_loop_lem (suc left) d w slept (u, runtime_error true x) h =
      let (n, v, le, steps, last, times, full) =
        retry_loop_lem left (d * backoff) (sleep d u) (slept ++ d ∷ []) (func (sleep d u)) refl in
      rw h (
        suc n,
        v,
        omega arith,
        again x h steps,
        last,
        times ∙ append_assoc slept (d ∷ []) _,
        λ e k. ap suc (full e k),
      )

  -- Whatever the function does, the wrapper returns. It has retried some n times, at most
  -- `max_retries`: each time the function raised a RuntimeError with the message, and the wrapper
  -- slept, `delay` first and `backoff` times as long after each. It ends as the next call ended.
  -- When that failed with the message too, then n is `max_retries`.
  pub retry_on_failure-IsRetry :
      (max_retries delay : ℕ) (w : W)
      → IsRetry max_retries delay w [] (retry_on_failure func sleep backoff max_retries delay w)
  unfolding retry_on_failure
  retry_on_failure-IsRetry max_retries delay w = retry_loop_lem max_retries delay w [] (func w) refl
