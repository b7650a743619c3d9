-- ===== src/Kubernetes/Limit/Runs.antt =====
-- kubernetes_client/resource_limit.py: how temporary_resource_limit ends, whatever the block does.
use charm_integration_testin.Prelude.{
  ℕ, ◌≡◌, ◌⊎◌, refl, sym, ap, inl, inr, String, Result, ok, raise,
}
use charm_integration_testin.Kubernetes.Limit.{
  Resources, StatefulSet, Failure, api_error, limit_resources,
}
use charm_integration_testin.Kubernetes.Limit.Flow.{
  Step, Api, failing_step, and_then, finally, outcome, on_ok, patch, saved, put_back_at, clean_up,
  temporary_resource_limit,
}
use charm_integration_testin.Kubernetes.Limit.Server.{IsServer, IsRestored, clean_up-IsRestored}

step-raises :
    {W E : Type 0} (step : W × Result E Unit) (next : Step W E) (v : W) (e : Failure E)
    → and_then (failing_step step) (λ w. failing_step (next w)) ≡ (v, raise e)
    → (x : E) × (e ≡ api_error x)
step-raises (w, raise y) next v e h =
    let q : raise (api_error y) ≡ raise e = ap (λ x. x.1) h in (y, cc)
step-raises {W = W} {E = E} (w, ok t) next v e h = answered (next w) h
  where
    answered : (s : W × Result E Unit) → failing_step s ≡ (v, raise e) → (x : E) × (e ≡ api_error x)
    answered (w', raise y) k = let q : raise (api_error y) ≡ raise e = ap (λ x. x.1) k in (y, cc)
    answered (w', ok t') k = absurd (let q : ok t' ≡ raise e = ap (λ x. x.1) k in cc)

on_ok-raises :
    {W E A : Type 0} (w v : W) (r : Result E A) (next : A → W × Result E Unit) (e : E)
    → on_ok w r next ≡ (v, raise e)
    → (v ≡ w) ⊎ ((a : A) × (r ≡ ok a) × (next a ≡ (v, raise e)))
on_ok-raises w v (ok a) next e h = inr (a, refl, h)
on_ok-raises w v (raise y) next e h = inl (sym (ap (λ x. x.0) h))

module _ {W E : Type 0} (api : Api W E) (Drifts : W → W → Type 0) (server : IsServer api Drifts)
    (parse_quantity : String → ℕ) (uid container key : String) where
  -- The clean-up raised: then it has written nothing, or a call of the server raised.
  abbrev pub IsGivenUp : (u : W) → W × Result (Failure E) Unit → Type 0
  IsGivenUp u (v, r) = (e : Failure E) × (r ≡ raise e) × ((v ≡ u) ⊎ ((x : E) × (e ≡ api_error x)))

  patch-raises :
      (current : StatefulSet) (index : ℕ) (updated : Resources) (u v : W) (e : Failure E)
      → patch api parse_quantity uid container current index updated u ≡ (v, raise e)
      → (x : E) × (e ≡ api_error x)
  unfolding patch
  patch-raises current index updated u v e h =
      step-raises (api.patch_template _ u) api.wait_for_restart v e h

  clean_up-ends :
      (before limited : Resources) (u v : W) (r : Result (Failure E) Unit)
      → clean_up api parse_quantity uid container key before limited u ≡ (v, r)
      → ((r ≡ ok tt) × IsRestored api Drifts server parse_quantity uid container key before u v)
        ⊎ IsGivenUp u (v, r)
  unfolding clean_up
  clean_up-ends before limited u v (ok t) h = inl (
    refl,
    clean_up-IsRestored api Drifts server parse_quantity uid container key before limited u v h,
  )
  clean_up-ends before limited u v (raise e) h = inr (
    e,
    refl,
    elim (on_ok-raises u v (put_back_at api parse_quantity uid container key before limited u) _ e
        h) [
          | inl same ↦ inl same
          | inr ((current, (index, updated)), p, q) ↦
              inr (patch-raises current index updated u v e q)
        ],
  )

  -- How the context ends: it raises before it has written anything; or the block is over at `u`, with
  -- an outcome that is the context's one when the clean-up has restored the container; or the
  -- clean-up has raised, and then either a call of the server raised, or nothing was written.
  abbrev pub IsEnding :
      (limit default_request : String)
      → Step W (Failure E)
      → W
      → W × Result (Failure E) Unit
      → Type 0
  IsEnding limit default_request block w (v, r) =
      ((e : Failure E) × (r ≡ raise e) × (v ≡ w))
      ⊎ ((original : StatefulSet) × (index : ℕ) × (before : Resources) × (u : W) × (o : Result
            (Failure E) Unit)
          × (saved api parse_quantity uid container w ≡ ok (original, (index, before)))
          × (and_then
                (patch api parse_quantity uid container original index
                  (limit_resources parse_quantity key limit default_request before) w)
                block
              ≡ (u, o))
          × (((r ≡ o) × IsRestored api Drifts server parse_quantity uid container key before u v)
              ⊎ IsGivenUp u (v, r)))

  finally-ends :
      (before limited : Resources) (u : W) (o : Result (Failure E) Unit)
      (c : W × Result (Failure E) Unit)
      → clean_up api parse_quantity uid container key before limited u ≡ c
      → ((((outcome o c).1 ≡ o)
            × IsRestored api Drifts server parse_quantity uid container key before u
                ((outcome o c).0))
          ⊎ IsGivenUp u (outcome o c))
  finally-ends before limited u o (v, ok t) h = inl (
    refl,
    clean_up-IsRestored api Drifts server parse_quantity uid container key before limited u v h,
  )
  finally-ends before limited u o (v, raise e) h =
      elim (clean_up-ends before limited u v (raise e) h) [
        | inl (q, restored) ↦ absurd (cc)
        | inr given_up ↦ inr given_up
      ]

  -- Whatever the block does and whatever the server answers, the context ends in one of three ways.
  -- It raises before it has written anything. Or, once the block is over, the patch of the clean-up
  -- is accepted at a moment when nothing has changed since the clean-up read the object: the
  -- container gets its saved quantities of the resource back, all else is as at that moment, and
  -- the outcome is the block's. Or the clean-up raises: it has not written, or the server raised.
  pub temporary_resource_limit-IsEnding :
      (limit default_request : String) (block : Step W (Failure E)) (w : W)
      → IsEnding limit default_request block w (
          temporary_resource_limit api parse_quantity uid container key limit default_request block
            w)
  unfolding temporary_resource_limit
  temporary_resource_limit-IsEnding limit default_request block w =
      ends (saved api parse_quantity uid container w) refl
    where
      limited : Resources → Resources
      limited before = limit_resources parse_quantity key limit default_request before

      ends :
          (p : Result (Failure E) (StatefulSet × (ℕ × Resources)))
          → saved api parse_quantity uid container w ≡ p
          → IsEnding limit default_request block w (
              on_ok w p (λ (original, (index, before)).
                finally
                  (and_then
                    (patch api parse_quantity uid container original index (limited before) w)
                    block)
                  (clean_up api parse_quantity uid container key before (limited before))))
      ends (raise e) h = inl (e, refl, refl)
      ends (ok (original, (index, before))) h =
          let c =
            and_then (patch api parse_quantity uid container original index (limited before) w)
              block in
          inr (
            original,
            index,
            before,
            c.0,
            c.1,
            h,
            refl,
            finally-ends before (limited before) (c.0) (c.1) _ refl,
          )
