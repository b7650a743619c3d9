-- ===== src/Kubernetes/Limit/Flow.antt =====
-- kubernetes_client/resource_limit.py: temporary_resource_limit around a block, and its two callers.
use charm_integration_testin.Prelude.{
  ℕ, leb, if◌then◌else◌, String, str_eq, Result, ok, raise, ◌>>=◌,
}
use charm_integration_testin.Kubernetes.Limit.{
  Resources, StatefulSet, Patch, Failure, replaced, partitioned, not_positive, api_error,
  find_resources, is_partitioned, limit_resources, restore,
}

-- A call that acts on the world, and may raise.
abbrev pub Step : Type 0 → Type 0 → Type 0
Step W E = W → W × Result E Unit

-- What the client asks of the API server. A call that raises may have acted all the same.
pub record Api (W E : Type 0) : Type 0 where
  pub read_stateful_set : W → Result E StatefulSet
  pub patch_template : Patch → Step W E
  pub wait_for_restart : Step W E

abbrev pub of_api : {E A : Type 0} → Result E A → Result (Failure E) A
of_api (ok a) = ok a
of_api (raise e) = raise (api_error e)

abbrev pub failing_step : {W E : Type 0} → W × Result E Unit → W × Result (Failure E) Unit
failing_step (w, r) = (w, of_api r)

abbrev pub and_then : {W E : Type 0} → W × Result E Unit → Step W E → W × Result E Unit
and_then (w, raise e) next = (w, raise e)
and_then (w, ok u) next = next w

-- `finally`: what the second step raises takes the place of the first one's outcome.
abbrev pub outcome : {W E : Type 0} → Result E Unit → W × Result E Unit → W × Result E Unit
outcome r (w, ok u) = (w, r)
outcome r (w, raise e) = (w, raise e)

abbrev pub finally : {W E : Type 0} → W × Result E Unit → Step W E → W × Result E Unit
finally (w, r) next = outcome r (next w)

abbrev pub on_ok : {W E A : Type 0} → W → Result E A → (A → W × Result E Unit) → W × Result E Unit
on_ok w (raise e) next = (w, raise e)
on_ok w (ok a) next = next a

module _ {W E : Type 0} (api : Api W E) (parse_quantity : String → ℕ) (uid container : String) where
  -- `read`
  unfoldable pub read : W → Result (Failure E) StatefulSet
  read w =
      of_api (api.read_stateful_set w) >>= λ s. if str_eq s.uid uid then ok s else raise replaced

  -- `patch`, and the wait behind it
  unfoldable pub patch : StatefulSet → ℕ → Resources → Step W (Failure E)
  patch value index updated w =
      and_then
        (failing_step (
          api.patch_template
            (record {
              uid = uid;
              resource_version = value.resource_version;
              index = index;
              updated = updated;
            })
            w))
        (λ v. failing_step (api.wait_for_restart v))

  -- What is read before the first patch: the object, the container's index and its resources.
  unfoldable pub saved : W → Result (Failure E) (StatefulSet × (ℕ × Resources))
  unfolding read
  saved w = read w >>= λ original.
      if is_partitioned original.update_strategy
      then raise partitioned
      else find_resources 0 container original.containers >>= λ found. ok (original, found)

  -- What is put back: the object as it is now, the container's index and its resources.
  unfoldable pub put_back_at :
      (key : String) (before limited : Resources)
      → W
      → Result (Failure E) (StatefulSet × (ℕ × Resources))
  unfolding read
  put_back_at key before limited w = read w >>= λ current.
      find_resources 0 container current.containers >>= λ (index, now).
      restore parse_quantity key before limited now >>= λ updated. ok (current, (index, updated))

  -- The `finally` clause
  unfoldable pub clean_up : (key : String) (before limited : Resources) → Step W (Failure E)
  unfolding put_back_at patch
  clean_up key before limited w =
      on_ok w (put_back_at key before limited w)
        (λ (current, (index, updated)). patch current index updated w)

  -- `temporary_resource_limit` around the block
  unfoldable pub temporary_resource_limit :
      (key limit default_request : String) → Step W (Failure E) → Step W (Failure E)
  unfolding saved clean_up patch
  temporary_resource_limit key limit default_request block w =
      on_ok w (saved w) (λ (original, (index, before)).
        let limited = limit_resources parse_quantity key limit default_request before in
        finally (and_then (patch original index limited w) block) (clean_up key before limited))

  -- cpu_limit.py
  unfoldable pub temporary_cpu_limit : Step W (Failure E) → Step W (Failure E)
  unfolding temporary_resource_limit
  temporary_cpu_limit = temporary_resource_limit "cpu" "1" "100m"

  -- memory_limit.py
  unfoldable pub temporary_memory_limit : String → Step W (Failure E) → Step W (Failure E)
  unfolding temporary_resource_limit
  temporary_memory_limit limit block w =
      if leb (parse_quantity limit) 0
      then (w, raise not_positive)
      else temporary_resource_limit "memory" limit "128Mi" block w
