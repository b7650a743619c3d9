-- ===== src/Kubernetes/Samples.antt =====
-- A server with one StatefulSet, whose version is new behind each patch: tests and theorems at it.
use charm_integration_testin.Prelude.{
  ℕ, ◌≡◌, refl, ap, inl, inr, ◌&&◌, none, some, List, [], ◌∷◌, if◌then◌else◌, String, str_eq,
  eq_iff, Result, ok, raise, Bool-cases,
}
use charm_integration_testin.Kubernetes.Limit.{
  Resources, Container, StatefulSet, Patch, Failure, limit_resources, restore, lookup,
  find_resources, restore_field, capped, pop,
}
use charm_integration_testin.Prelude.Dict.{get, put}
use charm_integration_testin.Kubernetes.Limit.Flow.{
  Step, Api, temporary_resource_limit, temporary_cpu_limit,
}
use charm_integration_testin.Kubernetes.Limit.Values.{
  IsLimited, limit_resources-IsLimited, restore-limit_resources,
}
use charm_integration_testin.Kubernetes.Limit.Server.{put_resources, IsAccepted, IsServer}
use charm_integration_testin.Kubernetes.Limit.Runs.{IsEnding, temporary_resource_limit-IsEnding}

abbrev own : Resources
own = record { limits = some (("memory", "1Gi") ∷ []); requests = none; others = [] }

abbrev postgres : StatefulSet
postgres = record {
  uid = "u1";
  resource_version = "1";
  update_strategy = none;
  containers =
      record { name = "charm"; resources = none }
      ∷ record { name = "postgresql"; resources = some own }
      ∷ [];
}

abbrev milli : String → ℕ
milli q = if str_eq q "1" then 1000 else 100

abbrev patched : Patch → StatefulSet → StatefulSet
patched p w = record {
  uid = w.uid;
  resource_version = "next";
  update_strategy = w.update_strategy;
  containers = put_resources w.containers p.index p.updated;
}

abbrev server : Api StatefulSet ℕ
server = record {
  read_stateful_set = λ w. ok w;
  patch_template = λ p w.
      if str_eq w.uid p.uid && str_eq w.resource_version p.resource_version
      then (patched p w, ok tt)
      else (w, raise 409);
  wait_for_restart = λ w. (w, ok tt);
}

-- No one else acts on the object.
abbrev Same : StatefulSet → StatefulSet → Type 0
Same a b = a ≡ b

-- The block ends with an exception of its own.
abbrev failing_block : Step StatefulSet (Failure ℕ)
failing_block w = (w, raise (Failure.api_error 1))

abbrev containers_of : StatefulSet × Result (Failure ℕ) Unit → List Container
containers_of (w, r) = w.containers

-- The limits are as before; a field of requests is not left behind.
restored_containers :
    containers_of (temporary_cpu_limit server milli "u1" "postgresql" failing_block postgres)
    ≡ postgres.containers
unfolding temporary_cpu_limit find_resources restore restore_field limit_resources get put capped
    pop
restored_containers = refl

limit_resources-IsLimited_example :
    IsLimited milli "cpu" "1" "100m" own (limit_resources milli "cpu" "1" "100m" own)
limit_resources-IsLimited_example = limit_resources-IsLimited milli "cpu" "1" "100m" own

patch-IsAccepted :
    (p : Patch) (w v : StatefulSet)
    → server.patch_template p w ≡ (v, ok tt)
    → IsAccepted server Same p w v
patch-IsAccepted p w v h = elim (Bool-cases (str_eq w.uid p.uid)) [
  | inr a ↦ let q = rw a at h in absurd (let r : raise 409 ≡ ok tt = ap (λ x. x.1) q in cc)
  | inl a ↦ elim (Bool-cases (str_eq w.resource_version p.resource_version)) [
    | inr b ↦ let q = rw (a, b) at h in absurd (let r : raise 409 ≡ ok tt = ap (λ x. x.1) q in cc)
    | inl b ↦
        let same : patched p w ≡ v = ap (λ x. x.0) (rw (a, b) at h) in
        (
          w,
          patched p w,
          w,
          patched p w,
          (refl, same),
          (refl, refl),
          ((eq_iff w.uid p.uid).0 a, (eq_iff w.resource_version p.resource_version).0 b),
          refl,
        )
  ]
]

server-IsServer : IsServer server Same
server-IsServer =
    (patch-IsAccepted, λ w m s t e rs rt u r. let same : s ≡ t = cc in ap (λ x. x.containers) same)

temporary_resource_limit-IsEnding_example :
    IsEnding server Same server-IsServer milli "u1" "postgresql" "cpu" "1" "100m" failing_block
      postgres
      (temporary_resource_limit server milli "u1" "postgresql" "cpu" "1" "100m" failing_block
        postgres)
temporary_resource_limit-IsEnding_example =
    temporary_resource_limit-IsEnding server Same server-IsServer milli "u1" "postgresql" "cpu" "1"
      "100m" failing_block postgres

restore-limit_resources_example :
    (r : Resources) × ((restore milli {E = ℕ} "cpu" own
          (limit_resources milli "cpu" "1" "100m" own)
          (limit_resources milli "cpu" "1" "100m" own)
        ≡ ok r)
      × (((j : String) → lookup r.limits j ≡ lookup own.limits j)
          × ((j : String) → lookup r.requests j ≡ lookup own.requests j)))
restore-limit_resources_example = restore-limit_resources milli {E = ℕ} "cpu" "1" "100m" own
