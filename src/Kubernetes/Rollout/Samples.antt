-- ===== src/Kubernetes/Rollout/Samples.antt =====
-- A rollout whose first watch is interrupted: a test and the theorem at it. The world is the clock.
use charm_integration_testin.Prelude.{
  ℕ, zero, suc, ◌+◌, ◌*◌, ◌<◌, ◌≡◌, ◌⊎◌, refl, ap, Option, none, some, List, [], ◌∷◌, ok, raise,
  arith,
}
use charm_integration_testin.Kubernetes.Rollout.{
  WatchEvent, StreamEnd, exhausted, interrupted, rolled_out, type_error, failed, Cluster,
  wait_for_statefulset_restart, any_rolled_out,
}
use charm_integration_testin.Kubernetes.Rollout.Waiting.{Waits, wait_for_statefulset_restart-Waits}

abbrev updating : WatchEvent
updating = record {
  observed_generation = some 2;
  updated_replicas = some 1;
  ready_replicas = none;
  replicas = some 2;
}

abbrev finished : WatchEvent
finished = record {
  observed_generation = some 2;
  updated_replicas = some 2;
  ready_replicas = some 2;
  replicas = some 2;
}

abbrev watched : ℕ → ℕ × (List WatchEvent × StreamEnd ℕ)
watched zero = (1000000, (updating ∷ [], interrupted))
watched (suc w) = (suc w + 1000000, (updating ∷ finished ∷ [], exhausted))

abbrev cluster : Cluster ℕ ℕ
cluster = record { now = λ w. w; generation = λ w. ok (some 2); stream = λ n w. watched w }

restarted : wait_for_statefulset_restart cluster 30 0 ≡ (2000000, rolled_out)
unfolding wait_for_statefulset_restart any_rolled_out
restarted = refl

-- A StatefulSet that its controller has not seen
abbrev fresh : WatchEvent
fresh = record finished { observed_generation = none }

abbrev watched_fresh : ℕ → ℕ × (List WatchEvent × StreamEnd ℕ)
watched_fresh w = (w + 1, (updating ∷ fresh ∷ finished ∷ [], exhausted))

unobserved :
    wait_for_statefulset_restart (record cluster { stream = λ n w. watched_fresh w }) 30 0
    ≡ (1, type_error)
unfolding wait_for_statefulset_restart any_rolled_out
unobserved = refl

takes_time :
    (n w v : ℕ) (es : List WatchEvent)
    → cluster.stream n w ≡ (v, (es, interrupted))
    → cluster.now w < cluster.now v
takes_time n zero v es h = let same : 1000000 ≡ v = ap (λ x. x.0) h in omega arith
takes_time n (suc w) v es h = absurd (let q : exhausted ≡ interrupted = ap (λ x. x.1.1) h in cc)

wait_for_statefulset_restart-Waits_example :
    let r = wait_for_statefulset_restart cluster 30 0 in
    ((e : ℕ) × (cluster.generation 0 ≡ raise e) × (r ≡ (0, failed e)))
    ⊎ ((target : Option ℕ) × (cluster.generation 0 ≡ ok target)
        × Waits cluster target (cluster.now 0 + 30 * 1000000) 0 (r.0) (r.1))
wait_for_statefulset_restart-Waits_example =
    wait_for_statefulset_restart-Waits cluster takes_time 30 0
