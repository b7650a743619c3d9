-- ===== src/Kubernetes/Rollout/Waiting.antt =====
-- kubernetes_client/client.py: how wait_for_statefulset_restart ends.
use charm_integration_testin.Prelude.{
  ℕ, zero, suc, ◌+◌, ◌-◌, ◌*◌, ◌≤◌, ◌<◌, ◌≡◌, ◌⊎◌, refl, inl, inr, Option, List, leb, leb→le, arith,
  Bool-cases, Result, ok, raise,
}
use charm_integration_testin.Kubernetes.Rollout.{
  WatchEvent, Scan, returns, continues, incomparable, any_rolled_out, StreamEnd, exhausted,
  interrupted, broken, WaitOutcome, rolled_out, timed_out, type_error, failed, Cluster,
  seconds_until, after_events, after_watch, watch_loop, with_generation,
  wait_for_statefulset_restart,
}
use charm_integration_testin.Kubernetes.Rollout.Events.{
  ArePassed, IsSeen, IsUnreadable, Reads, any_rolled_out-Reads,
}

module _ {W E : Type 0} (cluster : Cluster W E) (target : Option ℕ) (deadline : ℕ) where
  -- A watch from `w` with the time that is left.
  abbrev pub Watches : W → W → List WatchEvent → StreamEnd E → Type 0
  Watches w v events end =
      cluster.stream (seconds_until deadline (cluster.now w)) w ≡ (v, (events, end))

  -- How the wait goes from the first world to the second one: a watch that sees the end of the rollout
  -- ends it well, and only such a watch. One that comes upon a missing generation before that raises a
  -- TypeError. One that is interrupted is followed by another, before the deadline.
  pub data Waits : W → W → WaitOutcome E → Type 0 where
    seen :
        {w v : W} {es : List WatchEvent} {end : StreamEnd E}
        → Watches w v es end
        → IsSeen target es
        → Waits w v rolled_out
    unreadable :
        {w v : W} {es : List WatchEvent} {end : StreamEnd E}
        → Watches w v es end
        → IsUnreadable target es
        → Waits w v type_error
    over :
        {w v : W} {es : List WatchEvent}
        → Watches w v es exhausted
        → ArePassed target es
        → Waits w v timed_out
    late :
        {w v : W} {es : List WatchEvent}
        → Watches w v es interrupted
        → ArePassed target es
        → deadline ≤ cluster.now v
        → Waits w v timed_out
    fails :
        {w v : W} {es : List WatchEvent} {e : E}
        → Watches w v es (broken e)
        → ArePassed target es
        → Waits w v (failed e)
    again :
        {w v u : W} {es : List WatchEvent} {o : WaitOutcome E}
        → Watches w v es interrupted
        → ArePassed target es
        → cluster.now v < deadline
        → Waits v u o
        → Waits w u o

  after_events-Waits :
      (w v : W) (es : List WatchEvent) (end : StreamEnd E)
      → Watches w v es end
      → (rest : W × WaitOutcome E) → (ArePassed target es → Waits w rest.0 rest.1)
      → let r = after_events v (any_rolled_out target es) rest in Waits w (r.0) (r.1)
  after_events-Waits w v es end h rest k =
      by_scan (any_rolled_out target es) (any_rolled_out-Reads target es)
    where
      by_scan :
          (scan : Scan)
          → Reads target es scan
          → let r = after_events v scan rest in Waits w (r.0) (r.1)
      by_scan returns p = seen h p
      by_scan incomparable p = unreadable h p
      by_scan continues p = k p

  module _
      (takes_time : (n : ℕ) (w v : W) (es : List WatchEvent)
        → cluster.stream n w ≡ (v, (es, interrupted))
        → cluster.now w < cluster.now v) where
    after_watch-Waits :
        (w : W) (next : W → W × WaitOutcome E)
        → ((v : W)
            → cluster.now w < cluster.now v
            → cluster.now v < deadline
            → Waits v ((next v).0) ((next v).1))
        → (s : W × (List WatchEvent × StreamEnd E))
        → cluster.stream (seconds_until deadline (cluster.now w)) w ≡ s
        → let r = after_watch cluster target deadline next s in Waits w (r.0) (r.1)
    after_watch-Waits w next ih (v, (es, exhausted)) h =
        after_events-Waits w v es exhausted h (v, timed_out) (over h)
    after_watch-Waits w next ih (v, (es, broken e)) h =
        after_events-Waits w v es (broken e) h (v, failed e) (fails h)
    after_watch-Waits w next ih (v, (es, interrupted)) h =
        after_events-Waits w v es interrupted h _ (λ p.
          elim (Bool-cases (leb deadline (cluster.now v))) [
            | inl q ↦ rw q (late h p (leb→le deadline (cluster.now v) q))
            | inr q ↦
                let early : cluster.now v < deadline = ground arith in
                let later = takes_time (seconds_until deadline (cluster.now w)) w v es h in
                rw q (again h p early (ih v later early))
          ])

    watch_loop-Waits :
        (fuel : ℕ) (w : W)
        → deadline - cluster.now w < fuel
        → let r = watch_loop cluster target deadline fuel w in Waits w (r.0) (r.1)
    unfolding watch_loop
    watch_loop-Waits zero w lt = absurd (omega arith)
    watch_loop-Waits (suc fuel) w lt =
        after_watch-Waits w (watch_loop cluster target deadline fuel)
          (λ v later early. watch_loop-Waits fuel v (omega arith))
          (cluster.stream (seconds_until deadline (cluster.now w)) w) refl

-- When a watch that is interrupted has taken time, the wait ends. It raises what the read of the
-- generation raised; or it returns just when a watch has seen the end of the rollout, raises a
-- TypeError just when a watch comes upon a missing generation before that, watches again after an
-- interruption before the deadline, and in the other cases raises a TimeoutError or what the watch
-- raised.
pub wait_for_statefulset_restart-Waits :
    {W E : Type 0} (cluster : Cluster W E)
    → ((n : ℕ) (w v : W) (es : List WatchEvent)
        → cluster.stream n w ≡ (v, (es, interrupted))
        → cluster.now w < cluster.now v)
    → (timeout_seconds : ℕ) (w : W)
    → let r = wait_for_statefulset_restart cluster timeout_seconds w in
      ((e : E) × (cluster.generation w ≡ raise e) × (r ≡ (w, failed e)))
      ⊎ ((target : Option ℕ) × (cluster.generation w ≡ ok target)
          × Waits cluster target (cluster.now w + timeout_seconds * 1000000) w (r.0) (r.1))
unfolding wait_for_statefulset_restart
wait_for_statefulset_restart-Waits {W = W} {E = E} cluster takes_time timeout_seconds w =
    from_generation (cluster.generation w) refl
  where
    wait : Option ℕ → W × WaitOutcome E
    wait target =
        watch_loop cluster target (cluster.now w + timeout_seconds * 1000000)
          (suc (timeout_seconds * 1000000)) w

    from_generation :
        (g : Result E (Option ℕ))
        → cluster.generation w ≡ g
        → ((e : E) × (cluster.generation w ≡ raise e) × (with_generation w g wait ≡ (w, failed e)))
          ⊎ ((target : Option ℕ) × (cluster.generation w ≡ ok target)
              × Waits cluster target
                  (cluster.now w + timeout_seconds * 1000000)
                  w
                  ((with_generation w g wait).0)
                  ((with_generation w g wait).1))
    from_generation (raise e) h = inl (e, h, refl)
    from_generation (ok target) h = inr (
      target,
      h,
      watch_loop-Waits cluster target (cluster.now w + timeout_seconds * 1000000) takes_time
          (suc (timeout_seconds * 1000000)) w (omega arith),
    )
