-- ===== src/Kubernetes/Rollout.antt =====
-- kubernetes_client/client.py: wait_for_statefulset_restart. The API server and the clock are
-- parameters; times are in microseconds.
pub mod Events
pub mod Waiting
mod Samples
use charm_integration_testin.Prelude.{
  ℕ, zero, suc, ◌+◌, ◌-◌, ◌*◌, ◌/◌, Bool, true, false, not, ◌&&◌, ◌||◌, Option, none, some, List,
  [], ◌∷◌, ltb, leb, if◌then◌else◌, Result, ok, raise,
}

-- The object of an event of the watch. A controller that has not seen a new StatefulSet has set no
-- observed generation yet.
pub record WatchEvent : Type 0 where
  pub observed_generation : Option ℕ
  pub updated_replicas : Option ℕ
  pub ready_replicas : Option ℕ
  pub replicas : Option ℕ

abbrev pub or_number : ℕ → Option ℕ → ℕ
or_number n none = n
or_number n (some m) = m

abbrev pub total : WatchEvent → ℕ
total e = or_number 1 e.replicas

-- What the loop does at an event: it returns, goes on with `continue`, or raises the TypeError of a
-- comparison with None.
pub data Scan : Type 0 where
  returns continues incomparable : Scan

abbrev pub is_ready : WatchEvent → Bool
is_ready e =
    not (ltb (or_number 0 e.updated_replicas) (total e))
    && not (ltb (or_number 0 e.ready_replicas) (total e))

-- `status.observed_generation < target_generation`, and then the replicas
abbrev pub compare_generations : (observed target : Option ℕ) → (ready : Bool) → Scan
compare_generations (some o) (some t) ready =
    if ltb o t then continues else if ready then returns else continues
compare_generations (some o) none ready = incomparable
compare_generations none target ready = incomparable

abbrev pub is_rolled_out : Option ℕ → WatchEvent → Scan
is_rolled_out target e = compare_generations e.observed_generation target (is_ready e)

abbrev pub or_continue : Scan → Scan → Scan
or_continue continues rest = rest
or_continue scan rest = scan

unfoldable pub any_rolled_out : Option ℕ → List WatchEvent → Scan
any_rolled_out target [] = continues
any_rolled_out target (e ∷ es) = or_continue (is_rolled_out target e) (any_rolled_out target es)

-- How a stream of events is over: by itself, by a ProtocolError or a ReadTimeoutError, or by another
-- exception.
pub data StreamEnd (E : Type 0) : Type 0 where
  exhausted interrupted : StreamEnd E
  broken : E → StreamEnd E

pub data WaitOutcome (E : Type 0) : Type 0 where
  rolled_out timed_out type_error out_of_fuel : WaitOutcome E
  failed : E → WaitOutcome E

-- The clock, the target generation, and a watch with its timeout in seconds.
pub record Cluster (W E : Type 0) : Type 0 where
  pub now : W → ℕ
  pub generation : W → Result E (Option ℕ)
  pub stream : ℕ → W → W × (List WatchEvent × StreamEnd E)

-- `max(0, math.ceil(remaining))`
abbrev pub seconds_until : (deadline now : ℕ) → ℕ
seconds_until deadline now = (deadline - now + 999999) / 1000000

-- What follows the events of a watch, where none of them has ended the loop
abbrev pub after_events : {W E : Type 0} → W → Scan → W × WaitOutcome E → W × WaitOutcome E
after_events v returns rest = (v, rolled_out)
after_events v incomparable rest = (v, type_error)
after_events v continues rest = rest

-- What follows a watch that is over at `v`
abbrev pub after_watch :
    {W E : Type 0}
    → Cluster W E
    → (target : Option ℕ) → (deadline : ℕ) → (again : W → W × WaitOutcome E)
    → W × (List WatchEvent × StreamEnd E)
    → W × WaitOutcome E
after_watch cluster target deadline again (v, (events, exhausted)) =
    after_events v (any_rolled_out target events) (v, timed_out)
after_watch cluster target deadline again (v, (events, interrupted)) =
    let next = again v in
    after_events v (any_rolled_out target events)
      (if leb deadline (cluster.now v) then (v, timed_out) else next)
after_watch cluster target deadline again (v, (events, broken e)) =
    after_events v (any_rolled_out target events) (v, failed e)

-- `while True`
unfoldable pub watch_loop :
    {W E : Type 0} → Cluster W E → (target : Option ℕ) → (deadline fuel : ℕ) → W → W × WaitOutcome E
watch_loop cluster target deadline zero w = (w, out_of_fuel)
watch_loop cluster target deadline (suc fuel) w =
    after_watch cluster target deadline (watch_loop cluster target deadline fuel)
      (cluster.stream (seconds_until deadline (cluster.now w)) w)

-- The generation is read once.
abbrev pub with_generation :
    {W E : Type 0} → W → Result E (Option ℕ) → (Option ℕ → W × WaitOutcome E) → W × WaitOutcome E
with_generation w (raise e) wait = (w, failed e)
with_generation w (ok target) wait = wait target

-- A round for each microsecond, and one more
unfoldable pub wait_for_statefulset_restart :
    {W E : Type 0} → Cluster W E → (timeout_seconds : ℕ) → W → W × WaitOutcome E
unfolding watch_loop
wait_for_statefulset_restart cluster timeout_seconds w =
    with_generation w (cluster.generation w) (λ target.
      watch_loop cluster target (cluster.now w + timeout_seconds * 1000000)
        (suc (timeout_seconds * 1000000)) w)
