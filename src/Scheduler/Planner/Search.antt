-- ===== src/Scheduler/Planner/Search.antt =====
-- The search for a plan: what it finds runs and is complete.
use charm_integration_testin.Prelude.{
  ℕ, zero, suc, ◌≡◌, ◌≢◌, refl, inl, inr, Bool, true, false, ◌||◌, List, [], ◌∷◌, In, if◌then◌else◌,
  Bool-cases,
}
use charm_integration_testin.Prelude.Dict.{get}
use charm_integration_testin.Scheduler.State.{State}
use charm_integration_testin.Scheduler.Graph.{Edge, StateGraph, edges_from, transition_eq}
use charm_integration_testin.Scheduler.Graph.Walk.{IsKeyed, HasPositiveCosts}
use charm_integration_testin.Scheduler.Graph.Optimal.{shortest_path-IsAnswer}
use charm_integration_testin.Scheduler.Item.{Item, has_id}
use charm_integration_testin.Scheduler.Session.{or_empty}
use charm_integration_testin.Scheduler.Collection.{Transitions, Clusters}
use charm_integration_testin.Scheduler.Planner.{
  Draft, Key, Draws, Verdict, planned, dead_end, path_error, exhausted, unscheduled_destinations,
  Call, try_targets, or_next, remember, visit, has_key, backtrack_search, initial_run, draft_plan,
  blank_draft,
}
use charm_integration_testin.Scheduler.Planner.Runs.{idle, IsKept, IsDraft}
use charm_integration_testin.Scheduler.Planner.Steps.{
  run_selected_at-IsDraft, inject_bridge-IsDraft,
}

module _ (c : Clusters) (all_transitions : Transitions) (start : State)
    (kept : IsKept c all_transitions) where
  -- A plan that runs from `start` and leaves no selected test out, or none; the path search does not
  -- raise.
  abbrev pub IsVerdict : Verdict → Type 0
  IsVerdict (planned d) =
      (final : State) × IsDraft c all_transitions start final d
      × (unscheduled_destinations c all_transitions d.scheduled ≡ [])
  IsVerdict dead_end = Unit
  IsVerdict path_error = ⊥
  IsVerdict exhausted = Unit

  blank-IsDraft : IsDraft c all_transitions start start blank_draft
  unfolding has_id
  blank-IsDraft = record { runs = idle; present = λ i h. absurd (cc) }

  if_lem :
      (b : Bool) (x y : State × Draft)
      → IsDraft c all_transitions start x.0 x.1
      → IsDraft c all_transitions start y.0 y.1
      → IsDraft c all_transitions start (if b then x else y).0 (if b then x else y).1
  if_lem true x y hx hy = hx
  if_lem false x y hx hy = hy

  initial_run-IsDraft :
      (g : StateGraph Item) (rng : Draws)
      → IsDraft c all_transitions start
          (initial_run c all_transitions g rng start).0
          (initial_run c all_transitions g rng start).1
  unfolding initial_run
  initial_run-IsDraft g rng =
      if_lem _ _ _ (run_selected_at-IsDraft c all_transitions kept blank_draft blank-IsDraft)
        blank-IsDraft

  or_next_lem :
      (r : Verdict × List Key) (next : List Key → Verdict × List Key)
      → IsVerdict r.0
      → ((memo : List Key) → IsVerdict (next memo).0)
      → IsVerdict (or_next r next).0
  or_next_lem (planned d, memo) next h k = h
  or_next_lem (dead_end, memo) next h k = k memo
  or_next_lem (path_error, memo) next h k = h
  or_next_lem (exhausted, memo) next h k = h

  remember_lem : (key : Key) (r : Verdict × List Key) → IsVerdict r.0 → IsVerdict (remember key r).0
  remember_lem key (planned d, memo) h = h
  remember_lem key (dead_end, memo) h = h
  remember_lem key (path_error, memo) h = h
  remember_lem key (exhausted, memo) h = h

  module _ (g : StateGraph Item) (rng : Draws) (keyed : IsKeyed g) (positive : HasPositiveCosts g)
      (tests : (x : State) (e : Edge Item)
        → In e (edges_from g x)
        → or_empty (get transition_eq all_transitions e.0) ≢ []) where
    abbrev IsSound : Call c all_transitions g rng → Type 0
    IsSound call =
        (s : State) (d : Draft) (memo : List Key)
        → IsDraft c all_transitions start s d
        → IsVerdict (call s d memo).0

    try_targets_lem :
        (call : Call c all_transitions g rng)
        → IsSound call
        → (visiting : List Key) (current : State) (d : Draft) (targets : List State)
          (memo : List Key)
        → IsDraft c all_transitions start current d
        → IsVerdict (try_targets c all_transitions g rng call visiting current d targets memo).0
    unfolding try_targets
    try_targets_lem call sound visiting current d [] memo draft = tt
    try_targets_lem call sound visiting current d (t ∷ ts) memo draft =
        elim (shortest_path-IsAnswer (rng visiting memo t) g current t [] keyed positive) [
          | inr (e, _) ↦ rw e (try_targets_lem call sound visiting current d ts memo draft)
          | inl (p, e, path, _) ↦
              let bridged =
                inject_bridge-IsDraft c all_transitions g tests current p d path draft in
              let arrived = run_selected_at-IsDraft c all_transitions kept _ bridged in
              rw e (
                or_next_lem _ _ (sound _ _ memo arrived)
                  (λ m. try_targets_lem call sound visiting current d ts m draft))
        ]

    visit_lem :
        (call : Call c all_transitions g rng)
        → IsSound call
        → (current : State) (d : Draft) (visiting memo : List Key) (remaining : List State)
        → unscheduled_destinations c all_transitions d.scheduled ≡ remaining
        → IsDraft c all_transitions start current d
        → IsVerdict (visit c all_transitions g rng call remaining current d visiting memo).0
    unfolding visit
    visit_lem call sound current d visiting memo [] none_left draft = (current, draft, none_left)
    visit_lem call sound current d visiting memo (r ∷ rs) left draft =
        elim (Bool-cases (has_key memo (current, r ∷ rs) || has_key visiting (current, r ∷ rs))) [
          | inl seen ↦ rw seen tt
          | inr new ↦ rw new (
              remember_lem (current, r ∷ rs) _
                (try_targets_lem call sound visiting current d (r ∷ rs) memo draft))
        ]

    pub backtrack_search_lem :
        (fuel : ℕ) (visiting : List Key)
        → IsSound (backtrack_search c all_transitions g rng fuel visiting)
    unfolding backtrack_search
    backtrack_search_lem zero visiting s d memo draft = tt
    backtrack_search_lem (suc fuel) visiting s d memo draft =
        visit_lem
          (backtrack_search c all_transitions g rng fuel
            ((s, unscheduled_destinations c all_transitions d.scheduled) ∷ visiting))
          (backtrack_search_lem fuel _) s d visiting memo _ refl draft

    -- When the selected pure tests leave their states as they are: a plan that the planner makes can be
    -- run from the starting state, one test after the other;
    -- a pure test runs in a state for which it was selected, a transition test where its edge starts.
    -- The plan leaves no selected test unscheduled, and every scheduled test stands in it.
    -- The path search does not raise.
    pub draft_plan-IsVerdict : IsVerdict (draft_plan c all_transitions g rng start)
    unfolding draft_plan
    draft_plan-IsVerdict = backtrack_search_lem _ [] _ _ [] (initial_run-IsDraft g rng)
