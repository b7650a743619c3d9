-- ===== src/Scheduler/Planner/Termination.antt =====
-- The search for a plan ends.
use charm_integration_testin.Prelude.{
  ℕ, zero, suc, ◌+◌, ◌≤◌, ◌<◌, ◌≡◌, ◌≢◌, refl, ap, inl, inr, true, false, ◌||◌, List, [], ◌∷◌,
  arith, In, Bool-cases, List-cases,
}
use charm_integration_testin.Prelude.Dict.{get}
use charm_integration_testin.Scheduler.State.{State, sorted_states}
use charm_integration_testin.Scheduler.Graph.{
  StateTransition, Edge, StateGraph, Outcome, found, unreachable, choice_error, out_of_fuel,
  shortest_path, transition_eq,
}
use charm_integration_testin.Scheduler.Item.{Item, has_id}
use charm_integration_testin.Scheduler.Session.{or_empty}
use charm_integration_testin.Scheduler.Collection.{Transitions, Clusters}
use charm_integration_testin.Scheduler.Planner.{
  Draft, schedule, Key, Draws, Verdict, planned, dead_end, path_error, exhausted, schedule_new,
  first_unscheduled, departing, pure_at, is_some, has_unscheduled, unscheduled_among,
  unscheduled_destinations, run_selected_at, cross, inject_bridge, Call, or_next, try_target,
  try_targets, remember, visit, has_key, backtrack_search, initial_run, draft_plan,
}
use charm_integration_testin.Scheduler.Planner.Runs.{
  first_unscheduled-cases, first_departing-cases, departing-IsListed,
}
use charm_integration_testin.Scheduler.Planner.Complete.{first_departing-none}
use charm_integration_testin.Scheduler.Planner.Steps.{Includes, Includes-cons, has_id-here}
use charm_integration_testin.Scheduler.Planner.Measure.{
  open_items, open_items_mono, open_items_less, open_items_le, pure-In,
}

schedule_new-Includes :
    (items : List Item) (d : Draft) → Includes d.scheduled (schedule_new items d).scheduled
unfolding schedule_new
schedule_new-Includes [] d i h = h
schedule_new-Includes (x ∷ xs) d i h = elim (Bool-cases (has_id d.scheduled x.ident)) [
  | inl p ↦ rw (p, schedule_new) (schedule_new-Includes xs d i h)
  | inr p ↦
      rw (p, schedule_new)
        (schedule_new-Includes xs (schedule x d) i (Includes-cons x.ident d.scheduled i h))
]

-- All of the items are scheduled then.
schedule_new-all :
    (items : List Item) (d : Draft) (x : Item)
    → In x items
    → has_id (schedule_new items d).scheduled x.ident ≡ true
unfolding schedule_new
schedule_new-all [] d x m = absurd m
schedule_new-all (i ∷ is) d x (inr m) = schedule_new-all is _ x m
schedule_new-all (i ∷ is) d x (inl e) = elim (Bool-cases (has_id d.scheduled i.ident)) [
  | inl p ↦ rw (e, p, schedule_new) (schedule_new-Includes is d i.ident p)
  | inr p ↦
      rw (e, p, schedule_new)
        (schedule_new-Includes is (schedule i d) i.ident (has_id-here i.ident d.scheduled))
]

try_target-ends :
    (o : Outcome Item) (follow : List (Edge Item) → Verdict × List Key) (skip : Verdict × List Key)
    (memo : List Key)
    → ((p : List (Edge Item)) → (follow p).0 ≢ exhausted)
    → skip.0 ≢ exhausted
    → (try_target follow skip memo o).0 ≢ exhausted
try_target-ends unreachable follow skip memo h k = k
try_target-ends (found p) follow skip memo h k = h p
try_target-ends choice_error follow skip memo h k = λ e. cc
try_target-ends out_of_fuel follow skip memo h k = λ e. cc

module _ (c : Clusters) (all_transitions : Transitions) where
  cross-Includes :
      (t : StateTransition) (d : Draft)
      → Includes d.scheduled
          (cross c all_transitions
            (first_unscheduled (or_empty (get transition_eq c.selected t)) d.scheduled)
            (or_empty (get transition_eq all_transitions t))
            d).scheduled
  cross-Includes t d i h =
      elim (first_unscheduled-cases (or_empty (get transition_eq c.selected t)) d.scheduled) [
        | inr (x, e, _, _) ↦ rw e (Includes-cons x.ident d.scheduled i h)
        | inl e ↦ elim (List-cases (or_empty (get transition_eq all_transitions t))) [
          | inl q ↦ rw (e, q) h
          | inr (x, xs, q) ↦ rw (e, q) h
        ]
      ]

  inject_bridge-Includes :
      (p : List (Edge Item)) (d : Draft)
      → Includes d.scheduled (inject_bridge c all_transitions p d).scheduled
  unfolding inject_bridge
  inject_bridge-Includes [] d i h = h
  inject_bridge-Includes ((t, x) ∷ p) d i h = inject_bridge-Includes p _ i (cross-Includes t d i h)

  run_selected_at-Includes :
      (s : State) (d : Draft)
      → Includes d.scheduled (run_selected_at c all_transitions s d).1.scheduled
  unfolding run_selected_at
  run_selected_at-Includes s d i h =
      let d' = schedule_new (pure_at c all_transitions s) d in
      let h' = schedule_new-Includes (pure_at c all_transitions s) d i h in
      elim (first_departing-cases (departing c.selected s) d'.scheduled) [
        | inl e ↦ rw e h'
        | inr (t, x, e, _, _) ↦ rw e (Includes-cons x.ident d'.scheduled i h')
      ]

  -- The selected items that a draft has not scheduled.
  abbrev left : List ℕ → ℕ
  left ids = open_items ids c.pure + open_items ids c.selected

  less_pure :
      (ids ids' : List ℕ) (s : State) (x : Item)
      → Includes ids ids'
      → In x (pure_at c all_transitions s)
      → has_id ids x.ident ≡ false
      → has_id ids' x.ident ≡ true
      → left ids' < left ids
  less_pure ids ids' s x grows m p q =
      let (items, h, k) = pure-In c.pure s x m in
      omega (
        arith,
        open_items_less ids ids' grows c.pure s items x h k p q,
        open_items_mono ids ids' grows c.selected,
      )

  less_departing :
      (ids ids' : List ℕ) (s : State) (t : StateTransition) (x : Item)
      → Includes ids ids'
      → In (t, x) (departing c.selected s)
      → has_id ids x.ident ≡ false
      → has_id ids' x.ident ≡ true
      → left ids' < left ids
  less_departing ids ids' s t x grows m p q =
      let (from, (items, h, k)) = departing-IsListed c.selected s t x m in
      omega (
        arith,
        open_items_less ids ids' grows c.selected t items x h k p q,
        open_items_mono ids ids' grows c.pure,
      )

  run_selected_at-less :
      (s : State) (ids : List ℕ) (d : Draft)
      → Includes ids d.scheduled
      → has_unscheduled c all_transitions ids s ≡ true
      → left (run_selected_at c all_transitions s d).1.scheduled < left ids
  unfolding run_selected_at has_unscheduled
  run_selected_at-less s ids d grows h =
      let pure_items = pure_at c all_transitions s in
      let d' = schedule_new pure_items d in
      let grows' : Includes ids d'.scheduled =
        λ i k. schedule_new-Includes pure_items d i (grows i k) in
      elim (first_unscheduled-cases pure_items ids) [
        | inr (x, e, m, new) ↦
            let p = schedule_new-all pure_items d x m in
            elim (first_departing-cases (departing c.selected s) d'.scheduled) [
              | inl q ↦ rw q (less_pure ids d'.scheduled s x grows' m new p)
              | inr (t, y, q, _, _) ↦ rw q (
                  less_pure ids (y.ident ∷ d'.scheduled) s x
                    (λ i k. Includes-cons y.ident d'.scheduled i (grows' i k)) m new
                    (Includes-cons y.ident d'.scheduled x.ident p))
            ]
        | inl e ↦ elim (first_departing-cases (departing c.selected s) d'.scheduled) [
          | inr (t, y, q, m, new) ↦ elim (Bool-cases (has_id ids y.ident)) [
            | inl old ↦ let z = grows' y.ident old in absurd (cc)
            | inr fresh ↦ rw q (
                less_departing ids (y.ident ∷ d'.scheduled) s t y
                  (λ i k. Includes-cons y.ident d'.scheduled i (grows' i k)) m fresh
                  (has_id-here y.ident d'.scheduled))
          ]
          | inl q ↦ elim (first_departing-cases (departing c.selected s) ids) [
            | inl none_left ↦ let z : false ≡ true = rw (e, none_left) at h in absurd (cc)
            | inr (t, y, q', m, new) ↦ rw q (
                less_departing ids d'.scheduled s t y grows' m new
                  (first_departing-none (departing c.selected s) d'.scheduled t y (ap is_some q) m))
          ]
        ]
      ]

  among-has_unscheduled :
      (ids : List ℕ) (states : List State) (s : State)
      → In s (unscheduled_among c all_transitions ids states)
      → has_unscheduled c all_transitions ids s ≡ true
  unfolding unscheduled_among
  among-has_unscheduled ids [] s m = absurd m
  among-has_unscheduled ids (a ∷ as') s m =
      elim (Bool-cases (has_unscheduled c all_transitions ids a)) [
        | inr p ↦ among-has_unscheduled ids as' s (rw p at m)
        | inl p ↦
            let m' : In s (a ∷ unscheduled_among c all_transitions ids as') = rw p at m in
            elim m' [ inl e ↦ rw e p | inr rest ↦ among-has_unscheduled ids as' s rest ]
      ]

  or_next-ends :
      (r : Verdict × List Key) (next : List Key → Verdict × List Key)
      → r.0 ≢ exhausted
      → ((memo : List Key) → (next memo).0 ≢ exhausted)
      → (or_next r next).0 ≢ exhausted
  or_next-ends (planned d, memo) next h k = h
  or_next-ends (dead_end, memo) next h k = k memo
  or_next-ends (path_error, memo) next h k = h
  or_next-ends (exhausted, memo) next h k = h

  remember-ends :
      (key : Key) (r : Verdict × List Key) → r.0 ≢ exhausted → (remember key r).0 ≢ exhausted
  remember-ends key (planned d, memo) h = h
  remember-ends key (dead_end, memo) h = h
  remember-ends key (path_error, memo) h = h
  remember-ends key (exhausted, memo) h = h

  module _ (g : StateGraph Item) (rng : Draws) where
    abbrev ReturnsWithin : ℕ → Call c all_transitions g rng → Type 0
    ReturnsWithin fuel call =
        (s : State) (d : Draft) (memo : List Key)
        → left d.scheduled < fuel
        → (call s d memo).0 ≢ exhausted

    try_targets-ends :
        (fuel : ℕ) (call : Call c all_transitions g rng)
        → ReturnsWithin fuel call
        → (visiting : List Key) (current : State) (d : Draft) (targets : List State)
          (memo : List Key)
        → left d.scheduled ≤ fuel
        → ((t : State) → In t targets → has_unscheduled c all_transitions d.scheduled t ≡ true)
        → (try_targets c all_transitions g rng call visiting current d targets memo).0 ≢ exhausted
    unfolding try_targets
    try_targets-ends fuel call ends visiting current d [] memo le fresh = λ e. cc
    try_targets-ends fuel call ends visiting current d (t ∷ ts) memo le fresh =
        let others = λ (m : List Key).
          try_targets-ends fuel call ends visiting current d ts m le (λ u k. fresh u (inr k)) in
        try_target-ends (shortest_path (rng visiting memo t) g current t []) _ _ memo
          (λ p.
            let less =
              run_selected_at-less t d.scheduled (inject_bridge c all_transitions p d)
                (inject_bridge-Includes p d) (fresh t (inl refl)) in
            or_next-ends _ _ (ends _ _ memo (omega (arith, less, le))) others)
          (others memo)

    visit-ends :
        (fuel : ℕ) (call : Call c all_transitions g rng)
        → ReturnsWithin fuel call
        → (current : State) (d : Draft) (visiting memo : List Key) (remaining : List State)
        → left d.scheduled ≤ fuel
        → ((t : State) → In t remaining → has_unscheduled c all_transitions d.scheduled t ≡ true)
        → (visit c all_transitions g rng call remaining current d visiting memo).0 ≢ exhausted
    unfolding visit
    visit-ends fuel call ends current d visiting memo [] le fresh = λ e. cc
    visit-ends fuel call ends current d visiting memo (r ∷ rs) le fresh =
        elim (Bool-cases (has_key memo (current, r ∷ rs) || has_key visiting (current, r ∷ rs))) [
          | inl seen ↦ rw seen (λ e. cc)
          | inr new ↦ rw new (
              remember-ends (current, r ∷ rs) _
                (try_targets-ends fuel call ends visiting current d (r ∷ rs) memo le fresh))
        ]

    backtrack_search-ends :
        (fuel : ℕ) (visiting : List Key)
        → ReturnsWithin fuel (backtrack_search c all_transitions g rng fuel visiting)
    unfolding backtrack_search unscheduled_destinations
    backtrack_search-ends zero visiting s d memo h = absurd (omega arith)
    backtrack_search-ends (suc fuel) visiting s d memo h =
        visit-ends fuel
          (backtrack_search c all_transitions g rng fuel
            ((s, unscheduled_destinations c all_transitions d.scheduled) ∷ visiting))
          (backtrack_search-ends fuel _) s d visiting memo _ (omega arith)
          (λ t m. among-has_unscheduled d.scheduled sorted_states t m)

    -- The search for a plan ends, whatever is selected and whatever each call of the path search draws:
    -- each call below another has scheduled a selected item, so that the fuel of one call for each
    -- selected item, and one more, is enough.
    pub draft_plan-ends : (start : State) → draft_plan c all_transitions g rng start ≢ exhausted
    unfolding draft_plan
    draft_plan-ends start =
        let d = (initial_run c all_transitions g rng start).1 in
        backtrack_search-ends _ [] _ _ []
          (omega (arith, open_items_le d.scheduled c.pure, open_items_le d.scheduled c.selected))
