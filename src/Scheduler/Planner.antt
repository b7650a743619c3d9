-- ===== src/Scheduler/Planner.antt =====
-- plugin.py: `_build_execution_plan`, the backtracking search for an order of the selected tests with
-- bridges between them. A set of items is the list of their identities, a set of states the list of
-- its members in sorted order.
pub mod Runs
pub mod Selected
pub mod Steps
pub mod Search
pub mod Complete
pub mod Measure
pub mod Termination
use charm_integration_testin.Prelude.{
  ℕ, zero, suc, ◌+◌, ◌≡◌, Bool, true, false, not, ◌&&◌, ◌||◌, Option, none, some, List, [], ◌∷◌,
  ◌++◌, ◌==◌, if◌then◌else◌, length,
}
use charm_integration_testin.Prelude.Dict.{get, put}
use charm_integration_testin.Scheduler.State.{State, state_eq, sorted_states}
use charm_integration_testin.Scheduler.Graph.{
  StateTransition, Edge, StateGraph, Outcome, found, unreachable, choice_error, out_of_fuel,
  shortest_path, transition_eq,
}
use charm_integration_testin.Scheduler.Item.{
  Item, has_id, Identities, mark_as_injected, label_occurrence, duplicate_item,
}
use charm_integration_testin.Scheduler.Session.{or_empty, is_empty}
use charm_integration_testin.Scheduler.Collection.{Transitions, Clusters}

-- A plan under construction.
pub record Draft : Type 0 where
  pub plan : List Item
  pub scheduled : List ℕ
  pub injected : List ℕ

-- Schedule an item: append it to the plan and to the set.
abbrev pub schedule : Item → Draft → Draft
schedule item d = record d { plan = d.plan ++ item ∷ []; scheduled = item.ident ∷ d.scheduled }

unfoldable pub first_unscheduled : List Item → List ℕ → Option Item
first_unscheduled [] scheduled = none
first_unscheduled (i ∷ is) scheduled =
    if has_id scheduled i.ident then first_unscheduled is scheduled else some i

-- A key of the search: the state, and the destinations that remain.
abbrev pub Key : Type 0
Key = State × List State

unfoldable pub states_eq : List State → List State → Bool
states_eq [] [] = true
states_eq (a ∷ as') (b ∷ bs) = state_eq a b && states_eq as' bs
states_eq _ _ = false

unfoldable pub has_key : List Key → Key → Bool
has_key [] k = false
has_key ((s, r) ∷ ks) (t, q) = (state_eq s t && states_eq r q) || has_key ks (t, q)

-- What `random.choice` draws: by the keys that the search stands in and those that it remembers, which
-- with the target tell every two calls of the path search apart; then by the round and the number of
-- candidates.
abbrev pub Draws : Type 0
Draws = (visiting memo : List Key) (target : State) (round candidates : ℕ) → ℕ

-- `path_error` is a path search that raises, and `exhausted` an exhausted fuel; neither occurs.
pub data Verdict : Type 0 where
  planned : Draft → Verdict
  dead_end path_error exhausted : Verdict

unfoldable pub pair_with : StateTransition → List Item → List (StateTransition × Item)
pair_with t [] = []
pair_with t (i ∷ is) = (t, i) ∷ pair_with t is

-- The selected transition tests that depart from a state, in the order of the dict.
unfoldable pub departing : Transitions → State → List (StateTransition × Item)
unfolding pair_with
departing [] s = []
departing ((t, items) ∷ rest) s =
    if state_eq t.from_state s then pair_with t items ++ departing rest s else departing rest s

unfoldable pub first_departing :
    List (StateTransition × Item) → List ℕ → Option (StateTransition × Item)
first_departing [] scheduled = none
first_departing ((t, i) ∷ rest) scheduled =
    if has_id scheduled i.ident then first_departing rest scheduled else some (t, i)

abbrev pub is_some : {A : Type 0} → Option A → Bool
is_some none = false
is_some (some a) = true

-- Schedule those of the items that are not scheduled yet.
unfoldable pub schedule_new : List Item → Draft → Draft
schedule_new [] d = d
schedule_new (i ∷ is) d = schedule_new is (if has_id d.scheduled i.ident then d else schedule i d)

-- The dead end is remembered after all targets failed.
abbrev pub remember : Key → Verdict × List Key → Verdict × List Key
remember key (dead_end, memo) = (dead_end, key ∷ memo)
remember key result = result

-- After a dead end the loop goes on.
abbrev pub or_next : Verdict × List Key → (List Key → Verdict × List Key) → Verdict × List Key
or_next (dead_end, memo) next = next memo
or_next result next = result

-- What the path search finds for a target decides how the loop goes on.
abbrev pub try_target :
    (List (Edge Item) → Verdict × List Key)
    → Verdict × List Key
    → List Key
    → Outcome Item
    → Verdict × List Key
try_target follow skip memo unreachable = skip
try_target follow skip memo (found path) = follow path
try_target follow skip memo _ = (path_error, memo)

module _ (c : Clusters) (all_transitions : Transitions) where
  abbrev pub pure_at : State → List Item
  pure_at s = or_empty (get state_eq c.pure s)

  -- `any(it not in scheduled for it in _all_selected_at(s))`
  unfoldable pub has_unscheduled : List ℕ → State → Bool
  has_unscheduled scheduled s =
      is_some (first_unscheduled (pure_at s) scheduled)
      || is_some (first_departing (departing c.selected s) scheduled)

  unfoldable pub unscheduled_among : List ℕ → List State → List State
  unscheduled_among scheduled [] = []
  unscheduled_among scheduled (s ∷ rest) =
      if has_unscheduled scheduled s
      then s ∷ unscheduled_among scheduled rest
      else unscheduled_among scheduled rest

  -- A state that is no key of the clusters has no selected item, so all states may be asked.
  unfoldable pub unscheduled_destinations : List ℕ → List State
  unfolding unscheduled_among has_unscheduled first_unscheduled first_departing departing
  unscheduled_destinations scheduled = unscheduled_among scheduled sorted_states

  abbrev pub depart : State → Option (StateTransition × Item) → Draft → State × Draft
  depart s none d = (s, d)
  depart s (some (t, item)) d = (t.to_state, schedule item d)

  -- All pure tests at the state, then one transition; the state that this leaves.
  unfoldable pub run_selected_at : State → Draft → State × Draft
  unfolding schedule_new
  run_selected_at s d =
      let d' = schedule_new (pure_at s) d in
      depart s (first_departing (departing c.selected s) d'.scheduled) d'

  abbrev pub use_candidate : List Item → Draft → Draft
  use_candidate [] d = d
  use_candidate (i ∷ is) d = record d { plan = d.plan ++ i ∷ []; injected = i.ident ∷ d.injected }

  abbrev pub cross : Option Item → List Item → Draft → Draft
  cross (some item) candidates d = schedule item d
  cross none candidates d = use_candidate candidates d

  unfoldable pub inject_bridge : List (Edge Item) → Draft → Draft
  inject_bridge [] d = d
  inject_bridge ((t, graph_item) ∷ path) d = inject_bridge path (
      cross (first_unscheduled (or_empty (get transition_eq c.selected t)) d.scheduled)
        (or_empty (get transition_eq all_transitions t)) d)

  module _ (graph : StateGraph Item) (rng : Draws) where
    -- The search from one target on: what the recursive call gives, or the news to try the next.
    abbrev pub Call : Type 0
    Call = State → Draft → List Key → Verdict × List Key

    unfoldable pub try_targets :
        Call → List Key → State → Draft → List State → List Key → Verdict × List Key
    try_targets call visiting current d [] memo = (dead_end, memo)
    try_targets call visiting current d (target ∷ rest) memo =
        try_target
          (λ path.
            let arrived = run_selected_at target (inject_bridge path d) in
            or_next (call arrived.0 arrived.1 memo)
              (λ memo'. try_targets call visiting current d rest memo'))
          (try_targets call visiting current d rest memo) memo
          (shortest_path (rng visiting memo target) graph current target [])

    unfoldable pub visit :
        Call → List State → State → Draft → List Key → List Key → Verdict × List Key
    unfolding has_key
    visit call [] current d visiting memo = (planned d, memo)
    visit call (r ∷ rs) current d visiting memo =
        let key : Key = (current, r ∷ rs) in
        let searched = remember key (try_targets call visiting current d (r ∷ rs) memo) in
        if has_key memo key || has_key visiting key then (dead_end, memo) else searched

    -- `_backtrack_search`. `visiting` holds the keys of the calls that this one stands in.
    unfoldable pub backtrack_search : ℕ → List Key → Call
    unfolding visit try_targets
    backtrack_search zero visiting current d memo = (exhausted, memo)
    backtrack_search (suc fuel) visiting current d memo =
        let remaining = unscheduled_destinations d.scheduled in
        visit (backtrack_search fuel ((current, remaining) ∷ visiting)) remaining current d visiting
          memo

unfoldable pub count_id : ℕ → List Item → ℕ
count_id i [] = 0
count_id i (x ∷ xs) = if x.ident == i then suc (count_id i xs) else count_id i xs

-- The plan so far is `before`. The first run of a repeated item is relabelled in place, and each
-- later one is a copy.
unfoldable pub disambiguate_item : List Item → List Item → Item → Identities → Item × Identities
unfolding count_id label_occurrence duplicate_item
disambiguate_item whole before item ids =
    let occurrence = count_id item.ident before + 1 in
    if count_id item.ident whole == 1
    then (item, ids)
    else if occurrence == 1
    then (label_occurrence item item.name item.nodeid occurrence, ids)
    else duplicate_item item occurrence item.name item.nodeid ids

unfoldable pub disambiguate_loop :
    List Item → List Item → List Item → Identities → List Item × Identities
unfolding disambiguate_item
disambiguate_loop whole before [] ids = ([], ids)
disambiguate_loop whole before (item ∷ rest) ids =
    let first = disambiguate_item whole before item ids in
    let others = disambiguate_loop whole (before ++ item ∷ []) rest first.1 in
    (first.0 ∷ others.0, others.1)

-- `_disambiguate_repeated_items`
unfoldable pub disambiguate : List Item → Identities → List Item × Identities
unfolding disambiguate_loop
disambiguate plan ids = disambiguate_loop plan [] plan ids

-- The loop that marks the bridges of the final plan. An item is one object however often it occurs.
unfoldable pub mark_plan : Identities → List ℕ → List Item → List Item
unfolding mark_as_injected
mark_plan ids injected [] = []
mark_plan ids injected (i ∷ is) =
    (if has_id injected i.ident then (mark_as_injected i ids).0 else i) ∷ mark_plan ids injected is

unfoldable pub count_items : {K : Type 0} → List (K × List Item) → ℕ
count_items [] = 0
count_items ((k, items) ∷ rest) = length items + count_items rest

-- Every call of the search below another schedules a selected item.
abbrev pub search_fuel : Clusters → ℕ
search_fuel c = count_items c.pure + count_items c.selected + 1

abbrev pub blank_draft : Draft
blank_draft = record { plan = []; scheduled = []; injected = [] }

module _ (c : Clusters) (all_transitions : Transitions) (graph : StateGraph Item) (rng : Draws)
    (current : State) where
  -- The destinations at the starting state are handled for free.
  unfoldable pub initial_run : State × Draft
  initial_run =
      if has_unscheduled c all_transitions [] current
      then run_selected_at c all_transitions current blank_draft
      else (current, blank_draft)

  -- The draft of the plan, before it is labelled.
  unfoldable pub draft_plan : Verdict
  unfolding initial_run backtrack_search run_selected_at inject_bridge
  draft_plan =
      (backtrack_search c all_transitions graph rng (search_fuel c) [] initial_run.0 initial_run.1
        []).0

  -- `none` is the _UnreachableStateError.
  unfoldable pub build_execution_plan : Identities → Option (List Item × Identities)
  unfolding draft_plan mark_plan disambiguate
  build_execution_plan ids = elim draft_plan [
    | planned d ↦ some (disambiguate (mark_plan ids d.injected d.plan) ids)
    | _ ↦ none
  ]
