-- ===== src/Scheduler/Recovery.antt =====
-- plugin.py: the search for a bridge when a skip left the environment short of the next test, and
-- the hook `pytest_runtest_protocol` that injects it. What pytest does is the record `Pytest`.
pub mod Cheapest
pub mod Bridge
pub mod Always
use charm_integration_testin.Prelude.{
  ℕ, ◌+◌, ◌≡◌, Bool, true, false, not, ◌&&◌, ◌||◌, Option, none, some, List, [], ◌∷◌, ◌++◌, ltb,
  leb, ◌==◌, if◌then◌else◌, length, codes,
}
use charm_integration_testin.Scheduler.State.{State}
use charm_integration_testin.Scheduler.Graph.{
  StateTransition, Edge, StateGraph, Outcome, found, unreachable, choice_error, out_of_fuel,
  shortest_path,
}
use charm_integration_testin.Scheduler.Graph.Walk.{path_cost}
use charm_integration_testin.Scheduler.Marker.{StateMarker, is_transition, contains_state}
use charm_integration_testin.Scheduler.Item.{
  Item, marker_of, has_id, Identities, original_id, duplicate_item, mark_as_injected,
}
use charm_integration_testin.Scheduler.Session.{Session, edge, candidates_of, skipped_ids_of}

abbrev pub best_outcome : {A : Type 0} → Option (List (Edge A)) → Outcome A
best_outcome none = unreachable
best_outcome (some p) = found p

-- `best` after a path of this cost was found.
abbrev pub better : {A : Type 0} → Option (List (Edge A)) → List (Edge A) → Option (List (Edge A))
better none p = some p
better (some best) p = if ltb (path_cost p) (path_cost best) then some p else some best

-- The draws of `random.choice` may differ for each target.
module _ {A : Type 0} (rng : State → ℕ → ℕ → ℕ) (g : StateGraph A) (from_state : State)
    (avoid : List StateTransition) where
  unfoldable pub any_loop : List State → Option (List (Edge A)) → Outcome A
  any_loop [] best = best_outcome best
  any_loop (target ∷ rest) best = elim (shortest_path (rng target) g from_state target avoid) [
    | found p ↦ any_loop rest (better best p)
    | unreachable ↦ any_loop rest best
    | choice_error ↦ choice_error
    | out_of_fuel ↦ out_of_fuel
  ]

  unfoldable pub shortest_path_to_any : List State → Outcome A
  unfolding any_loop
  shortest_path_to_any to_states = any_loop to_states none

-- `next((c for c in candidates if id(c) not in already_skipped), candidates[0])`
unfoldable pub first_untried : List ℕ → Item → List Item → Item
first_untried skipped default [] = default
first_untried skipped default (c ∷ cs) =
    if has_id skipped c.ident then first_untried skipped default cs else c

unfoldable pub recovered : Item → Session → Item × Identities
unfolding duplicate_item
recovered template s =
    duplicate_item template (s.recovery_counter + 1) (template.name ++ codes "(recovered)")
      (template.nodeid ++ codes "(recovered)") s.identities

unfoldable pub bridge_item : List ℕ → Item → List Item → Session → Item × Session
unfolding first_untried recovered mark_as_injected
bridge_item skipped default cs s =
    let copy = recovered (first_untried skipped default (default ∷ cs)) s in
    let marked = mark_as_injected copy.0 copy.1 in
    (marked.0, record s { recovery_counter = s.recovery_counter + 1; identities = marked.1 })

-- The loop over the edges of the path. The counter and the identities keep what was done to them
-- also where an edge without a candidate makes the result None.
unfoldable pub bridge_loop : List (Edge Item) → List Item → Session → Option (List Item) × Session
unfolding bridge_item
bridge_loop [] built s = (some built, s)
bridge_loop ((t, graph_item) ∷ path) built s = elim (candidates_of s t) [
  | [] ↦ (none, s)
  | c ∷ cs ↦
      let (item, s') = bridge_item (skipped_ids_of s t) c cs s in
      bridge_loop path (built ++ item ∷ []) s'
]

-- The other outcomes of the path search are `None`.
unfoldable pub find_recovery_bridge :
    (State → ℕ → ℕ → ℕ)
    → StateGraph Item
    → State
    → List State
    → Session
    → Option (List Item) × Session
unfolding bridge_loop shortest_path_to_any
find_recovery_bridge rng g from_state to_states s =
    elim (shortest_path_to_any rng g from_state s.skipped_transitions to_states) [
      | found path ↦ bridge_loop path [] s
      | _ ↦ (none, s)
    ]

-- The parts of pytest's session that the hook reads and writes. `items` are the items' identities.
pub record Pytest : Type 0 where
  pub items : List Item
  pub testscollected : ℕ
  pub testsfailed : ℕ
  pub maxfail : ℕ
  pub shouldfail : Bool

-- What `teardown_exact` does when it is called again: it returns, it raises what is recoverable, or
-- it raises (also inside a group) an abort that must propagate.
pub data Teardown : Type 0 where
  clean recoverable abort : Teardown

-- How the hook ends: it returns, or it lets an abort through.
pub data HookEnd : Type 0 where
  returned aborted : HookEnd

unfoldable pub handle_reconciliation_failure : Item → Pytest → Session → Pytest × Session
handle_reconciliation_failure item p s =
    let count = p.testsfailed + 1 in
    (
      record p {
        testsfailed = count;
        shouldfail = (not (p.maxfail == 0) && leb p.maxfail count) || p.shouldfail;
      },
      record s { current_state = none; failed_state_test = some item.ident },
    )

-- `session_items[insert_at:insert_at] = bridge_items`, behind the first occurrence of the item.
unfoldable pub insert_after : ℕ → List Item → List Item → List Item
insert_after i bridge [] = []
insert_after i bridge (x ∷ xs) =
    if x.ident == i then x ∷ (bridge ++ xs) else x ∷ insert_after i bridge xs

-- The states from which a test is still viable: those for which it did not skip as a candidate.
unfoldable pub viable_requires : Session → ℕ → State → List State → List State
viable_requires s original provides [] = []
viable_requires s original provides (r ∷ rs) =
    if has_id (skipped_ids_of s (edge r provides)) original
    then viable_requires s original provides rs
    else r ∷ viable_requires s original provides rs

unfoldable pub candidate_requires : Item → StateMarker → Session → List State
unfolding viable_requires
candidate_requires nextitem marker s =
    if is_transition marker
    then viable_requires s (original_id s.identities nextitem.ident) marker.provides marker.requires
    else marker.requires

abbrev pub is_nil : List State → Bool
is_nil [] = true
is_nil (x ∷ xs) = false

-- What follows the search for a bridge.
unfoldable pub inject :
    Teardown → Item → Option (List Item) × Session → Pytest → HookEnd × Pytest × Session
unfolding handle_reconciliation_failure insert_after
inject teardown item (none, s) p = (returned, p, s)
inject teardown item (some bridge, s) p =
    let p' = record p {
      items = insert_after item.ident bridge p.items;
      testscollected = p.testscollected + length bridge;
    } in
    elim teardown [
      | clean ↦ (returned, p', s)
      | recoverable ↦ let (q, s') = handle_reconciliation_failure item p' s in (returned, q, s')
      | abort ↦ (aborted, p', s)
    ]

unfoldable pub recover :
    (State → ℕ → ℕ → ℕ)
    → Teardown
    → Item
    → Item
    → Option State
    → Option (StateGraph Item)
    → Option StateMarker
    → Pytest
    → Session
    → HookEnd × Pytest × Session
unfolding candidate_requires inject find_recovery_bridge
recover rng teardown item nextitem (some current) (some graph) (some marker) p s =
    let viable = candidate_requires nextitem marker s in
    if contains_state viable current || is_nil viable
    then (returned, p, s)
    else inject teardown item (find_recovery_bridge rng graph current viable s) p
recover rng teardown item nextitem _ _ _ p s = (returned, p, s)

-- `pytest_runtest_protocol`, what stands behind its `yield`.
unfoldable pub runtest_protocol :
    (State → ℕ → ℕ → ℕ)
    → Teardown
    → Item
    → Option Item
    → Pytest
    → Session
    → HookEnd × Pytest × Session
unfolding recover
runtest_protocol rng teardown item none p s = (returned, p, s)
runtest_protocol rng teardown item (some nextitem) p s =
    recover rng teardown item nextitem s.current_state s.full_graph (marker_of nextitem) p s
