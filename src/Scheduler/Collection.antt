-- ===== src/Scheduler/Collection.antt =====
-- plugin.py: `pytest_collection_modifyitems` up to the plan. The state graph of all collected items,
-- the session that the hooks start from, and the selected items as destinations.
pub mod Graph
use charm_integration_testin.Prelude.{
  Bool, true, false, Option, none, some, List, [], ◌∷◌, ◌++◌, if◌then◌else◌, Result, ok, raise,
  ◌>>=◌, ℕ, String, ◌≡◌,
}
use charm_integration_testin.Prelude.Dict.{get, put}
use charm_integration_testin.Scheduler.State.{State, state_eq, of_value}
use charm_integration_testin.Scheduler.Graph.{
  StateTransition, StateGraph, empty_graph, transition_eq, register_transition,
}
use charm_integration_testin.Scheduler.Marker.{
  StateMarker, MarkerError, is_transition, read_state_marker,
}
use charm_integration_testin.Scheduler.Item.{Item}
use charm_integration_testin.Scheduler.Session.{Session, edge, or_empty}

-- `d[k].append(v)` of a defaultdict of lists.
unfoldable pub append_to :
    {K V : Type 0} → (K → K → Bool) → List (K × List V) → K → V → List (K × List V)
append_to eq d k v = put eq d k (or_empty (get eq d k) ++ v ∷ [])

abbrev pub Transitions : Type 0
Transitions = List (StateTransition × List Item)

-- The graph and the items of each edge, as the loop over `_all_collected` builds them.
pub record Built : Type 0 where
  pub graph : StateGraph Item
  pub transitions : Transitions

abbrev pub no_edges : Built
no_edges = record { graph = empty_graph; transitions = [] }

unfoldable pub add_edges : Item → State → List State → Built → Built
unfolding append_to
add_edges item provides [] b = b
add_edges item provides (req ∷ rest) b = add_edges item provides rest (record {
  graph = register_transition b.graph (edge req provides) item;
  transitions = append_to transition_eq b.transitions (edge req provides) item;
})

unfoldable pub add_item : Item → Option StateMarker → Built → Built
unfolding add_edges
add_item item none b = b
add_item item (some m) b = if is_transition m then add_edges item m.provides m.requires b else b

-- A marker that cannot be read ends the collection.
unfoldable pub collect_edges : List Item → Built → Result MarkerError Built
unfolding add_item
collect_edges [] b = ok b
collect_edges (item ∷ rest) b = do
  m ← read_state_marker item.marker
  collect_edges rest (add_item item m b)

-- The globals that the hook publishes before it looks at the selection.
unfoldable pub publish : State → Built → Session → Session
publish current b s = record s {
  full_graph = some b.graph;
  all_transitions = b.transitions;
  current_state = some current;
  failed_state_test = none;
  recovery_counter = 0;
  skipped_transitions = [];
  skipped_item_ids = [];
}

-- The selected items with a marker, and those without.
unfoldable pub partition : List Item → Result MarkerError (List (Item × StateMarker) × List Item)
partition [] = ok ([], [])
partition (item ∷ rest) = do
  m ← read_state_marker item.marker
  parts ← partition rest
  ok (elim m [ none ↦ (parts.0, item ∷ parts.1) | some m ↦ ((item, m) ∷ parts.0, parts.1) ])

-- What the user selected: the pure tests of a state, and the tests of an edge.
pub record Clusters : Type 0 where
  pub pure : List (State × List Item)
  pub selected : Transitions

unfoldable pub add_pure : Item → List State → List (State × List Item) → List (State × List Item)
unfolding append_to
add_pure item [] d = d
add_pure item (req ∷ rest) d = add_pure item rest (append_to state_eq d req item)

unfoldable pub add_selected : Item → State → List State → Transitions → Transitions
unfolding append_to
add_selected item provides [] d = d
add_selected item provides (req ∷ rest) d =
    add_selected item provides rest (append_to transition_eq d (edge req provides) item)

unfoldable pub add_destination : Item → StateMarker → Clusters → Clusters
unfolding add_pure add_selected
add_destination item m c =
    if m.bridge_only
    then c
    else if is_transition m
    then record c { selected = add_selected item m.provides m.requires c.selected }
    else record c { pure = add_pure item m.requires c.pure }

unfoldable pub clusters : List (Item × StateMarker) → Clusters → Clusters
unfolding add_destination
clusters [] c = c
clusters ((item, m) ∷ rest) c = clusters rest (add_destination item m c)
