-- ===== src/Scheduler/Ordering.antt =====
-- plugin.py: `pytest_collection_modifyitems`, which puts the selected tests in the order of the plan.
use charm_integration_testin.Prelude.{
  String, Option, none, some, List, [], ◌∷◌, ◌++◌, Result, ok, raise,
}
use charm_integration_testin.Scheduler.State.{State, of_value}
use charm_integration_testin.Scheduler.Marker.{StateMarker, MarkerError}
use charm_integration_testin.Scheduler.Item.{Item, Identities}
use charm_integration_testin.Scheduler.Session.{Session}
use charm_integration_testin.Scheduler.Collection.{
  Built, no_edges, collect_edges, publish, partition, Clusters, clusters,
}
use charm_integration_testin.Scheduler.Planner.{Draws, build_execution_plan}

-- How the hook ends the run.
pub data Exit : Type 0 where
  invalid_current_state unreachable_state : Exit
  invalid_marker : MarkerError → Exit

-- `pytest_itemcollected`
unfoldable pub itemcollected : Item → Session → Session
itemcollected item s = record s { all_collected = s.all_collected ++ item ∷ [] }

abbrev pub no_clusters : Clusters
no_clusters = record { pure = []; selected = [] }

-- The session and the items that the hook leaves.
abbrev pub Ordered : Type 0
Ordered = Session × List Item

abbrev pub commit : Session → List Item → Option (List Item × Identities) → Result Exit Ordered
commit s unmarked none = raise unreachable_state
commit s unmarked (some (ordered, ids)) = ok (record s { identities = ids }, ordered ++ unmarked)

-- A selection without markers is left untouched.
abbrev pub order_selection :
    Draws
    → List Item
    → State
    → Built
    → Session
    → List (Item × StateMarker)
    → List Item
    → Result Exit Ordered
order_selection rng items current b s [] unmarked = ok (s, items)
order_selection rng items current b s (m ∷ marked) unmarked = commit s unmarked (
    build_execution_plan (clusters (m ∷ marked) no_clusters) b.transitions b.graph rng current
      s.identities)

abbrev pub order_partition :
    Draws
    → List Item
    → State
    → Built
    → Session
    → Result MarkerError (List (Item × StateMarker) × List Item)
    → Result Exit Ordered
order_partition rng items current b s (raise e) = raise (invalid_marker e)
order_partition rng items current b s (ok (marked, unmarked)) =
    order_selection rng items current b s marked unmarked

abbrev pub order_collected :
    Draws → List Item → State → Result MarkerError Built → Session → Result Exit Ordered
order_collected rng items current (raise e) s = raise (invalid_marker e)
order_collected rng items current (ok b) s =
    order_partition rng items current b (publish current b s) (partition items)

abbrev pub order_from : Draws → List Item → Option State → Session → Result Exit Ordered
order_from rng items none s = raise invalid_current_state
order_from rng items (some current) s =
    order_collected rng items current (collect_edges s.all_collected no_edges) s

-- `pytest_collection_modifyitems`, given the text of `--current-state`
unfoldable pub collection_modifyitems : Draws → String → List Item → Session → Result Exit Ordered
unfolding of_value collect_edges partition clusters publish build_execution_plan
collection_modifyitems rng raw_state items s = order_from rng items (of_value raw_state) s
