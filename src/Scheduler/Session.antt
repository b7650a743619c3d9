-- ===== src/Scheduler/Session.antt =====
-- charm_integration_testing/test_suite/scheduler/plugin.py: the module's globals, and the hooks that
-- follow the state of the environment while the tests run.
pub mod Skips
pub mod Safety
pub mod Retries
use charm_integration_testin.Prelude.{
  ℕ, ◌≡◌, Bool, true, false, not, ◌&&◌, ◌||◌, Option, none, some, List, [], ◌∷◌, ◌++◌, ◌==◌,
  if◌then◌else◌,
}
use charm_integration_testin.Prelude.Dict.{get, put}
use charm_integration_testin.Scheduler.State.{State, state_eq}
use charm_integration_testin.Scheduler.Graph.{StateTransition, StateGraph, transition_eq, contains}
use charm_integration_testin.Scheduler.Marker.{StateMarker, is_transition, contains_state}
use charm_integration_testin.Scheduler.Item.{
  Item, marker_of, nat_eq, has_id, Identities, original_id,
}

pub record Session : Type 0 where
  pub current_state : Option State
  pub failed_state_test : Option ℕ
  pub all_collected : List Item
  pub full_graph : Option (StateGraph Item)
  pub all_transitions : List (StateTransition × List Item)
  pub recovery_counter : ℕ
  pub skipped_transitions : List StateTransition
  pub skipped_item_ids : List (StateTransition × List ℕ)
  pub identities : Identities

-- Every transition that the plugin makes has the default cost.
abbrev pub edge : State → State → StateTransition
edge a b = record { from_state = a; to_state = b; cost = 1 }

abbrev pub or_empty : {A : Type 0} → Option (List A) → List A
or_empty none = []
or_empty (some xs) = xs

-- The tests of an edge are told apart by their identities. The code relabels and marks some of these
-- objects in place; in this dict they keep the name and the flag that they were collected with.
unfoldable pub candidates_of : Session → StateTransition → List Item
candidates_of s t = or_empty (get transition_eq s.all_transitions t)

unfoldable pub skipped_ids_of : Session → StateTransition → List ℕ
skipped_ids_of s t = or_empty (get transition_eq s.skipped_item_ids t)

-- `skipped_ids.issuperset(id(c) for c in candidates)`
unfoldable pub all_skipped : List ℕ → List Item → Bool
all_skipped ids [] = true
all_skipped ids (c ∷ cs) = has_id ids c.ident && all_skipped ids cs

abbrev pub is_empty : {A : Type 0} → List A → Bool
is_empty [] = true
is_empty (x ∷ xs) = false

unfoldable pub record_skipped_transition_candidate : StateTransition → Item → Session → Session
record_skipped_transition_candidate t item s =
    let skipped_ids = original_id s.identities item.ident ∷ skipped_ids_of s t in
    let candidates = candidates_of s t in
    record s {
      skipped_item_ids = put transition_eq s.skipped_item_ids t skipped_ids;
      skipped_transitions =
          if not (is_empty candidates) && all_skipped skipped_ids candidates
          then t ∷ s.skipped_transitions
          else s.skipped_transitions;
    }

-- The phase of a report, and its outcome. `xfailed` is a skip with `wasxfail`.
pub data Phase : Type 0 where
  setup call teardown : Phase

pub data ReportOutcome : Type 0 where
  passed failed skipped xfailed : ReportOutcome

-- The loop over `marker.requires` on a skip: `_current_state` does not change in it.
unfoldable pub record_skip : State → State → Item → List State → Session → Session
unfolding record_skipped_transition_candidate
record_skip current provides item [] s = s
record_skip current provides item (req ∷ rest) s = record_skip current provides item rest (
    if state_eq req current
    then record_skipped_transition_candidate (edge req provides) item s
    else s)

unfoldable pub report_marked :
    State → StateMarker → Item → Phase → ReportOutcome → Session → Session
unfolding record_skip
report_marked current marker item phase failed s = record s {
  current_state = none;
  failed_state_test = some item.ident;
}
report_marked current marker item phase xfailed s = record s {
  current_state = none;
  failed_state_test = some item.ident;
}
report_marked current marker item call passed s = record s { current_state = some marker.provides }
report_marked current marker item phase passed s = s
report_marked current marker item phase skipped s =
    if is_transition marker then record_skip current marker.provides item marker.requires s else s

unfoldable pub report_item :
    Option State → Option StateMarker → Item → Phase → ReportOutcome → Session → Session
unfolding report_marked
report_item none marker item phase outcome s = s
report_item (some current) none item phase outcome s = s
report_item (some current) (some marker) item phase outcome s =
    report_marked current marker item phase outcome s

-- `pytest_runtest_makereport`
unfoldable pub makereport : Item → Phase → ReportOutcome → Session → Session
unfolding report_item
makereport item phase outcome s = report_item s.current_state (marker_of item) item phase outcome s

pub data SetupDecision : Type 0 where
  run skip_unknown skip_unreachable skip_retry : SetupDecision

abbrev pub is_item : Option ℕ → Item → Bool
is_item none item = false
is_item (some i) item = i == item.ident

unfoldable pub setup_marked : Option State → Item → StateMarker → Session → SetupDecision
setup_marked none item marker s = skip_unknown
setup_marked (some current) item marker s =
    if not (contains_state marker.requires current)
    then skip_unreachable
    else if is_transition marker
        && has_id (skipped_ids_of s (edge current marker.provides))
            (original_id s.identities item.ident)
    then skip_retry
    else run

unfoldable pub setup_item : Option StateMarker → Item → Session → SetupDecision
unfolding setup_marked
setup_item none item s = run
setup_item (some marker) item s = setup_marked s.current_state item marker s

-- `pytest_runtest_setup`
unfoldable pub runtest_setup : Item → Session → SetupDecision
unfolding setup_item
runtest_setup item s =
    if is_item s.failed_state_test item then run else setup_item (marker_of item) item s

-- `pytest_sessionfinish`
abbrev pub sessionfinish : Session → Session
sessionfinish s = record {
  current_state = none;
  failed_state_test = none;
  all_collected = [];
  full_graph = none;
  all_transitions = [];
  recovery_counter = 0;
  skipped_transitions = [];
  skipped_item_ids = [];
  identities = record s.identities { duplicate_original_ids = []; injected_item_ids = [] };
}
