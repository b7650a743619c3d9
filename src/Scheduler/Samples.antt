-- ===== src/Scheduler/Samples.antt =====
-- A small suite and runs of it: tests of the definitions, and the theorems at concrete inputs.
mod Plans
use charm_integration_testin.Prelude.{
  ℕ, ◌≡◌, ◌≢◌, ◌↔◌, refl, inl, inr, Bool, true, false, Option, none, some, List, [], ◌∷◌, arith, In,
  codes, Result, ok, raise, str_eq, ◌+◌,
}
use charm_integration_testin.Prelude.Dict.{get, put}
use charm_integration_testin.Scheduler.State.{
  State, no_bundle, no_model, empty_model, deployed, neighbor_only, value, of_value, state_eq,
  of_value-value,
}
use charm_integration_testin.Scheduler.Graph.{
  StateTransition, StateGraph, empty_graph, register_transition, shortest_path, found, unreachable,
  known_states, edges_from, get_edges, total_edges, append_edge, transition_eq, contains,
}
use charm_integration_testin.Scheduler.Graph.Walk.{
  IsKeyed, HasPositiveCosts, IsKeyed-register, IsKeyed-empty, HasPositiveCosts-register,
  HasPositiveCosts-empty,
}
use charm_integration_testin.Scheduler.Graph.Optimal.{IsAnswer, shortest_path-IsAnswer}
use charm_integration_testin.Scheduler.Marker.{
  RawMarker, StateMarker, text, single, several, index_error, read_state_marker, is_transition,
  contains_state,
}
use charm_integration_testin.Scheduler.Marker.Reading.{write_marker, read-write, default_provides}
use charm_integration_testin.Scheduler.Item.{Item, marker_of, original_id, has_id}
use charm_integration_testin.Scheduler.Session.{
  Session, edge, makereport, setup, call, teardown, passed, failed, skipped, run, runtest_setup,
  skipped_ids_of, candidates_of, all_skipped,
}
use charm_integration_testin.Scheduler.Session.Skips.{IsTracked, makereport-IsTracked}
use charm_integration_testin.Scheduler.Session.Safety.{
  Effect, passes, skips, History, start, report, Tracks, run_finds_required_state,
}
use charm_integration_testin.Scheduler.Session.Retries.{skipped_not_retried}
use charm_integration_testin.Scheduler.Collection.{Built, no_edges, collect_edges, publish}
use charm_integration_testin.Scheduler.Collection.Graph.{
  Declares, collected_edges_iff, publish-IsTracked,
}
use charm_integration_testin.Scheduler.Recovery.{shortest_path_to_any, find_recovery_bridge}
use charm_integration_testin.Scheduler.Recovery.Cheapest.{
  IsAnyAnswer, shortest_path_to_any-IsAnyAnswer,
}
use charm_integration_testin.Scheduler.Recovery.Bridge.{IsBridge}
use charm_integration_testin.Scheduler.Recovery.Always.{recovery_after-History}

abbrev first_draw : ℕ → ℕ → ℕ
first_draw k n = 0

abbrev pub moves : State → State → RawMarker
moves a b = record {
  requires = some (single (text (value a)));
  provides = some (text (value b));
  bridge_only = false;
}

abbrev pub item : ℕ → RawMarker → Item
item i m = record {
  ident = i;
  name = codes "test";
  nodeid = codes "m.py::test";
  marker = some m;
  injected = false;
}

abbrev pub create : Item
create = item 1 (moves no_model empty_model)

abbrev pub deploy : Item
deploy = item 2 (moves empty_model deployed)

abbrev pub remove : Item
remove = item 3 (moves deployed empty_model)

abbrev pub suite : List Item
suite = create ∷ deploy ∷ remove ∷ []

abbrev ring : StateGraph Item
ring =
    register_transition (register_transition empty_graph (edge no_model empty_model) create)
      (edge empty_model deployed) deploy

ring-IsKeyed : IsKeyed ring
ring-IsKeyed = IsKeyed-register _ _ _ (IsKeyed-register _ _ _ IsKeyed-empty)

ring-HasPositiveCosts : HasPositiveCosts ring
ring-HasPositiveCosts =
    HasPositiveCosts-register _ _ _ (omega arith)
      (HasPositiveCosts-register _ _ _ (omega arith) HasPositiveCosts-empty)

-- What a run of the path search computes with.
graph_program : Unit {0}
unfolding shortest_path register_transition state_eq total_edges append_edge transition_eq
graph_program = tt

two_steps :
    shortest_path first_draw ring no_model deployed []
    ≡ found ((edge no_model empty_model, create) ∷ (edge empty_model deployed, deploy) ∷ [])
unfolding graph_program
two_steps = refl

no_way_back : shortest_path first_draw ring deployed no_model [] ≡ unreachable
unfolding graph_program
no_way_back = refl

given_up :
    shortest_path first_draw ring no_model deployed (edge empty_model deployed ∷ []) ≡ unreachable
unfolding graph_program
given_up = refl

-- A list of no required states, with no `provides`, raises an IndexError and no ValueError.
empty_requires :
    read_state_marker
      (some (record { requires = some (several []); provides = none; bridge_only = false }))
    ≡ raise index_error
unfolding read_state_marker
empty_requires = refl

shortest_path-IsAnswer_example :
    IsAnswer ring no_model deployed [] (shortest_path first_draw ring no_model deployed [])
shortest_path-IsAnswer_example =
    shortest_path-IsAnswer first_draw ring no_model deployed [] ring-IsKeyed ring-HasPositiveCosts

shortest_path_to_any-IsAnyAnswer_example :
    IsAnyAnswer ring no_model []
      (neighbor_only ∷ deployed ∷ [])
      (shortest_path_to_any (λ s. first_draw) ring no_model [] (neighbor_only ∷ deployed ∷ []))
shortest_path_to_any-IsAnyAnswer_example =
    shortest_path_to_any-IsAnyAnswer ring no_model [] (λ s. first_draw) ring-IsKeyed
      ring-HasPositiveCosts (neighbor_only ∷ deployed ∷ [])

abbrev marker : State → State → StateMarker
marker a b = record { requires = a ∷ []; provides = b; bridge_only = false }

read-write_example :
    read_state_marker (some (write_marker (marker empty_model deployed)))
    ≡ ok (some (marker empty_model deployed))
read-write_example = read-write (marker empty_model deployed)

abbrev pure_marker : RawMarker
pure_marker = record {
  requires = some (single (text "deployed"));
  provides = none;
  bridge_only = false;
}

pure_read : read_state_marker (some pure_marker) ≡ ok (some (marker deployed deployed))
unfolding read_state_marker of_value value
pure_read = refl

default_provides_example :
    ((marker deployed deployed).requires ≡ deployed ∷ [])
    × (is_transition (marker deployed deployed) ≡ false)
default_provides_example = default_provides pure_marker (marker deployed deployed) refl pure_read

marked : (a b : State) → read_state_marker (some (moves a b)) ≡ ok (some (marker a b))
unfolding read_state_marker
marked a b = rw (of_value-value a, of_value-value b)

abbrev blank : Session
blank = record {
  current_state = none;
  failed_state_test = none;
  all_collected = [];
  full_graph = none;
  all_transitions = [];
  recovery_counter = 0;
  skipped_transitions = [];
  skipped_item_ids = [];
  identities = record { next_id = 10; duplicate_original_ids = []; injected_item_ids = [] };
}

abbrev pub built : Built
built = record {
  graph =
      register_transition
        (register_transition (register_transition empty_graph (edge no_model empty_model) create)
          (edge empty_model deployed) deploy)
        (edge deployed empty_model) remove;
  transitions =
      (edge no_model empty_model, create ∷ [])
      ∷ (edge empty_model deployed, deploy ∷ [])
      ∷ (edge deployed empty_model, remove ∷ [])
      ∷ [];
}

-- What reading and collecting markers, and the hooks, compute with.
pub hook_program : Unit {0}
unfolding graph_program collect_edges read_state_marker of_value value is_transition contains_state
    get put publish makereport runtest_setup marker_of original_id has_id skipped_ids_of
    candidates_of all_skipped
hook_program = tt

pub collected : collect_edges suite no_edges ≡ ok built
unfolding hook_program
collected = refl

collected_edges_iff_example :
    In (edge empty_model deployed, deploy) (edges_from built.graph empty_model)
    ↔ (In deploy suite × Declares deploy empty_model (edge empty_model deployed))
collected_edges_iff_example =
    collected_edges_iff suite built empty_model (edge empty_model deployed, deploy) collected

abbrev at_no_model : Session
at_no_model = publish no_model built blank

recovery_after-History_example :
    IsBridge built.graph no_model
      (deployed ∷ [])
      at_no_model
      (find_recovery_bridge (λ s. first_draw) built.graph no_model (deployed ∷ []) at_no_model).0
recovery_after-History_example =
    recovery_after-History (λ s. first_draw) suite built no_model blank at_no_model no_model
      no_model no_model (deployed ∷ []) collected start

makereport-IsTracked_example : IsTracked (makereport create setup skipped at_no_model)
makereport-IsTracked_example =
    makereport-IsTracked create setup skipped at_no_model (publish-IsTracked no_model built blank)

abbrev created : Session
created = makereport create call passed at_no_model

marker-create : marker_of create ≡ some (marker no_model empty_model)
unfolding hook_program
marker-create = refl

marker-deploy : marker_of deploy ≡ some (marker empty_model deployed)
unfolding hook_program
marker-deploy = refl

deploy_runs : runtest_setup deploy created ≡ run
unfolding hook_program
deploy_runs = refl

none_failed : created.failed_state_test ≢ some deploy.ident
unfolding hook_program
none_failed h = cc

starts_right : Tracks at_no_model no_model
unfolding publish
starts_right c h = cc

created-History : History at_no_model no_model created empty_model
created-History = report create call passed start (passes marker-create refl) refl

run_finds_required_state_example : In empty_model (marker empty_model deployed).requires
run_finds_required_state_example =
    run_finds_required_state at_no_model created no_model empty_model deploy
      (marker empty_model deployed) starts_right created-History marker-deploy none_failed
      deploy_runs

abbrev at_empty : Session
at_empty = publish empty_model built blank

abbrev deploy_skipped : Session
deploy_skipped = makereport deploy setup skipped at_empty

still_empty : deploy_skipped.current_state ≡ some empty_model
unfolding hook_program
still_empty = refl

skipped_facts :
    (at_empty.current_state ≡ some empty_model)
    × (is_transition (marker empty_model deployed) ≡ true)
    × (contains_state (empty_model ∷ []) empty_model ≡ true)
    × (deploy_skipped.failed_state_test ≢ some deploy.ident)
    × (original_id deploy_skipped.identities 2 ≡ original_id at_empty.identities 2)
unfolding hook_program
skipped_facts = (refl, refl, refl, λ h. cc, refl)

skipped_not_retried_example : runtest_setup deploy deploy_skipped ≢ run
skipped_not_retried_example =
    skipped_not_retried at_empty deploy_skipped empty_model empty_model empty_model deploy deploy
      setup (marker empty_model deployed) skipped_facts.0 marker-deploy skipped_facts.1
      skipped_facts.2 start marker-deploy skipped_facts.4 still_empty skipped_facts.3

-- The only test for the edge skipped, so the edge is given up.
deploy_given_up : deploy_skipped.skipped_transitions ≡ edge empty_model deployed ∷ []
unfolding hook_program
deploy_given_up = refl
