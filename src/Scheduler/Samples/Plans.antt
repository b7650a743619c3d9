-- ===== src/Scheduler/Samples/Plans.antt =====
-- Plans for small selections: tests of the planner, and its theorem at a concrete input.
use charm_integration_testin.Prelude.{
  ◌≢◌, ℕ, ◌-◌, ◌≡◌, refl, inl, inr, ap, subst, false, none, some, List, [], ◌∷◌, In,
}
use charm_integration_testin.Scheduler.State.{State, no_model, empty_model, deployed}
use charm_integration_testin.Scheduler.Marker.{text, single, StateMarker, is_transition}
use charm_integration_testin.Scheduler.Item.{Item, marker_of}
use charm_integration_testin.Scheduler.Session.{edge}
use charm_integration_testin.Scheduler.Collection.{Clusters, clusters}
use charm_integration_testin.Scheduler.Ordering.{no_clusters}
use charm_integration_testin.Scheduler.Planner.Selected.{clusters-IsKept}
use charm_integration_testin.Prelude.Dict.{get, put}
use charm_integration_testin.Scheduler.Planner.{
  exhausted, Draft, Draws, planned, dead_end, draft_plan, has_unscheduled, run_selected_at,
  count_items, unscheduled_destinations, states_eq,
}
use charm_integration_testin.Scheduler.Planner.Runs.{Runs, IsKept}
use charm_integration_testin.Scheduler.Planner.Termination.{draft_plan-ends}
use charm_integration_testin.Scheduler.Planner.Complete.{IsSelected, draft_plan_complete}
use charm_integration_testin.Scheduler.Samples.{
  moves, item, create, deploy, remove, suite, built, collected, hook_program,
}

-- The last candidate where the search stands in a call, and the first one elsewhere.
abbrev draw : Draws
draw [] memo s k n = 0
draw (key ∷ visiting) memo s k n = n - 1

abbrev check : Item
check =
    item 4
      (record { requires = some (single (text "deployed")); provides = none; bridge_only = false })

-- The user selects one pure test, and the planner bridges the way to its state.
abbrev one_pure : Clusters
one_pure = record { pure = (deployed, check ∷ []) ∷ []; selected = [] }

abbrev bridged : Draft
bridged = record { plan = create ∷ deploy ∷ check ∷ []; scheduled = 4 ∷ []; injected = 2 ∷ 1 ∷ [] }

plan_program : Unit {0}
unfolding hook_program draft_plan has_unscheduled run_selected_at count_items
    unscheduled_destinations states_eq
plan_program = tt

bridges : draft_plan one_pure built.transitions built.graph draw no_model ≡ planned bridged
unfolding plan_program
bridges = refl

abbrev at_deployed : StateMarker
at_deployed = record { requires = deployed ∷ []; provides = deployed; bridge_only = false }

abbrev marked : List (Item × StateMarker)
marked = (check, at_deployed) ∷ []

filed : clusters marked no_clusters ≡ one_pure
unfolding hook_program clusters get put
filed = refl

check-IsKept : IsKept one_pure built.transitions
unfolding hook_program marker_of
check-IsKept =
    subst (λ c. IsKept c built.transitions) filed
      (clusters-IsKept marked built.transitions read single_state)
  where
    read : (i : Item) (m : StateMarker) → In (i, m) marked → marker_of i ≡ some m
    read i m (inl e) =
        rw (ap (λ (y : Item × StateMarker). y.0) e, ap (λ (y : Item × StateMarker). y.1) e) refl
    read i m (inr none_left) = absurd none_left

    single_state :
        (i : Item) (m : StateMarker)
        → In (i, m) marked
        → is_transition m ≡ false
        → m.requires ≡ m.provides ∷ []
    single_state i m (inl e) pure = rw (ap (λ (y : Item × StateMarker). y.1) e) refl
    single_state i m (inr none_left) pure = absurd none_left

draft_plan_complete_example :
    ((final : State) × Runs one_pure built.transitions no_model bridged.plan final)
    × ((x : Item)
        → IsSelected one_pure built.transitions x
        → (y : Item) × In y bridged.plan × (y.ident ≡ x.ident))
draft_plan_complete_example =
    draft_plan_complete one_pure built.transitions draw suite built no_model bridged check-IsKept
      collected refl bridges

-- Tests for the edge from the empty model to the deployed charms.
abbrev deploy_again : ℕ → Item
deploy_again i = item i (moves empty_model deployed)

abbrev on_one_edge : List Item → Clusters
on_one_edge items = record { pure = []; selected = (edge empty_model deployed, items) ∷ [] }

abbrev two_tests : Clusters
two_tests = on_one_edge (deploy ∷ deploy_again 5 ∷ [])

-- Two tests of one edge are planned, with the way back between them.
there_and_back :
    draft_plan two_tests built.transitions built.graph draw no_model
    ≡ planned (record {
      plan = create ∷ deploy ∷ remove ∷ deploy_again 5 ∷ [];
      scheduled = 5 ∷ 2 ∷ [];
      injected = 3 ∷ 1 ∷ [];
    })
unfolding plan_program
there_and_back = refl

-- With three, the key of the second way back is that of the first one.
three_tests :
    draft_plan
      (on_one_edge (deploy ∷ deploy_again 5 ∷ deploy_again 6 ∷ []))
      built.transitions
      built.graph
      draw
      no_model
    ≡ dead_end
unfolding plan_program
three_tests = refl

draft_plan-ends_example :
    draft_plan two_tests built.transitions built.graph draw no_model ≢ exhausted
draft_plan-ends_example = draft_plan-ends two_tests built.transitions built.graph draw no_model
