-- ===== src/Lib.antt =====
-- charm-integration-testing: the scheduler of its test suite, the tracking and the teardown of
-- resources, limits of resources, the retry of calls, and the language in which a charm's override states its constraints.
-- Paths are those of the repository, below charm_integration_testing/ where no other root is named.
--
-- The scheduler is a plugin of pytest (test_suite/scheduler/). Each test may carry a marker with the
-- states of the environment that it requires and the state that it provides. When the tests are
-- collected, the plugin builds a graph of the states, in which each test that changes the state is an
-- edge, and orders the selected tests so that each finds the state it requires; where there is none,
-- it inserts tests of the suite as bridges. While the tests run, hooks follow the state, and after a
-- failure or a skip a cheapest bridge is put before the next test.
--   Scheduler/State.antt       states.py
--   Scheduler/Graph.antt       graph.py: StateGraph and its shortest_path
--   Scheduler/Marker.antt      markers.py: read_state_marker
--   Scheduler/Item.antt        plugin.py: items, their marks and copies
--   Scheduler/Session.antt     plugin.py: the module's globals as a record, and the hooks that read and
--                              write them (makereport, runtest_setup, sessionfinish)
--   Scheduler/Recovery.antt    plugin.py: pytest_runtest_protocol and the search for a bridge
--   Scheduler/Collection.antt  plugin.py: the graph and the destinations, as
--                              pytest_collection_modifyitems builds them
--   Scheduler/Planner.antt     plugin.py: _build_execution_plan
--   Scheduler/Ordering.antt    plugin.py: pytest_collection_modifyitems as a whole
-- resource_tracking/ notes which Kubernetes resources are there in each state, and compares later
-- visits of a state with the first one.
--   Tracking/Snapshot.antt     snapshot.py
--   Tracking/Discrepancy.antt  discrepancy.py: diff_snapshots and the entries of the report
--   Tracking/Visits.antt       tracker.py, and calculate_discrepancies
-- resource_registry/ holds the tree of live resources and tears it down.
--   Registry.antt              registry.py: ResourceRegistry, register and deregister
--   Registry/Teardown.antt     registry.py: collect_logs, teardown and teardown_all
-- kubernetes_client/ limits a resource of a container for the time of a block, restores it, and
-- waits for rollouts.
--   Kubernetes/Limit.antt       resource_limit.py: the quantities that are set and put back
--   Kubernetes/Limit/Flow.antt  resource_limit.py, cpu_limit.py and memory_limit.py: the contexts
--   Kubernetes/Rollout.antt     client.py: wait_for_statefulset_restart
-- utils/
--   Utils.antt                 retry_decorator.py
-- bundle_builder_x/bundle_builder_x/constraints_dsl.py reads a constraint of a charm: text to tokens,
-- tokens to a tree, and the tree through a checker of types.
--   BundleBuilder/Dsl/Syntax.antt   the nodes of the tree and their types
--   BundleBuilder/Dsl/Token.antt    _TOKEN_RE and _tokenize
--   BundleBuilder/Dsl/Parser.antt   _Parser, one function for each of its methods
--   BundleBuilder/Dsl/Types.antt    _check_types and parse_constraint
--   BundleBuilder/Dsl/Types/Rules.antt      the typing rules as propositions
--   BundleBuilder/Dsl/Parser/Printed.antt   the tokens of a tree
-- bundle_builder_x/bundle_builder_x/domain.py holds the charms and integrations that the solver of the
-- bundle builder chooses from; what it may choose is a Bool of the solver, which is modelled by its name.
--   BundleBuilder/Domain.antt           the dataclasses
--   BundleBuilder/Domain/Pairing.antt   pair_charms_in_domain
--   BundleBuilder/Domain/Refresh.antt   _refresh_application_integration_mappings
-- bundle_builder_x/bundle_builder_x/overrides.py picks the block of a charm's overrides for a channel and base.
--   BundleBuilder/Overrides.antt   the criteria and the choice of the first block
-- The children of these modules hold the proofs, named for what they prove; Prelude holds what all
-- share. Samples hold tests of the definitions and the theorems at concrete inputs.
--
-- Items are records with an identity for `id(item)`. A dict is an association list in the order of
-- insertion, a set the list of its members. Text is a list of code points where it is taken apart,
-- and a string elsewhere. `random.choice` is a function from the round and the number of candidates
-- to an index, over which every statement quantifies; in the planner it depends on the call of the
-- path search, too, which its target and the keys in progress and remembered tell apart.
--
-- The API server of the limits reads and patches a StatefulSet in a world that is a parameter. What is
-- assumed of it: a patch that it answers was accepted at one moment, at which its tests of identity
-- and version held, and an object that has kept both has kept its containers. `parse_quantity` is a
-- function to multiples of a smallest unit, so that quantities are valid.
--
-- Bounds. The search loop of shortest_path has one round of fuel for each edge, and two more; each
-- round takes an entry off the heap or expands a state. The planner's search has one call for each
-- selected item, and one more, since each call below another schedules an item. teardown_all has a
-- depth of recursion of one more than the number of entries. _tokenize has a round for each character,
-- and one more. _Parser has one nested constraint for each token, since each starts behind a token, and
-- a loop over operators has a round for each token that is left. wait_for_statefulset_restart has a watch
-- for each microsecond up to its deadline, and one more, since an interrupted watch takes time.
--
-- Not modelled: pytest itself, log lines and messages, the options, and everything that acts on Juju,
-- Kubernetes or a network. Python's own limits are left out: the depth of its recursion, which a
-- constraint in very many parentheses meets, and the 4300 digits that int() reads. The rest of the
-- bundle builder lowers constraints to an SMT solver; the validators are programs of their own.
pub mod Prelude
pub mod BundleBuilder
pub mod Kubernetes
pub mod Registry
pub mod Scheduler
pub mod Tracking
pub mod Utils
