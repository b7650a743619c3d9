-- ===== src/Scheduler/Graph.antt =====
-- charm_integration_testing/test_suite/scheduler/graph.py: the state graph and Dijkstra's
-- algorithm on it. An item of pytest is an element of a type `A`, on which nothing depends.
-- `random.choice` is a parameter `rng`: its k-th draw from n elements has the index rng k n % n.
pub mod Walk
mod Queue
mod Relax
mod Invariant
mod Rebuild
mod Rounds
mod Pop
pub mod Optimal
use charm_integration_testin.Prelude.{
  ℕ, zero, suc, ◌+◌, ◌%◌, ◌≡◌, Bool, true, false, ◌&&◌, ◌||◌, Option, none, some, List, [], ◌∷◌,
  ◌++◌, ltb, leb, ◌==◌, if◌then◌else◌, length, get_elem?,
}
use charm_integration_testin.Scheduler.State.{State, state_eq, state_lt}

pub record StateTransition : Type 0 where
  pub from_state : State
  pub to_state : State
  pub cost : ℕ

-- The equality of the frozen dataclass, and membership in a frozenset of transitions.
unfoldable pub transition_eq : StateTransition → StateTransition → Bool
transition_eq a b =
    state_eq a.from_state b.from_state && (state_eq a.to_state b.to_state && (a.cost == b.cost))

unfoldable pub contains : List StateTransition → StateTransition → Bool
contains [] t = false
contains (u ∷ us) t = transition_eq t u || contains us t

abbrev pub Edge : Type 0 → Type 0
Edge A = StateTransition × A

-- `_edges`: a dict in insertion order.
pub record StateGraph (A : Type 0) : Type 0 where
  pub edges : List (State × List (Edge A))

abbrev pub empty_graph : {A : Type 0} → StateGraph A
empty_graph = record { edges = [] }

unfoldable pub add_state : State → List State → List State
add_state s [] = s ∷ []
add_state s (x ∷ xs) = if state_eq x s then x ∷ xs else x ∷ add_state s xs

module _ {A : Type 0} where
  -- `edges.setdefault(key, []).append(edge)`
  unfoldable pub append_edge :
      State → Edge A → List (State × List (Edge A)) → List (State × List (Edge A))
  append_edge key e [] = (key, e ∷ []) ∷ []
  append_edge key e ((k, es) ∷ rest) =
      if state_eq k key then (k, es ++ e ∷ []) ∷ rest else (k, es) ∷ append_edge key e rest

  unfoldable pub register_transition : StateGraph A → StateTransition → A → StateGraph A
  register_transition g t item = record { edges = append_edge t.from_state (t, item) g.edges }

  -- `edges.get(state, [])`
  unfoldable pub get_edges : List (State × List (Edge A)) → State → List (Edge A)
  get_edges [] s = []
  get_edges ((k, es) ∷ rest) s = if state_eq k s then es else get_edges rest s

  abbrev pub edges_from : StateGraph A → State → List (Edge A)
  edges_from g s = get_edges g.edges s

  unfoldable pub add_targets : List (Edge A) → List State → List State
  add_targets [] states = states
  add_targets ((t, item) ∷ es) states = add_targets es (add_state t.to_state states)

  unfoldable pub collect_states : List (State × List (Edge A)) → List State → List State
  collect_states [] states = states
  collect_states ((k, es) ∷ rest) states = collect_states rest (add_targets es (add_state k states))

  pub known_states : StateGraph A → List State
  unfolding collect_states add_targets add_state
  known_states g = collect_states g.edges []

-- A heap entry is a pair (cost, state), compared as Python compares tuples.
abbrev pub Entry : Type 0
Entry = ℕ × State

unfoldable pub entry_lt : Entry → Entry → Bool
entry_lt (c, s) (d, t) = ltb c d || (c == d && state_lt s t)

-- The heap is the list of its entries in the order in which `heappop` returns them.
unfoldable pub heappush : Entry → List Entry → List Entry
heappush e [] = e ∷ []
heappush e (x ∷ xs) = if entry_lt x e then x ∷ heappush e xs else e ∷ x ∷ xs

-- The variables of `shortest_path`. A state that `dist` lacks is `none`.
pub record Search (A : Type 0) : Type 0 where
  pub dist : State → Option ℕ
  pub parents : State → List (Edge A)
  pub heap : List Entry

abbrev pub update : {B : Type 0} → (State → B) → State → B → State → B
update f k v s = if state_eq k s then v else f s

-- `cost <= dist.get(s, inf)`, `cost < dist.get(s, inf)` and `cost > dist.get(s, inf)`
abbrev pub le_found : ℕ → Option ℕ → Bool
le_found cost none = true
le_found cost (some d) = leb cost d

abbrev pub lt_found : ℕ → Option ℕ → Bool
lt_found cost none = true
lt_found cost (some d) = ltb cost d

abbrev pub is_stale : ℕ → Option ℕ → Bool
is_stale cost none = false
is_stale cost (some d) = ltb d cost

-- `choice_error` is the IndexError of `random.choice([])` (or the KeyError of a missing key).
pub data Outcome (A : Type 0) : Type 0 where
  found : List (Edge A) → Outcome A
  unreachable choice_error out_of_fuel : Outcome A

module _ {A : Type 0} where
  -- The body of the loop over the edges of the state that was popped at `cost`.
  unfoldable pub relax : List StateTransition → ℕ → Edge A → Search A → Search A
  relax avoid cost (t, item) s =
      let new_cost = cost + t.cost in
      let neighbor = t.to_state in
      let found_dist = s.dist neighbor in
      if contains avoid t
      then s
      else if le_found new_cost found_dist
      then record {
        dist = update s.dist neighbor (some new_cost);
        parents =
            update s.parents neighbor
              ((if lt_found new_cost found_dist then [] else s.parents neighbor) ++ (t, item) ∷ []);
        heap =
            if lt_found new_cost found_dist then heappush (new_cost, neighbor) s.heap else s.heap;
      }
      else s

  unfoldable pub relax_all : List StateTransition → ℕ → List (Edge A) → Search A → Search A
  relax_all avoid cost [] s = s
  relax_all avoid cost (e ∷ es) s = relax_all avoid cost es (relax avoid cost e s)

  module _ (rng : ℕ → ℕ → ℕ) where
    unfoldable pub choice : ℕ → List (Edge A) → Option (Edge A)
    choice k xs = get_elem? xs (rng k (length xs) % length xs)

    -- The walk back over `parents`. `path` is built in its final order, so there is no reversal.
    unfoldable pub rebuild :
        ℕ → (State → List (Edge A)) → State → ℕ → State → List (Edge A) → Outcome A
    rebuild zero parents from_state k state path = out_of_fuel
    rebuild (suc fuel) parents from_state k state path = elim (choice k (parents state)) [
      | none ↦ choice_error
      | some e ↦
          let longer = rebuild fuel parents from_state (k + 1) (e.0).from_state (e ∷ path) in
          if state_eq (e.0).from_state from_state then found (e ∷ path) else longer
    ]

-- One round of the `while heap` loop: a result, or the next search.
pub data Progress (A : Type 0) : Type 0 where
  finish : Outcome A → Progress A
  continue : Search A → Progress A

-- Enough rounds: an entry is pushed for an edge, and one at the start.
unfoldable pub total_edges : {A : Type 0} → List (State × List (Edge A)) → ℕ
total_edges [] = 0
total_edges ((k, es) ∷ rest) = length es + total_edges rest

module _ {A : Type 0} (rng : ℕ → ℕ → ℕ) (g : StateGraph A) (from_state to_state : State)
    (avoid : List StateTransition) where
  unfoldable pub iteration : List Entry → Search A → Progress A
  iteration [] s = finish unreachable
  iteration ((cost, state) ∷ rest) s =
      if state_eq state to_state
      then finish (rebuild rng (suc cost) s.parents from_state 0 to_state [])
      else if is_stale cost (s.dist state)
      then continue (record s { heap = rest })
      else continue (relax_all avoid cost (edges_from g state) (record s { heap = rest }))

  unfoldable pub search_loop : ℕ → Search A → Outcome A
  search_loop zero s = out_of_fuel
  search_loop (suc fuel) s = elim (iteration s.heap s) [
    | finish o ↦ o
    | continue s' ↦ search_loop fuel s'
  ]

  abbrev pub initial : Search A
  initial = record {
    dist = λ s. if state_eq from_state s then some 0 else none;
    parents = λ s. [];
    heap = (0, from_state) ∷ [];
  }

  unfoldable pub shortest_path : Outcome A
  unfolding search_loop iteration rebuild choice relax_all relax heappush entry_lt get_edges
      contains
  shortest_path =
      if state_eq from_state to_state
      then found []
      else search_loop (2 + total_edges g.edges) initial
