-- ===== src/Scheduler/Graph/Walk.antt =====
-- Walks and paths of a state graph: what `shortest_path` is specified by.
use charm_integration_testin.Prelude.{
  ℕ, ◌+◌, ◌<◌, ◌≡◌, sym, ◌⊎◌, inl, inr, false, List, [], ◌∷◌, ◌++◌, arith, In, In-append,
  Bool-cases, if◌then◌else◌,
}
use charm_integration_testin.Scheduler.State.{State, state_eq, state_eq_iff, state_eq-sym}
use charm_integration_testin.Scheduler.Graph.{
  StateTransition, Edge, StateGraph, empty_graph, get_edges, edges_from, append_edge, contains,
  register_transition,
}

module _ {A : Type 0} where
  abbrev pub path_cost : List (Edge A) → ℕ
  path_cost [] = 0
  path_cost (e ∷ p) = (e.0).cost + path_cost p

  -- Every edge is filed under the state that it leaves.
  abbrev pub IsKeyed : StateGraph A → Type 0
  IsKeyed g = (s : State) (e : Edge A) → In e (edges_from g s) → (e.0).from_state ≡ s

  abbrev pub HasPositiveCosts : StateGraph A → Type 0
  HasPositiveCosts g = (s : State) (e : Edge A) → In e (edges_from g s) → 0 < (e.0).cost

  pub get_edges-append_edge :
      (edges : List (State × List (Edge A))) (key s : State) (e : Edge A)
      → get_edges (append_edge key e edges) s
        ≡ (if state_eq key s then get_edges edges s ++ e ∷ [] else get_edges edges s)
  unfolding get_edges append_edge
  get_edges-append_edge [] key s e = ground arith
  get_edges-append_edge ((k, es) ∷ rest) key s e = elim (Bool-cases (state_eq k key)) [
    | inl own ↦
        let e' : key ≡ k = sym ((state_eq_iff k key).0 own) in
        rw (own, e') (elim (Bool-cases (state_eq k s)) [ inl p ↦ rw p | inr p ↦ rw p ])
    | inr other ↦ rw other (elim (Bool-cases (state_eq k s)) [
      | inl here ↦
          let e' : s ≡ k = sym ((state_eq_iff k s).0 here) in
          rw (here, e', state_eq-sym key k, other)
      | inr there ↦ rw there (get_edges-append_edge rest key s e)
    ])
  ]

  -- A registered edge joins the end of its source's list, and no other list changes.
  pub edges_from-register :
      (g : StateGraph A) (t : StateTransition) (item : A) (s : State)
      → edges_from (register_transition g t item) s
        ≡ (if state_eq t.from_state s then edges_from g s ++ (t, item) ∷ [] else edges_from g s)
  unfolding register_transition
  edges_from-register g t item s = get_edges-append_edge g.edges t.from_state s (t, item)

  pub In-register :
      (g : StateGraph A) (t : StateTransition) (item : A) (s : State) (e : Edge A)
      → In e (edges_from (register_transition g t item) s)
      → In e (edges_from g s) ⊎ ((t.from_state ≡ s) × (e ≡ (t, item)))
  In-register g t item s e h = elim (Bool-cases (state_eq t.from_state s)) [
    | inl same ↦
        let m : In e (edges_from g s ++ (t, item) ∷ []) =
          rw (edges_from-register g t item s, same) at h in
        elim (In-append e (edges_from g s) _ m) [
          | inl old ↦ inl old
          | inr last ↦ elim last [
            | inl new ↦ inr ((state_eq_iff t.from_state s).0 same, new)
            | inr none ↦ absurd none
          ]
        ]
    | inr other ↦ inl (rw (edges_from-register g t item s, other) at h)
  ]

  pub IsKeyed-register :
      (g : StateGraph A) (t : StateTransition) (item : A)
      → IsKeyed g
      → IsKeyed (register_transition g t item)
  IsKeyed-register g t item keyed s e h = elim (In-register g t item s e h) [
    | inl old ↦ keyed s e old
    | inr new ↦ rw (new.1) new.0
  ]

  pub HasPositiveCosts-register :
      (g : StateGraph A) (t : StateTransition) (item : A)
      → 0 < t.cost
      → HasPositiveCosts g
      → HasPositiveCosts (register_transition g t item)
  HasPositiveCosts-register g t item pos all s e h = elim (In-register g t item s e h) [
    | inl old ↦ all s e old
    | inr new ↦ rw (new.1) pos
  ]

pub IsKeyed-empty : {A : Type 0} → IsKeyed (empty_graph {A = A})
unfolding get_edges
IsKeyed-empty s e h = absurd h

pub HasPositiveCosts-empty : {A : Type 0} → HasPositiveCosts (empty_graph {A = A})
unfolding get_edges
HasPositiveCosts-empty s e h = absurd h

module _ {A : Type 0} (g : StateGraph A) (avoid : List StateTransition) where
  -- A list of usable edges that leads from `a` to `b`.
  abbrev pub IsPath : State → List (Edge A) → State → Type 0
  IsPath a [] b = a ≡ b
  IsPath a (e ∷ p) b =
      ((e.0).from_state ≡ a)
      × In e (edges_from g a)
      × (contains avoid e.0 ≡ false)
      × IsPath (e.0).to_state p b

  -- The walks from `a` over usable edges, with the state that they reach and their cost.
  pub data Walk (a : State) : State → ℕ → Type 0 where
    here : Walk a a 0
    extend :
        {b c : State} {k m : ℕ} (e : Edge A)
        → Walk a b k
        → In e (edges_from g b)
        → contains avoid e.0 ≡ false
        → c ≡ (e.0).to_state
        → m ≡ k + (e.0).cost
        → Walk a c m
