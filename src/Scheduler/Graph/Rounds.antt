-- ===== src/Scheduler/Graph/Rounds.antt =====
-- One round of the loop of `shortest_path`: all edges of a state, and the measure that falls.
use charm_integration_testin.Prelude.{
  ℕ, suc, ◌+◌, ◌≤◌, ◌<◌, ◌≡◌, refl, sym, ◌∙◌, ap, inl, inr, Bool, true, false, ◌||◌, some, List, [],
  ◌∷◌, arith, In, subst, length, if◌then◌else◌, Bool-cases,
}
use charm_integration_testin.Scheduler.State.{State, state_eq, state_eq_iff, state_eq-sym}
use charm_integration_testin.Scheduler.Graph.{
  StateTransition, Edge, StateGraph, edges_from, get_edges, total_edges, Entry, entry_lt, contains,
  Search, heappush, relax, relax_all, le_found,
}
use charm_integration_testin.Scheduler.Graph.Walk.{IsKeyed, HasPositiveCosts}
use charm_integration_testin.Scheduler.Graph.Invariant.{Inv}
use charm_integration_testin.Scheduler.Graph.Relax.{relax-Inv}

pub length-heappush : (e : Entry) (h : List Entry) → length (heappush e h) ≡ suc (length h)
unfolding heappush
length-heappush e [] = refl
length-heappush e (x ∷ xs) = elim (Bool-cases (entry_lt x e)) [
  | inl lt ↦ rw lt (ap suc (length-heappush e xs))
  | inr ge ↦ rw ge
]

unfoldable pub member : List State → State → Bool
member [] s = false
member (d ∷ ds) s = state_eq d s || member ds s

pub In-of-member : (done : List State) (s : State) → member done s ≡ true → In s done
unfolding member
In-of-member [] s h = absurd (cc)
In-of-member (d ∷ ds) s h = elim (Bool-cases (state_eq d s)) [
  | inl same ↦ inl (sym ((state_eq_iff d s).0 same))
  | inr other ↦ inr (In-of-member ds s (rw other at h))
]

module _ {A : Type 0} where
  -- The edges that are filed under states outside `done`.
  unfoldable pub remaining : List State → List (State × List (Edge A)) → ℕ
  remaining done [] = 0
  remaining done ((k, es) ∷ rest) = (if member done k then 0 else length es) + remaining done rest

  remaining-le :
      (done : List State) (x : State) (edges : List (State × List (Edge A)))
      → remaining (x ∷ done) edges ≤ remaining done edges
  unfolding remaining member
  remaining-le done x [] = omega arith
  remaining-le done x ((k, es) ∷ rest) = ground (arith, remaining-le done x rest)

  -- Expanding a new state uses its edges up.
  pub remaining_drop :
      (done : List State) (x : State) (edges : List (State × List (Edge A)))
      → member done x ≡ false
      → remaining (x ∷ done) edges + length (get_edges edges x) ≤ remaining done edges
  unfolding remaining member get_edges
  remaining_drop done x [] h = omega arith
  remaining_drop done x ((k, es) ∷ rest) h = elim (Bool-cases (state_eq k x)) [
    | inl same ↦
        let p = (state_eq_iff k x).0 same in
        rw (p, h, (state_eq_iff x x).1 refl) (let i = remaining-le done x rest in omega arith)
    | inr other ↦
        let flipped : state_eq x k ≡ false = state_eq-sym x k ∙ other in
        rw (other, flipped) (let i = remaining_drop done x rest h in omega arith)
  ]

  pub remaining-nil :
      (edges : List (State × List (Edge A))) → remaining [] edges ≡ total_edges edges
  unfolding remaining member total_edges
  remaining-nil [] = refl
  remaining-nil ((k, es) ∷ rest) = omega (arith, remaining-nil rest)

  length-relax :
      (avoid : List StateTransition) (c : ℕ) (e : Edge A) (s : Search A)
      → length (relax avoid c e s).heap ≤ suc (length s.heap)
  unfolding relax
  length-relax avoid c (t, item) s = ground (arith, length-heappush (c + t.cost, t.to_state) s.heap)

  pub length-relax_all :
      (avoid : List StateTransition) (c : ℕ) (es : List (Edge A)) (s : Search A)
      → length (relax_all avoid c es s).heap ≤ length s.heap + length es
  unfolding relax_all
  length-relax_all avoid c [] s = omega arith
  length-relax_all avoid c (e ∷ es) s =
      omega (arith, length-relax avoid c e s, length-relax_all avoid c es (relax avoid c e s))

  -- The state that is being expanded keeps its distance.
  dist-relax :
      (avoid : List StateTransition) (c : ℕ) (t : StateTransition) (item : A) (s : Search A)
      (x : State)
      → 0 < t.cost
      → s.dist x ≡ some c
      → (relax avoid c (t, item) s).dist x ≡ some c
  unfolding relax
  dist-relax avoid c t item s x pos at = elim (Bool-cases (contains avoid t)) [
    | inl avoided ↦ rw avoided at
    | inr usable ↦ rw usable (elim (Bool-cases (le_found (c + t.cost) (s.dist t.to_state))) [
      | inr worse ↦ rw worse at
      | inl le ↦ rw le (elim (Bool-cases (state_eq t.to_state x)) [
        | inl same ↦
            let at' : s.dist t.to_state ≡ some c = ap s.dist ((state_eq_iff _ x).0 same) ∙ at in
            absurd (ground arith)
        | inr other ↦ rw other at
      ])
    ])
  ]

  module _ (g : StateGraph A) (from_state to_state : State) (avoid : List StateTransition)
      (keyed : IsKeyed g) (positive : HasPositiveCosts g) {c : ℕ} {done : List State} (x : State)
      (source : In x done) where
    -- After all edges of `x` nothing is left to do for the expanded states.
    pub relax_all-Inv :
        (es : List (Edge A)) (s : Search A)
        → ((e : Edge A) → In e es → In e (edges_from g x))
        → s.dist x ≡ some c
        → Inv g from_state to_state avoid c done es s
        → Inv g from_state to_state avoid c done [] (relax_all avoid c es s)
    unfolding relax_all
    relax_all-Inv [] s all at inv = inv
    relax_all-Inv ((t, item) ∷ es) s all at inv =
        let m = all (t, item) (inl refl) in
        let from = keyed x (t, item) m in
        let pos = positive x (t, item) m in
        relax_all-Inv es (relax avoid c (t, item) s) (λ e h. all e (inr h))
          (dist-relax avoid c t item s x pos at)
          (relax-Inv g from_state to_state avoid keyed t item inv (rw from source)
            (ap s.dist from ∙ at) (subst (λ y. In (t, item) (edges_from g y)) (sym from) m) pos)
