-- ===== src/Scheduler/Graph/Invariant.antt =====
-- The invariant of the loop of `shortest_path`. `done` holds the states that were expanded, `c` is
-- the cost of the last entry that was popped, and `todo` holds its edges that are not relaxed yet.
use charm_integration_testin.Prelude.{
  ℕ, ◌+◌, ◌≤◌, ◌≡◌, ◌≢◌, ◌⊎◌, inl, inr, false, Option, some, List, [], In, Bool-cases,
}
use charm_integration_testin.Scheduler.State.{State, state_eq, state_eq_iff}
use charm_integration_testin.Scheduler.Graph.{
  StateTransition, Edge, StateGraph, edges_from, contains, Search, update,
}
use charm_integration_testin.Scheduler.Graph.Queue.{IsSorted, IsDistinct}

-- The two ways to read an updated map.
pub update-cases :
    {B : Type 0} (f : State → B) (k : State) (v : B) (s : State)
    → (k ≡ s) × (update f k v s ≡ v) ⊎ (k ≢ s) × (update f k v s ≡ f s)
update-cases f k v s = elim (Bool-cases (state_eq k s)) [
  | inl same ↦ inl ((state_eq_iff k s).0 same, rw same)
  | inr other ↦ inr (λ e. let t = (state_eq_iff k s).1 e in cc, rw other)
]

module _ {A : Type 0} (g : StateGraph A) (from_state to_state : State)
    (avoid : List StateTransition) where
  -- What a parent of `v` is: a usable edge into `v` from a state that was expanded, and tight.
  pub record IsParent (done : List State) (dist : State → Option ℕ) (v : State) (e : Edge A)
      : Type 0 where
    pub target : (e.0).to_state ≡ v
    pub registered : In e (edges_from g (e.0).from_state)
    pub usable : contains avoid e.0 ≡ false
    pub expanded : In (e.0).from_state done
    pub near : ℕ
    pub far : ℕ
    pub near_dist : dist (e.0).from_state ≡ some near
    pub far_dist : dist v ≡ some far
    pub tight : near + (e.0).cost ≡ far

  -- The edge `e` out of a state at distance `d` is relaxed.
  abbrev pub IsRelaxed : (State → Option ℕ) → ℕ → Edge A → Type 0
  IsRelaxed dist d e = (d' : ℕ) × (dist (e.0).to_state ≡ some d') × (d' ≤ d + (e.0).cost)

  pub record Inv (c : ℕ) (done : List State) (todo : List (Edge A)) (s : Search A) : Type 0 where
    pub start : s.dist from_state ≡ some 0
    pub labelled : (k : ℕ) (v : State) → In (k, v) s.heap → (d : ℕ) × (s.dist v ≡ some d) × (d ≤ k)
    pub queued : (v : State) (d : ℕ) → s.dist v ≡ some d → In v done ⊎ In (d, v) s.heap
    pub below : (v : State) → In v done → (d : ℕ) × (s.dist v ≡ some d) × (d ≤ c)
    pub above : (k : ℕ) (v : State) → In (k, v) s.heap → c ≤ k
    pub spent : (v : State) (d : ℕ) → In v done → s.dist v ≡ some d → ¬ In (d, v) s.heap
    pub closed :
        (v : State) (d : ℕ) (e : Edge A)
        → In v done
        → s.dist v ≡ some d
        → In e (edges_from g v)
        → contains avoid e.0 ≡ false
        → In e todo ⊎ IsRelaxed s.dist d e
    pub sorted : IsSorted s.heap
    pub distinct : IsDistinct s.heap
    pub target_open : ¬ In to_state done
    pub parents_sound : (v : State) (e : Edge A) → In e (s.parents v) → IsParent done s.dist v e
    pub parents_exist : (v : State) (d : ℕ) → s.dist v ≡ some d → from_state ≢ v → s.parents v ≢ []
