-- ===== src/Scheduler/Graph/Pop.antt =====
-- Popping the least entry keeps the invariant, whether the entry is stale or its state is expanded.
use charm_integration_testin.Prelude.{
  ℕ, ◌≤◌, ◌<◌, ◌≡◌, refl, ◌∙◌, ap, ◌≢◌, ◌⊎◌, inl, inr, some, List, [], ◌∷◌, arith, In, subst,
}
use charm_integration_testin.Scheduler.State.{State}
use charm_integration_testin.Scheduler.Graph.{
  StateTransition, StateGraph, edges_from, Entry, Search, relax_all,
}
use charm_integration_testin.Scheduler.Graph.Walk.{IsKeyed, HasPositiveCosts}
use charm_integration_testin.Scheduler.Graph.Rebuild.{some_eq}
use charm_integration_testin.Scheduler.Graph.Rounds.{relax_all-Inv}
use charm_integration_testin.Scheduler.Graph.Invariant.{Inv}

module _ {A : Type 0} (g : StateGraph A) (from_state to_state : State)
    (avoid : List StateTransition) {c : ℕ} {done : List State} {s : Search A} {cost : ℕ}
    {state : State} {rest : List Entry} (inv : Inv g from_state to_state avoid c done [] s)
    (top : s.heap ≡ (cost, state) ∷ rest) where
  abbrev popped : Search A
  popped = record s { heap = rest }

  In-heap : (y : Entry) → In y rest → In y s.heap
  In-heap y m = rw top (inr m)

  heap_cases : (y : Entry) → In y s.heap → (y ≡ (cost, state)) ⊎ In y rest
  heap_cases y m = rw top at m

  pub top-In : In (cost, state) s.heap
  top-In = rw top (inl refl)

  sorted_top : (y : Entry) → In y rest → cost ≤ y.0
  sorted_top = let t = inv.sorted in (rw top at t).0

  pub top_least : (k : ℕ) (v : State) → In (k, v) s.heap → cost ≤ k
  top_least k v m = elim (heap_cases (k, v) m) [
    | inl p ↦ let q = ap (λ (y : Entry). y.0) p in omega arith
    | inr later ↦ sorted_top (k, v) later
  ]

  -- A stale entry is dropped.
  pub drop-Inv :
      (d : ℕ) → s.dist state ≡ some d → d < cost → Inv g from_state to_state avoid c done [] popped
  drop-Inv d at lt = record {
    start = inv.start;
    labelled = λ k v m. inv.labelled k v (In-heap _ m);
    queued = λ v d' at'. elim (inv.queued v d' at') [
      | inl m ↦ inl m
      | inr m ↦ elim (heap_cases (d', v) m) [
        | inl p ↦
            let q : d' ≡ cost = ap (λ (y : Entry). y.0) p in
            let r : v ≡ state = ap (λ (y : Entry). y.1) p in
            let same : d' ≡ d = some_eq at' (ap s.dist r ∙ at) in absurd (omega arith)
        | inr later ↦ inr later
      ]
    ];
    below = inv.below;
    above = λ k v m. inv.above k v (In-heap _ m);
    spent = λ v d' m at' here. inv.spent v d' m at' (In-heap _ here);
    closed = inv.closed;
    sorted = let t = inv.sorted in (rw top at t).1;
    distinct = let t = inv.distinct in (rw top at t).1;
    target_open = inv.target_open;
    parents_sound = inv.parents_sound;
    parents_exist = inv.parents_exist;
  }

  module _ (at : s.dist state ≡ some cost) (open_state : to_state ≢ state) where
    -- The state of a current entry becomes expanded, with all of its edges still to relax.
    expand-Inv : Inv g from_state to_state avoid cost (state ∷ done) (edges_from g state) popped
    expand-Inv = record {
      start = inv.start;
      labelled = λ k v m. inv.labelled k v (In-heap _ m);
      queued = λ v d' at'. elim (inv.queued v d' at') [
        | inl m ↦ inl (inr m)
        | inr m ↦ elim (heap_cases (d', v) m) [
          | inl p ↦ inl (inl (ap (λ (y : Entry). y.1) p))
          | inr later ↦ inr later
        ]
      ];
      below = λ v m. elim m [
        | inl p ↦ (cost, ap s.dist p ∙ at, omega arith)
        | inr old ↦
            let (d, at', le) = inv.below v old in
            let up = inv.above cost state top-In in (d, at', omega arith)
      ];
      above = λ k v m. sorted_top (k, v) m;
      spent = λ v d m at' here. elim m [
        | inl p ↦
            let q : d ≡ cost = some_eq at' (ap s.dist p ∙ at) in
            let t = inv.distinct in (rw top at t).0 (rw (← p, ← q) here)
        | inr old ↦ inv.spent v d old at' (In-heap _ here)
      ];
      closed = λ v d f m at' r u. elim m [
        | inl p ↦ inl (subst (λ y. In f (edges_from g y)) p r)
        | inr old ↦ elim (inv.closed v d f old at' r u) [
          | inl none' ↦ absurd none'
          | inr relaxed ↦ inr relaxed
        ]
      ];
      sorted = let t = inv.sorted in (rw top at t).1;
      distinct = let t = inv.distinct in (rw top at t).1;
      target_open = λ m. elim m [ inl p ↦ open_state p | inr old ↦ inv.target_open old ];
      parents_sound = λ v e m.
          let p = inv.parents_sound v e m in
          record {
            target = p.target;
            registered = p.registered;
            usable = p.usable;
            expanded = inr p.expanded;
            near = p.near;
            far = p.far;
            near_dist = p.near_dist;
            far_dist = p.far_dist;
            tight = p.tight;
          };
      parents_exist = inv.parents_exist;
    }

    pub round-Inv :
        IsKeyed g
        → HasPositiveCosts g
        → Inv g from_state to_state avoid cost
            (state ∷ done)
            []
            (relax_all avoid cost (edges_from g state) popped)
    round-Inv keyed positive =
        relax_all-Inv g from_state to_state avoid keyed positive state (inl refl)
          (edges_from g state) popped (λ e m. m) at expand-Inv
