-- ===== src/Scheduler/Planner/Steps.antt =====
-- The steps of the planner: each prolongs a plan that runs, and forgets no scheduled item.
use charm_integration_testin.Prelude.{
  ℕ, ◌≡◌, ◌≢◌, refl, ◌⊎◌, inl, inr, true, List, [], ◌∷◌, ◌++◌, ◌==◌, ==_iff, arith, In, Bool-cases,
  List-cases, In-append_left, In-append_right, subst,
}
use charm_integration_testin.Prelude.Dict.{get}
use charm_integration_testin.Scheduler.State.{State}
use charm_integration_testin.Scheduler.Graph.{
  StateTransition, Edge, StateGraph, edges_from, transition_eq,
}
use charm_integration_testin.Scheduler.Graph.Walk.{IsPath}
use charm_integration_testin.Scheduler.Item.{Item, has_id}
use charm_integration_testin.Scheduler.Session.{or_empty}
use charm_integration_testin.Scheduler.Collection.{Transitions, Clusters}
use charm_integration_testin.Scheduler.Planner.{
  Draft, schedule, schedule_new, first_unscheduled, departing, pure_at, run_selected_at, cross,
  inject_bridge,
}
use charm_integration_testin.Scheduler.Planner.Runs.{
  Runs, stay, move, IsKept, IsDraft, get-IsListed, first_unscheduled-cases, first_departing-cases,
  departing-IsListed,
}

-- Every identity of the first set is in the second.
abbrev pub Includes : List ℕ → List ℕ → Type 0
Includes small large = (i : ℕ) → has_id small i ≡ true → has_id large i ≡ true

has_id-cons : (x i : ℕ) (ids : List ℕ) → has_id (x ∷ ids) i ≡ true → (x ≡ i) ⊎ (has_id ids i ≡ true)
unfolding has_id
has_id-cons x i ids h = elim (Bool-cases (x == i)) [
  | inl p ↦ inl ((==_iff x i).0 p)
  | inr p ↦ inr (rw p at h)
]

pub Includes-cons : (x : ℕ) (ids : List ℕ) → Includes ids (x ∷ ids)
unfolding has_id
Includes-cons x ids i h = ground arith

pub has_id-here : (i : ℕ) (ids : List ℕ) → has_id (i ∷ ids) i ≡ true
unfolding has_id
has_id-here i ids = rw ((==_iff i i).1 refl)

module _ (c : Clusters) (all_transitions : Transitions) where
  -- One more item at the end of the plan.
  longer :
      {a b b' : State} (d : Draft) (i : Item)
      → IsDraft c all_transitions a b d
      → Runs c all_transitions a (d.plan ++ i ∷ []) b'
      → IsDraft c all_transitions a b' (schedule i d)
  longer d i draft r = record {
    runs = r;
    present = λ j h. elim (has_id-cons i.ident j d.scheduled h) [
      | inl e ↦ (i, In-append_right i d.plan _ (inl refl), e)
      | inr old ↦ let (x, m, e) = draft.present j old in (x, In-append_left x d.plan _ m, e)
    ];
  }

  schedule_new-IsDraft :
      IsKept c all_transitions
      → {a b : State} (items : List Item) (d : Draft)
      → ((x : Item) → In x items → In x (pure_at c all_transitions b))
      → IsDraft c all_transitions a b d
      → IsDraft c all_transitions a b (schedule_new items d)
  unfolding schedule_new
  schedule_new-IsDraft kept [] d sub draft = draft
  schedule_new-IsDraft kept (i ∷ is) d sub draft = elim (Bool-cases (has_id d.scheduled i.ident)) [
    | inl p ↦ rw p (schedule_new-IsDraft kept is d (λ x m. sub x (inr m)) draft)
    | inr p ↦ rw p (
        schedule_new-IsDraft kept is (schedule i d) (λ x m. sub x (inr m))
          (longer d i draft
            (stay i draft.runs (sub i (inl refl)) (kept _ i (sub i (inl refl))) refl)))
  ]

  -- What was selected at a state runs there.
  pub run_selected_at-IsDraft :
      IsKept c all_transitions
      → {a s : State} (d : Draft) → IsDraft c all_transitions a s d
      → IsDraft c all_transitions a
          (run_selected_at c all_transitions s d).0
          (run_selected_at c all_transitions s d).1
  unfolding run_selected_at
  run_selected_at-IsDraft kept {a} {s} d draft =
      let d' = schedule_new (pure_at c all_transitions s) d in
      let draft' =
        schedule_new-IsDraft kept {b = s} (pure_at c all_transitions s) d (λ x m. m) draft in
      elim (first_departing-cases (departing c.selected s) d'.scheduled) [
        | inl e ↦ rw e draft'
        | inr (t, i, e, m, new) ↦
            let (from, listed) = departing-IsListed c.selected s t i m in
            rw e (longer d' i draft' (move t i draft'.runs from (inl listed) refl refl))
      ]

  cross-IsDraft :
      {a b : State} (t : StateTransition) (d : Draft)
      → t.from_state ≡ b
      → or_empty (get transition_eq all_transitions t) ≢ []
      → IsDraft c all_transitions a b d
      → IsDraft c all_transitions a t.to_state (
          cross c all_transitions
            (first_unscheduled (or_empty (get transition_eq c.selected t)) d.scheduled)
            (or_empty (get transition_eq all_transitions t))
            d)
  cross-IsDraft t d from some_test draft =
      elim (first_unscheduled-cases (or_empty (get transition_eq c.selected t)) d.scheduled) [
        | inr (i, e, m, new) ↦ rw e (
            longer d i draft
              (move t i draft.runs from (inl (get-IsListed c.selected t i m)) refl refl))
        | inl e ↦ elim (List-cases (or_empty (get transition_eq all_transitions t))) [
          | inl none_left ↦ absurd (some_test none_left)
          | inr (i, is, top) ↦
              let m : In i (or_empty (get transition_eq all_transitions t)) = rw top (inl refl) in
              rw (e, top)
                (record {
                  runs =
                      move t i draft.runs from (inr (get-IsListed all_transitions t i m)) refl refl;
                  present = λ j h.
                      let (x, m', e') = draft.present j h in (x, In-append_left x d.plan _ m', e');
                })
        ]
      ]

  -- A path is bridged by tests for its edges, each of which has a test.
  pub inject_bridge-IsDraft :
      (g : StateGraph Item)
      → ((x : State) (e : Edge Item)
          → In e (edges_from g x)
          → or_empty (get transition_eq all_transitions e.0) ≢ [])
      → {a b : State} (s : State) (p : List (Edge Item)) (d : Draft) → IsPath g [] s p b
      → IsDraft c all_transitions a s d
      → IsDraft c all_transitions a b (inject_bridge c all_transitions p d)
  unfolding inject_bridge
  inject_bridge-IsDraft g tests {a} s [] d e draft =
      subst (λ x. IsDraft c all_transitions a x d) e draft
  inject_bridge-IsDraft g tests s ((t, i) ∷ p) d (from, m, _, path) draft =
      inject_bridge-IsDraft g tests t.to_state p _ path
        (cross-IsDraft t d from (tests s (t, i) m) draft)
