-- ===== src/Scheduler/Planner/Complete.antt =====
-- A plan of the planner runs every selected test.
use charm_integration_testin.Prelude.{
  ℕ, ◌≡◌, refl, sym, ap, subst, ok, ◌⊎◌, inl, inr, Bool, true, false, ◌||◌, List, [], ◌∷◌, In,
  In-append_left, In-append_right, Bool-cases,
}
use charm_integration_testin.Scheduler.State.{
  State, state_eq, state_eq_iff, sorted_states, deployed, deployed_ha, deployed_with_old_revision,
  deployed_with_upgraded_controller, empty_model, neighbor_only, no_bundle, no_controller, no_model,
}
use charm_integration_testin.Scheduler.Graph.{StateTransition}
use charm_integration_testin.Scheduler.Item.{Item, has_id}
use charm_integration_testin.Scheduler.Collection.{
  Transitions, Clusters, Built, no_edges, collect_edges,
}
use charm_integration_testin.Scheduler.Collection.Graph.{
  collected-covered, collected-IsKeyed, collected-HasPositiveCosts,
}
use charm_integration_testin.Scheduler.Planner.{
  Draft, Draws, planned, is_some, pure_at, first_unscheduled, first_departing, pair_with, departing,
  has_unscheduled, unscheduled_among, unscheduled_destinations, draft_plan,
}
use charm_integration_testin.Scheduler.Planner.Runs.{IsListed, Runs, IsKept}
use charm_integration_testin.Scheduler.Planner.Search.{draft_plan-IsVerdict}

or_false : (a b : Bool) → (a || b) ≡ false → (a ≡ false) × (b ≡ false)
or_false true b h = absurd (cc)
or_false false b h = (refl, h)

first_unscheduled-none :
    (items : List Item) (ids : List ℕ) (x : Item)
    → is_some (first_unscheduled items ids) ≡ false
    → In x items
    → has_id ids x.ident ≡ true
unfolding first_unscheduled
first_unscheduled-none [] ids x h m = absurd m
first_unscheduled-none (i ∷ is) ids x h m = elim (Bool-cases (has_id ids i.ident)) [
  | inr p ↦ let t : true ≡ false = rw p at h in absurd (cc)
  | inl p ↦ elim m [ inl e ↦ rw e p | inr m' ↦ first_unscheduled-none is ids x (rw p at h) m' ]
]

pub first_departing-none :
    (tests : List (StateTransition × Item)) (ids : List ℕ) (t : StateTransition) (x : Item)
    → is_some (first_departing tests ids) ≡ false
    → In (t, x) tests
    → has_id ids x.ident ≡ true
unfolding first_departing
first_departing-none [] ids t x h m = absurd m
first_departing-none ((u, i) ∷ rest) ids t x h m = elim (Bool-cases (has_id ids i.ident)) [
  | inr p ↦ let e : true ≡ false = rw p at h in absurd (cc)
  | inl p ↦ elim m [
    | inl e ↦ let own : x ≡ i = ap (λ (y : StateTransition × Item). y.1) e in rw own p
    | inr m' ↦ first_departing-none rest ids t x (rw p at h) m'
  ]
]

In-pair_with :
    (t : StateTransition) (x : Item) (items : List Item)
    → In x items
    → In (t, x) (pair_with t items)
unfolding pair_with
In-pair_with t x [] m = absurd m
In-pair_with t x (i ∷ is) (inl e) = inl (rw e refl)
In-pair_with t x (i ∷ is) (inr m) = inr (In-pair_with t x is m)

In-departing :
    (d : Transitions) (t : StateTransition) (x : Item)
    → IsListed d t x
    → In (t, x) (departing d t.from_state)
unfolding departing
In-departing [] t x (items, m, _) = absurd m
In-departing ((u, us) ∷ rest) t x (items, m, k) =
    elim (Bool-cases (state_eq u.from_state t.from_state)) [
      | inl p ↦ rw p (elim m [
        | inl e ↦
            let eu : t ≡ u = ap (λ (y : StateTransition × List Item). y.0) e in
            let es : items ≡ us = ap (λ (y : StateTransition × List Item). y.1) e in
            In-append_left (t, x) (pair_with u us) _
              (subst (λ w. In (t, x) (pair_with w us)) eu
                (In-pair_with t x us (subst (λ l. In x l) es k)))
        | inr m' ↦ In-append_right (t, x) (pair_with u us) _ (In-departing rest t x (items, m', k))
      ])
      | inr p ↦ rw p (elim m [
        | inl e ↦
            let eu : t ≡ u = ap (λ (y : StateTransition × List Item). y.0) e in
            let same : state_eq u.from_state t.from_state ≡ true =
              (state_eq_iff _ _).1 (ap (λ (w : StateTransition). w.from_state) (sym eu)) in
            absurd (cc)
        | inr m' ↦ In-departing rest t x (items, m', k)
      ])
    ]

In-sorted_states : (s : State) → In s sorted_states
In-sorted_states deployed = inl refl
In-sorted_states deployed_ha = inr (inl refl)
In-sorted_states deployed_with_old_revision = inr (inr (inl refl))
In-sorted_states deployed_with_upgraded_controller = inr (inr (inr (inl refl)))
In-sorted_states empty_model = inr (inr (inr (inr (inl refl))))
In-sorted_states neighbor_only = inr (inr (inr (inr (inr (inl refl)))))
In-sorted_states no_bundle = inr (inr (inr (inr (inr (inr (inl refl))))))
In-sorted_states no_controller = inr (inr (inr (inr (inr (inr (inr (inl refl)))))))
In-sorted_states no_model = inr (inr (inr (inr (inr (inr (inr (inr (inl refl))))))))

module _ (c : Clusters) (all_transitions : Transitions) where
  -- The user selected the item: for a state, or for an edge.
  abbrev pub IsSelected : Item → Type 0
  IsSelected x =
      ((s : State) × In x (pure_at c all_transitions s))
      ⊎ ((t : StateTransition) × IsListed c.selected t x)

  unscheduled_among-nil :
      (ids : List ℕ) (states : List State) (s : State)
      → unscheduled_among c all_transitions ids states ≡ []
      → In s states
      → has_unscheduled c all_transitions ids s ≡ false
  unfolding unscheduled_among
  unscheduled_among-nil ids [] s h m = absurd m
  unscheduled_among-nil ids (a ∷ as') s h m =
      elim (Bool-cases (has_unscheduled c all_transitions ids a)) [
        | inl p ↦
            let h' : a ∷ unscheduled_among c all_transitions ids as' ≡ [] = rw p at h in absurd (cc)
        | inr p ↦ elim m [
          | inl e ↦ rw e p
          | inr m' ↦ unscheduled_among-nil ids as' s (rw p at h) m'
        ]
      ]

  scheduled-IsSelected :
      (ids : List ℕ) (x : Item)
      → unscheduled_destinations c all_transitions ids ≡ []
      → IsSelected x
      → has_id ids x.ident ≡ true
  unfolding unscheduled_destinations has_unscheduled
  scheduled-IsSelected ids x h (inl (s, m)) =
      first_unscheduled-none _ ids x
        (or_false _ _ (unscheduled_among-nil ids sorted_states s h (In-sorted_states s))).0 m
  scheduled-IsSelected ids x h (inr (t, m)) =
      first_departing-none _ ids t x
        (or_false _ _
          (unscheduled_among-nil ids sorted_states t.from_state h (In-sorted_states _))).1
        (In-departing c.selected t x m)

  -- A graph is made of `items` that can be collected, and the planner succeeds on it, whatever
  -- `random.choice` draws. Each selected pure test leaves every state that it was selected for as it is,
  -- since its marker provides that state, which excludes the pure tests of several required states that
  -- move the environment to one of them. Then the plan can be run from the starting state, one test
  -- after the other: a pure test in a state that it was selected for, a transition test (selected, or
  -- of the suite) in the state where its edge starts. And every selected test is in the plan.
  pub draft_plan_complete :
      (rng : Draws) (items : List Item) (b : Built) (start : State) (d : Draft)
      → IsKept c all_transitions
      → collect_edges items no_edges ≡ ok b
      → all_transitions ≡ b.transitions
      → draft_plan c all_transitions b.graph rng start ≡ planned d
      → ((final : State) × Runs c all_transitions start d.plan final)
        × ((x : Item) → IsSelected x → (y : Item) × In y d.plan × (y.ident ≡ x.ident))
  draft_plan_complete rng items b start d kept collected same h =
      let (final, draft, all_scheduled) = rw h at (
        draft_plan-IsVerdict c all_transitions start kept b.graph rng
          (collected-IsKeyed items b collected) (collected-HasPositiveCosts items b collected)
          (rw same (collected-covered items b collected))) in
      (
        (final, draft.runs),
        λ x selected.
            draft.present x.ident (scheduled-IsSelected d.scheduled x all_scheduled selected),
      )
