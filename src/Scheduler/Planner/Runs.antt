-- ===== src/Scheduler/Planner/Runs.antt =====
-- What a plan has to be: tests that the environment can run one after the other.
use charm_integration_testin.Prelude.{
  ℕ, ◌≡◌, refl, ap, ◌⊎◌, inl, inr, true, false, none, some, List, [], ◌∷◌, ◌++◌, In, Bool-cases,
  Option-cases, In-append,
}
use charm_integration_testin.Prelude.Dict.{get}
use charm_integration_testin.Scheduler.State.{State, state_eq, state_eq_iff}
use charm_integration_testin.Scheduler.Graph.{StateTransition, transition_eq}
use charm_integration_testin.Scheduler.Marker.{StateMarker}
use charm_integration_testin.Scheduler.Item.{Item, has_id, marker_of}
use charm_integration_testin.Scheduler.Session.{or_empty}
use charm_integration_testin.Scheduler.Session.Skips.{transition_eq_iff}
use charm_integration_testin.Scheduler.Collection.{Transitions, Clusters}
use charm_integration_testin.Scheduler.Planner.{
  Draft, pure_at, first_unscheduled, first_departing, pair_with, departing,
}

-- The test leaves the environment in the state, since this is what its marker provides.
abbrev pub Keeps : Item → State → Type 0
Keeps i s = (m : StateMarker) × (marker_of i ≡ some m) × (m.provides ≡ s)

-- The item is listed under the edge in the dict.
abbrev pub IsListed : Transitions → StateTransition → Item → Type 0
IsListed d t i = (items : List Item) × In (t, items) d × In i items

module _ (c : Clusters) (all_transitions : Transitions) where
  -- A test for the edge: one that the user selected, or any of the suite.
  abbrev pub IsTest : StateTransition → Item → Type 0
  IsTest t i = IsListed c.selected t i ⊎ IsListed all_transitions t i

  -- The plan leads from `a` to `b`: a pure test runs in a state for which it was selected, and leaves
  -- it as it is when its marker provides that state. A transition test runs in the state that its edge
  -- leaves and ends where it leads.
  pub data Runs (a : State) : List Item → State → Type 0 where
    idle : Runs a [] a
    stay :
        {b : State} {p q : List Item} (i : Item)
        → Runs a p b
        → In i (pure_at c all_transitions b)
        → Keeps i b
        → q ≡ p ++ i ∷ []
        → Runs a q b
    move :
        {b b' : State} {p q : List Item} (t : StateTransition) (i : Item)
        → Runs a p b
        → t.from_state ≡ b
        → IsTest t i
        → b' ≡ t.to_state
        → q ≡ p ++ i ∷ []
        → Runs a q b'

  -- Each pure test that was selected leaves every state that it was selected for as it is. A pure test
  -- of one required state does; one of several ends in the one that it provides.
  abbrev pub IsKept : Type 0
  IsKept = (s : State) (i : Item) → In i (pure_at c all_transitions s) → Keeps i s

  -- Scheduled items stand in the plan, and the plan runs.
  pub record IsDraft (a b : State) (d : Draft) : Type 0 where
    pub runs : Runs a d.plan b
    pub present : (i : ℕ) → has_id d.scheduled i ≡ true → (x : Item) × In x d.plan × (x.ident ≡ i)

-- What is found in a dict is an entry of it.
pub get-In :
    {V : Type 0} (d : List (StateTransition × V)) (t : StateTransition) (v : V)
    → get transition_eq d t ≡ some v
    → In (t, v) d
unfolding get
get-In [] t v h = absurd (cc)
get-In ((u, w) ∷ d) t v h = elim (Bool-cases (transition_eq u t)) [
  | inl p ↦
      let h' : some w ≡ some v = rw p at h in
      let e : v ≡ w = cc in inl (rw (e, (transition_eq_iff u t).0 p) refl)
  | inr p ↦ inr (get-In d t v (rw p at h))
]

pub get-IsListed :
    (d : Transitions) (t : StateTransition) (i : Item)
    → In i (or_empty (get transition_eq d t))
    → IsListed d t i
get-IsListed d t i m = elim (Option-cases (get transition_eq d t)) [
  | inl p ↦ let m' : In i [] = rw p at m in absurd m'
  | inr (items, p) ↦ (items, get-In d t items p, rw p at m)
]

pub first_unscheduled-cases :
    (items : List Item) (scheduled : List ℕ)
    → (first_unscheduled items scheduled ≡ none)
      ⊎ ((i : Item) × (first_unscheduled items scheduled ≡ some i)
          × In i items
          × (has_id scheduled i.ident ≡ false))
unfolding first_unscheduled
first_unscheduled-cases [] scheduled = inl refl
first_unscheduled-cases (i ∷ is) scheduled = elim (Bool-cases (has_id scheduled i.ident)) [
  | inr p ↦ inr (i, rw p, inl refl, p)
  | inl p ↦ elim (first_unscheduled-cases is scheduled) [
    | inl q ↦ inl (rw p q)
    | inr (j, q, m, f) ↦ inr (j, rw p q, inr m, f)
  ]
]

pub first_departing-cases :
    (tests : List (StateTransition × Item)) (scheduled : List ℕ)
    → (first_departing tests scheduled ≡ none)
      ⊎ ((t : StateTransition) × (i : Item) × (first_departing tests scheduled ≡ some (t, i))
          × In (t, i) tests
          × (has_id scheduled i.ident ≡ false))
unfolding first_departing
first_departing-cases [] scheduled = inl refl
first_departing-cases ((t, i) ∷ rest) scheduled = elim (Bool-cases (has_id scheduled i.ident)) [
  | inr p ↦ inr (t, i, rw p, inl refl, p)
  | inl p ↦ elim (first_departing-cases rest scheduled) [
    | inl q ↦ inl (rw p q)
    | inr (u, j, q, m, f) ↦ inr (u, j, rw p q, inr m, f)
  ]
]

pair_with-In :
    (t u : StateTransition) (i : Item) (items : List Item)
    → In (u, i) (pair_with t items)
    → (u ≡ t) × In i items
unfolding pair_with
pair_with-In t u i [] m = absurd m
pair_with-In t u i (j ∷ js) (inl e) =
    (ap (λ (x : StateTransition × Item). x.0) e, inl (ap (λ (x : StateTransition × Item). x.1) e))
pair_with-In t u i (j ∷ js) (inr m) = let (e, h) = pair_with-In t u i js m in (e, inr h)

-- A test that departs from a state is listed under an edge that leaves it.
pub departing-IsListed :
    (d : Transitions) (s : State) (t : StateTransition) (i : Item)
    → In (t, i) (departing d s)
    → (t.from_state ≡ s) × IsListed d t i
unfolding departing
departing-IsListed [] s t i m = absurd m
departing-IsListed ((u, items) ∷ rest) s t i m = elim (Bool-cases (state_eq u.from_state s)) [
  | inr p ↦ let (e, (js, h, k)) = departing-IsListed rest s t i (rw p at m) in (e, (js, inr h, k))
  | inl p ↦ elim (In-append (t, i) (pair_with u items) (departing rest s) (rw p at m)) [
    | inl here ↦
        let (e, h) = pair_with-In u t i items here in
        (
          rw e ((state_eq_iff u.from_state s).0 p),
          (items, inl (ap (λ (x : StateTransition). (x, items)) e), h),
        )
    | inr later ↦ let (e, (js, h, k)) = departing-IsListed rest s t i later in (e, (js, inr h, k))
  ]
]
