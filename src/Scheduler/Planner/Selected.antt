-- ===== src/Scheduler/Planner/Selected.antt =====
-- plugin.py: where the pure tests that the user selected are filed.
use charm_integration_testin.Prelude.{
  ◌≡◌, sym, subst, ap, ◌⊎◌, inl, inr, false, some, List, [], ◌∷◌, ◌++◌, In, Bool-cases, In-append,
}
use charm_integration_testin.Prelude.Dict.{get, get-put}
use charm_integration_testin.Scheduler.State.{State, state_eq, state_eq_iff}
use charm_integration_testin.Scheduler.Marker.{StateMarker, is_transition}
use charm_integration_testin.Scheduler.Item.{Item, marker_of}
use charm_integration_testin.Scheduler.Session.{or_empty}
use charm_integration_testin.Scheduler.Collection.{
  Transitions, Clusters, append_to, add_pure, add_destination, clusters,
}
use charm_integration_testin.Scheduler.Planner.Runs.{IsKept}
use charm_integration_testin.Scheduler.Ordering.{no_clusters}

-- Who is filed under the state.
abbrev Filed : State → List (State × List Item) → Item → Type 0
Filed s d x = In x (or_empty (get state_eq d s))

append_to-Filed :
    (d : List (State × List Item)) (k s : State) (v x : Item)
    → Filed s (append_to state_eq d k v) x
    → ((s ≡ k) × (x ≡ v)) ⊎ Filed s d x
unfolding append_to
append_to-Filed d k s v x m =
    let m' =
      rw (get-put state_eq state_eq_iff d k s (or_empty (get state_eq d k) ++ v ∷ [])) at m in
    elim (Bool-cases (state_eq k s)) [
      | inr p ↦ inr (rw p at m')
      | inl p ↦
          let same : k ≡ s = (state_eq_iff k s).0 p in
          let m'' : In x (or_empty (get state_eq d k) ++ v ∷ []) = rw p at m' in
          elim (In-append x (or_empty (get state_eq d k)) (v ∷ []) m'') [
            | inl old ↦ inr (subst (λ j. Filed j d x) same old)
            | inr (inl e) ↦ inl (sym same, e)
            | inr (inr none_left) ↦ absurd none_left
          ]
    ]

add_pure-Filed :
    (item : Item) (reqs : List State) (d : List (State × List Item)) (s : State) (x : Item)
    → Filed s (add_pure item reqs d) x
    → (In s reqs × (x ≡ item)) ⊎ Filed s d x
unfolding add_pure
add_pure-Filed item [] d s x m = inr m
add_pure-Filed item (r ∷ rs) d s x m =
    elim (add_pure-Filed item rs (append_to state_eq d r item) s x m) [
      | inl (here, e) ↦ inl (inr here, e)
      | inr old ↦ elim (append_to-Filed d r s item x old) [
        | inl (same, e) ↦ inl (inl same, e)
        | inr older ↦ inr older
      ]
    ]

-- The marker of a pure test, and the state among its required ones.
abbrev IsPureFor : State → StateMarker → Type 0
IsPureFor s m = (is_transition m ≡ false) × In s m.requires

add_destination-Filed :
    (item : Item) (m : StateMarker) (c : Clusters) (s : State) (x : Item)
    → Filed s (add_destination item m c).pure x
    → (IsPureFor s m × (x ≡ item)) ⊎ Filed s c.pure x
unfolding add_destination get is_transition
add_destination-Filed item m c s x h = elim (Bool-cases m.bridge_only) [
  | inl p ↦ inr (rw p at h)
  | inr p ↦ elim (Bool-cases (is_transition m)) [
    | inl q ↦ inr (rw (p, q) at h)
    | inr q ↦ elim (add_pure-Filed item m.requires c.pure s x (rw (p, q) at h)) [
      | inl (here, e) ↦ inl ((q, here), e)
      | inr old ↦ inr old
    ]
  ]
]

clusters-Filed :
    (marked : List (Item × StateMarker)) (c : Clusters) (s : State) (x : Item)
    → Filed s (clusters marked c).pure x
    → ((m : StateMarker) × In (x, m) marked × IsPureFor s m) ⊎ Filed s c.pure x
unfolding clusters
clusters-Filed [] c s x h = inr h
clusters-Filed ((i, m) ∷ rest) c s x h = elim (clusters-Filed rest (add_destination i m c) s x h) [
  | inl (n, k, p) ↦ inl (n, inr k, p)
  | inr old ↦ elim (add_destination-Filed i m c s x old) [
    | inl (p, e) ↦ inl (m, inl (ap (λ j. (j, m)) e), p)
    | inr older ↦ inr older
  ]
]

-- A selection whose pure tests require one state each leaves these states as they are.
pub clusters-IsKept :
    (marked : List (Item × StateMarker)) (all_transitions : Transitions)
    → ((i : Item) (m : StateMarker) → In (i, m) marked → marker_of i ≡ some m)
    → ((i : Item) (m : StateMarker)
        → In (i, m) marked
        → is_transition m ≡ false
        → m.requires ≡ m.provides ∷ [])
    → IsKept (clusters marked no_clusters) all_transitions
unfolding get
clusters-IsKept marked all_transitions read single s x h =
    elim (clusters-Filed marked no_clusters s x h) [
      | inr absent ↦ absurd absent
      | inl (m, k, (pure, here)) ↦
          let here' : In s (m.provides ∷ []) = subst (λ l. In s l) (single x m k pure) here in
          (m, read x m k, elim here' [ inl e ↦ sym e | inr none_left ↦ absurd none_left ])
    ]
