-- ===== src/Scheduler/Collection/Graph.antt =====
-- The state graph that the collection builds, and the session that starts from it.
use charm_integration_testin.Prelude.{
  ◌≡◌, ◌≢◌, refl, inl, inr, true, Option, none, some, List, [], ◌∷◌, ◌++◌, arith, if◌then◌else◌,
  Bool-cases, List-cases, In, In-append_left, In-append_right, ok, >>=-passes, subst, ◌<◌, ◌↔◌,
}
use charm_integration_testin.Prelude.Dict.{get, get-put}
use charm_integration_testin.Scheduler.State.{State, state_eq, state_eq_iff}
use charm_integration_testin.Scheduler.Graph.{
  StateTransition, Edge, StateGraph, edges_from, get_edges, transition_eq, register_transition,
  contains,
}
use charm_integration_testin.Scheduler.Graph.Walk.{
  IsKeyed, HasPositiveCosts, IsKeyed-register, HasPositiveCosts-register, IsKeyed-empty,
  HasPositiveCosts-empty, In-register, edges_from-register,
}
use charm_integration_testin.Scheduler.Marker.{StateMarker, is_transition, read_state_marker}
use charm_integration_testin.Scheduler.Item.{Item, has_id}
use charm_integration_testin.Scheduler.Session.{
  Session, edge, or_empty, candidates_of, all_skipped, skipped_ids_of,
}
use charm_integration_testin.Scheduler.Session.Skips.{transition_eq_iff, IsTracked}
use charm_integration_testin.Scheduler.Collection.{
  Built, no_edges, append_to, add_edges, add_item, collect_edges, publish,
}

tests_for : Built → StateTransition → List Item
tests_for b t = or_empty (get transition_eq b.transitions t)

-- A marked transition test, and one of the states that it departs from.
pub record Declares (item : Item) (x : State) (t : StateTransition) : Type 0 where
  pub marker : StateMarker
  pub read : read_state_marker item.marker ≡ ok (some marker)
  pub transition : is_transition marker ≡ true
  pub departs : In x marker.requires
  pub names : t ≡ edge x marker.provides

-- The graph so far, of the items `seen`.
record IsBuilt (seen : List Item) (b : Built) : Type 0 where
  keyed : IsKeyed b.graph
  positive : HasPositiveCosts b.graph
  listed : (x : State) (e : Edge Item) → In e (edges_from b.graph x) → In e.1 (tests_for b e.0)
  declared :
      (x : State) (e : Edge Item) → In e (edges_from b.graph x) → In e.1 seen × Declares e.1 x e.0

IsBuilt-none : {seen : List Item} → IsBuilt seen no_edges
unfolding get_edges
IsBuilt-none = record {
  keyed = IsKeyed-empty;
  positive = HasPositiveCosts-empty;
  listed = λ x e m. absurd m;
  declared = λ x e m. absurd m;
}

module _ (b : Built) (t : StateTransition) (item : Item) where
  abbrev extended : Built
  extended = record {
    graph = register_transition b.graph t item;
    transitions = append_to transition_eq b.transitions t item;
  }

  tests_for-extended :
      (u : StateTransition)
      → tests_for extended u
        ≡ (if transition_eq t u then tests_for b t ++ item ∷ [] else tests_for b u)
  unfolding tests_for append_to
  tests_for-extended u =
      rw
        (get-put transition_eq transition_eq_iff b.transitions t u
          (or_empty (get transition_eq b.transitions t) ++ item ∷ []))
        (elim (Bool-cases (transition_eq t u)) [ inl p ↦ rw p | inr p ↦ rw p ])

  keeps_test : (i : Item) (u : StateTransition) → In i (tests_for b u) → In i (tests_for extended u)
  keeps_test i u m = rw (tests_for-extended u) (elim (Bool-cases (transition_eq t u)) [
    | inl p ↦
        rw p (In-append_left i (tests_for b t) (item ∷ []) (rw ((transition_eq_iff t u).0 p) m))
    | inr p ↦ rw p m
  ])

  new_test : In item (tests_for extended t)
  new_test =
      rw (tests_for-extended t, (transition_eq_iff t t).1 refl)
        (In-append_right item (tests_for b t) _ (inl refl))

  keeps_edge :
      (x : State) (e : Edge Item) → In e (edges_from b.graph x) → In e (edges_from extended.graph x)
  keeps_edge x e m =
      rw (edges_from-register b.graph t item x) (elim (Bool-cases (state_eq t.from_state x)) [
        | inl p ↦ rw p (In-append_left e _ _ m)
        | inr p ↦ rw p m
      ])

  new_edge : In (t, item) (edges_from extended.graph t.from_state)
  new_edge =
      rw
        (
          edges_from-register b.graph t item t.from_state,
          (state_eq_iff t.from_state t.from_state).1 refl,
        )
        (In-append_right _ (edges_from b.graph t.from_state) _ (inl refl))

  extended-IsBuilt :
      {seen : List Item}
      → IsBuilt seen b
      → In item seen
      → 0 < t.cost
      → Declares item t.from_state t
      → IsBuilt seen extended
  extended-IsBuilt built m positive d = record {
    keyed = IsKeyed-register b.graph t item built.keyed;
    positive = HasPositiveCosts-register b.graph t item positive built.positive;
    listed = λ x e h. elim (In-register b.graph t item x e h) [
      | inl old ↦ keeps_test e.1 e.0 (built.listed x e old)
      | inr new ↦ rw (new.1) new_test
    ];
    declared = λ x e h. elim (In-register b.graph t item x e h) [
      | inl old ↦ built.declared x e old
      | inr new ↦ rw (new.1) (m, rw (← new.0) d)
    ];
  }

module _ (item : Item) (marker : StateMarker)
    (read : read_state_marker item.marker ≡ ok (some marker))
    (transition : is_transition marker ≡ true) where
  add_edges-IsBuilt :
      {seen : List Item} (requires : List State) (b : Built)
      → In item seen
      → ((x : State) → In x requires → In x marker.requires)
      → IsBuilt seen b
      → IsBuilt seen (add_edges item marker.provides requires b)
  unfolding add_edges
  add_edges-IsBuilt [] b m sub built = built
  add_edges-IsBuilt (req ∷ rest) b m sub built =
      add_edges-IsBuilt rest (extended b (edge req marker.provides) item) m (λ x h. sub x (inr h))
        (extended-IsBuilt b (edge req marker.provides) item built m (omega arith) (record {
          marker = marker;
          read = read;
          transition = transition;
          departs = sub req (inl refl);
          names = refl;
        }))

add_edges-keeps :
    (item : Item) (provides : State) (requires : List State) (b : Built) (x : State) (e : Edge Item)
    → In e (edges_from b.graph x)
    → In e (edges_from (add_edges item provides requires b).graph x)
unfolding add_edges
add_edges-keeps item provides [] b x e m = m
add_edges-keeps item provides (req ∷ rest) b x e m =
    add_edges-keeps item provides rest _ x e (keeps_edge b (edge req provides) item x e m)

add_edges-adds :
    (item : Item) (provides : State) (requires : List State) (b : Built) (x : State)
    → In x requires
    → In (edge x provides, item) (edges_from (add_edges item provides requires b).graph x)
unfolding add_edges
add_edges-adds item provides [] b x m = absurd m
add_edges-adds item provides (req ∷ rest) b x (inl e) =
    rw e (add_edges-keeps item provides rest _ req _ (new_edge b (edge req provides) item))
add_edges-adds item provides (req ∷ rest) b x (inr m) = add_edges-adds item provides rest _ x m

add_item-keeps :
    (item : Item) (m : Option StateMarker) (b : Built) (x : State) (e : Edge Item)
    → In e (edges_from b.graph x)
    → In e (edges_from (add_item item m b).graph x)
unfolding add_item
add_item-keeps item none b x e h = h
add_item-keeps item (some m) b x e h = elim (Bool-cases (is_transition m)) [
  | inl p ↦ rw p (add_edges-keeps item m.provides m.requires b x e h)
  | inr p ↦ rw p h
]

add_item-adds :
    (item : Item) (m : StateMarker) (b : Built) (x : State)
    → is_transition m ≡ true
    → In x m.requires
    → In (edge x m.provides, item) (edges_from (add_item item (some m) b).graph x)
unfolding add_item
add_item-adds item m b x p h = rw p (add_edges-adds item m.provides m.requires b x h)

add_item-IsBuilt :
    {seen : List Item} (item : Item) (m : Option StateMarker) (b : Built)
    → read_state_marker item.marker ≡ ok m
    → In item seen
    → IsBuilt seen b
    → IsBuilt seen (add_item item m b)
unfolding add_item
add_item-IsBuilt item none b read here built = built
add_item-IsBuilt item (some m) b read here built = elim (Bool-cases (is_transition m)) [
  | inl p ↦ rw p (add_edges-IsBuilt item m read p m.requires b here (λ x h. h) built)
  | inr p ↦ rw p built
]

collect-IsBuilt :
    {seen : List Item} (items : List Item) (b b' : Built)
    → ((i : Item) → In i items → In i seen)
    → IsBuilt seen b
    → collect_edges items b ≡ ok b'
    → IsBuilt seen b'
unfolding collect_edges
collect-IsBuilt {seen} [] b b' sub built h = let e : b ≡ b' = cc in subst (IsBuilt seen) e built
collect-IsBuilt (item ∷ rest) b b' sub built h =
    let (m, read, h') = >>=-passes (read_state_marker item.marker) _ h in
    collect-IsBuilt rest (add_item item m b) b' (λ i k. sub i (inr k))
      (add_item-IsBuilt item m b read (sub item (inl refl)) built) h'

collect-keeps :
    (items : List Item) (b b' : Built) (x : State) (e : Edge Item)
    → collect_edges items b ≡ ok b'
    → In e (edges_from b.graph x)
    → In e (edges_from b'.graph x)
unfolding collect_edges
collect-keeps [] b b' x e h m =
    let eq : b ≡ b' = cc in subst (λ (k : Built). In e (edges_from k.graph x)) eq m
collect-keeps (item ∷ rest) b b' x e h m =
    let (mk, read, h') = >>=-passes (read_state_marker item.marker) _ h in
    collect-keeps rest (add_item item mk b) b' x e h' (add_item-keeps item mk b x e m)

collect-adds :
    (items : List Item) (b b' : Built) (item : Item) (x : State) (t : StateTransition)
    → collect_edges items b ≡ ok b'
    → In item items
    → Declares item x t
    → In (t, item) (edges_from b'.graph x)
unfolding collect_edges
collect-adds [] b b' item x t h m d = absurd m
collect-adds (i ∷ rest) b b' item x t h (inr m) d =
    let (mk, read, h') = >>=-passes (read_state_marker i.marker) _ h in
    collect-adds rest (add_item i mk b) b' item x t h' m d
collect-adds (i ∷ rest) b b' item x t h (inl e) d =
    let (mk, read, h') = >>=-passes (read_state_marker i.marker) _ h in
    let e' : some d.marker ≡ mk =
      let q : read_state_marker i.marker ≡ ok (some d.marker) = rw (← e) d.read in cc in
    let added : In (t, item) (edges_from (add_item i mk b).graph x) =
      subst (λ k. In (t, item) (edges_from (add_item i k b).graph x)) e'
        (subst (λ j. In (t, item) (edges_from (add_item j (some d.marker) b).graph x)) e
          (rw d.names (add_item-adds item d.marker b x d.transition d.departs))) in
    collect-keeps rest (add_item i mk b) b' x (t, item) h' added

-- A collection whose markers can all be read builds a graph whose edges out of a state are exactly
-- the collected transition tests that depart from it, each towards the state that it provides, at
-- cost 1.
pub collected_edges_iff :
    (items : List Item) (b : Built) (x : State) (e : Edge Item)
    → collect_edges items no_edges ≡ ok b
    → In e (edges_from b.graph x) ↔ (In e.1 items × Declares e.1 x e.0)
collected_edges_iff items b x e h = (
  λ m. (collect-IsBuilt items no_edges b (λ i k. k) IsBuilt-none h).declared x e m,
  λ (m, d). collect-adds items no_edges b e.1 x e.0 h m d,
)

-- The graph and the tests of a session agree, as path search and recovery need it.
pub record IsSoundGraph (g : StateGraph Item) (s : Session) : Type 0 where
  pub keyed : IsKeyed g
  pub positive : HasPositiveCosts g
  pub covered : (x : State) (e : Edge Item) → In e (edges_from g x) → candidates_of s e.0 ≢ []

pub publish-IsSoundGraph :
    (items : List Item) (b : Built) (current : State) (s : Session)
    → collect_edges items no_edges ≡ ok b
    → IsSoundGraph b.graph (publish current b s)
unfolding publish candidates_of tests_for
publish-IsSoundGraph items b current s h =
    let built = collect-IsBuilt items no_edges b (λ i k. k) IsBuilt-none h in
    record {
      keyed = built.keyed;
      positive = built.positive;
      covered = λ x e m none'. let k : In e.1 [] = rw none' at (built.listed x e m) in absurd k;
    }

pub publish-IsTracked :
    (current : State) (b : Built) (s : Session) → IsTracked (publish current b s)
unfolding publish candidates_of skipped_ids_of contains get all_skipped has_id
publish-IsTracked current b s t = elim (List-cases (or_empty (get transition_eq b.transitions t))) [
  | inl p ↦ rw p
  | inr (c, cs, p) ↦ rw p
]

-- Every collected edge has a test in the dict of the edges.
pub collected-covered :
    (items : List Item) (b : Built)
    → collect_edges items no_edges ≡ ok b
    → (x : State) (e : Edge Item) → In e (edges_from b.graph x)
    → or_empty (get transition_eq b.transitions e.0) ≢ []
unfolding tests_for
collected-covered items b h x e m none' =
    let built = collect-IsBuilt items no_edges b (λ i k. k) IsBuilt-none h in
    let k : In e.1 [] = rw none' at (built.listed x e m) in absurd k

pub collected-IsKeyed :
    (items : List Item) (b : Built) → collect_edges items no_edges ≡ ok b → IsKeyed b.graph
collected-IsKeyed items b h = (collect-IsBuilt items no_edges b (λ i k. k) IsBuilt-none h).keyed

pub collected-HasPositiveCosts :
    (items : List Item) (b : Built) → collect_edges items no_edges ≡ ok b → HasPositiveCosts b.graph
collected-HasPositiveCosts items b h =
    (collect-IsBuilt items no_edges b (λ i k. k) IsBuilt-none h).positive
