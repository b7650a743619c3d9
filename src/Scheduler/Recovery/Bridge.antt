-- ===== src/Scheduler/Recovery/Bridge.antt =====
-- The bridge that `_find_recovery_bridge` builds: a cheapest path, over tests that did not skip.
use charm_integration_testin.Prelude.{
  ℕ, ◌≤◌, ◌≡◌, ◌≢◌, refl, sym, ap, ◌∙◌, ◌⊎◌, inl, inr, false, Option, none, some, List, [], ◌∷◌,
  ◌++◌, Bool-cases, List-cases, In, subst, ◌||◌, append_assoc, append-nil,
}
use charm_integration_testin.Scheduler.State.{State}
use charm_integration_testin.Scheduler.Graph.{
  StateTransition, Edge, StateGraph, edges_from, Outcome, found, unreachable,
}
use charm_integration_testin.Scheduler.Graph.Walk.{
  Walk, IsPath, path_cost, IsKeyed, HasPositiveCosts,
}
use charm_integration_testin.Scheduler.Item.{
  Item, Identities, has_id, mark_as_injected, label_occurrence,
}
use charm_integration_testin.Scheduler.Session.{Session, candidates_of, skipped_ids_of, all_skipped}
use charm_integration_testin.Scheduler.Session.Skips.{IsTracked, exhausted}
use charm_integration_testin.Scheduler.Session.Safety.{SameBeliefs}
use charm_integration_testin.Scheduler.Recovery.{
  first_untried, recovered, bridge_item, bridge_loop, shortest_path_to_any, find_recovery_bridge,
}
use charm_integration_testin.Scheduler.Recovery.Cheapest.{shortest_path_to_any-IsAnyAnswer}

-- A bridge item for an edge has the marker of a test for that edge that did not skip.
pub record IsCopy (s : Session) (t : StateTransition) (item : Item) : Type 0 where
  pub template : Item
  pub candidate : In template (candidates_of s t)
  pub untried : has_id (skipped_ids_of s t) template.ident ≡ false
  pub same_marker : item.marker ≡ template.marker

abbrev pub AreCopies : Session → List (Edge Item) → List Item → Type 0
AreCopies s [] [] = Unit
AreCopies s [] (i ∷ is) = ⊥
AreCopies s (e ∷ p) [] = ⊥
AreCopies s (e ∷ p) (i ∷ is) = IsCopy s e.0 i × AreCopies s p is

first_untried-In :
    (ids : List ℕ) (default : Item) (cs : List Item)
    → all_skipped ids cs ≡ false
    → In (first_untried ids default cs) cs
      × (has_id ids (first_untried ids default cs).ident ≡ false)
unfolding first_untried all_skipped
first_untried-In ids default [] h = absurd (cc)
first_untried-In ids default (c ∷ cs) h = elim (Bool-cases (has_id ids c.ident)) [
  | inl p ↦
      let (m, q) = first_untried-In ids default cs (rw p at h) in
      let e : first_untried ids default (c ∷ cs) ≡ first_untried ids default cs = rw p in
      subst (λ x. In x (c ∷ cs) × (has_id ids x.ident ≡ false)) (sym e) (inr m, q)
  | inr p ↦
      let e : first_untried ids default (c ∷ cs) ≡ c = rw p in
      subst (λ x. In x (c ∷ cs) × (has_id ids x.ident ≡ false)) (sym e) (inl refl, p)
]

marker-mark : (item : Item) (ids : Identities) → (mark_as_injected item ids).0.marker ≡ item.marker
unfolding mark_as_injected
marker-mark item ids =
    elim (Bool-cases (has_id ids.injected_item_ids item.ident || item.injected)) [
      | inl p ↦ rw p
      | inr p ↦ rw p
    ]

SameBeliefs-refl : (s : Session) → SameBeliefs s s
SameBeliefs-refl s = record {
  same_state = refl;
  same_failed = refl;
  same_skips = refl;
  same_avoided = refl;
  same_tests = refl;
  same_graph = refl;
}

module _ (skipped : List ℕ) (c : Item) (cs : List Item) (s : Session) where
  abbrev result : Item × Session
  result = bridge_item skipped c cs s

  marker-bridge_item : result.0.marker ≡ (first_untried skipped c (c ∷ cs)).marker
  unfolding bridge_item label_occurrence
  marker-bridge_item =
      let copy = recovered (first_untried skipped c (c ∷ cs)) s in marker-mark copy.0 copy.1

  bridge_item-SameBeliefs : SameBeliefs s result.1
  unfolding bridge_item
  bridge_item-SameBeliefs = record {
    same_state = refl;
    same_failed = refl;
    same_skips = refl;
    same_avoided = refl;
    same_tests = refl;
    same_graph = refl;
  }

  bridge_item-candidates : (t : StateTransition) → candidates_of result.1 t ≡ candidates_of s t
  unfolding bridge_item candidates_of
  bridge_item-candidates t = refl

  bridge_item-skipped_ids : (t : StateTransition) → skipped_ids_of result.1 t ≡ skipped_ids_of s t
  unfolding bridge_item skipped_ids_of
  bridge_item-skipped_ids t = refl

SameBeliefs-trans : {a b c : Session} → SameBeliefs a b → SameBeliefs b c → SameBeliefs a c
SameBeliefs-trans h k = record {
  same_state = k.same_state ∙ h.same_state;
  same_failed = k.same_failed ∙ h.same_failed;
  same_skips = k.same_skips ∙ h.same_skips;
  same_avoided = k.same_avoided ∙ h.same_avoided;
  same_tests = k.same_tests ∙ h.same_tests;
  same_graph = k.same_graph ∙ h.same_graph;
}

-- Whether or not it ends with a bridge, the loop leaves the beliefs as they are.
bridge_loop-SameBeliefs :
    (path : List (Edge Item)) (built : List Item) (s : Session)
    → SameBeliefs s (bridge_loop path built s).1
unfolding bridge_loop
bridge_loop-SameBeliefs [] built s = SameBeliefs-refl s
bridge_loop-SameBeliefs ((t, graph_item) ∷ path) built s = elim (List-cases (candidates_of s t)) [
  | inl none' ↦ rw (none', bridge_loop) (SameBeliefs-refl s)
  | inr (c, cs, some') ↦
      rw (some', bridge_loop)
        (SameBeliefs-trans (bridge_item-SameBeliefs (skipped_ids_of s t) c cs s)
          (bridge_loop-SameBeliefs path _ _))
]

-- What recovery injects changes nothing that the other hooks read.
pub find_recovery_bridge-SameBeliefs :
    (rng : State → ℕ → ℕ → ℕ) (g : StateGraph Item) (from_state : State) (to_states : List State)
    (s : Session)
    → SameBeliefs s (find_recovery_bridge rng g from_state to_states s).1
unfolding find_recovery_bridge
find_recovery_bridge-SameBeliefs rng g from_state to_states s =
    go (shortest_path_to_any rng g from_state s.skipped_transitions to_states) refl
  where
    go :
        (o : Outcome Item)
        → shortest_path_to_any rng g from_state s.skipped_transitions to_states ≡ o
        → SameBeliefs s (find_recovery_bridge rng g from_state to_states s).1
    go (found p) e = rw (e, find_recovery_bridge) (bridge_loop-SameBeliefs p [] s)
    go unreachable e = rw (e, find_recovery_bridge) (SameBeliefs-refl s)
    go _ e = rw (e, find_recovery_bridge) (SameBeliefs-refl s)

-- The edges of the path each have a test that did not skip.
abbrev HasTests : Session → List (Edge Item) → Type 0
HasTests s [] = Unit
HasTests s (e ∷ p) = (candidates_of s e.0 ≢ []) × (exhausted s e.0 ≡ false) × HasTests s p

unexhausted :
    (s : Session) (t : StateTransition)
    → candidates_of s t ≢ []
    → exhausted s t ≡ false
    → all_skipped (skipped_ids_of s t) (candidates_of s t) ≡ false
unexhausted s t ne h = elim (List-cases (candidates_of s t)) [
  | inl none' ↦ absurd (ne none')
  | inr (c, cs, some') ↦ rw some' (rw some' at h)
]

bridge_loop_lem :
    (s₀ : Session) (p : List (Edge Item)) (built : List Item) (s : Session)
    → ((t : StateTransition) → candidates_of s t ≡ candidates_of s₀ t)
    → ((t : StateTransition) → skipped_ids_of s t ≡ skipped_ids_of s₀ t)
    → HasTests s₀ p
    → (items : List Item) × ((bridge_loop p built s).0 ≡ some (built ++ items))
      × AreCopies s₀ p items
unfolding bridge_loop
bridge_loop_lem s₀ [] built s f g h = ([], rw (append-nil built), tt)
bridge_loop_lem s₀ ((t, graph_item) ∷ p) built s f g h = elim (List-cases (candidates_of s t)) [
  | inl none' ↦ absurd (h.0 (sym (f t) ∙ none'))
  | inr (c, cs, some') ↦
      let ids = skipped_ids_of s t in
      let here : candidates_of s₀ t ≡ c ∷ cs = sym (f t) ∙ some' in
      let left : all_skipped ids (c ∷ cs) ≡ false = rw (g t, ← here) (unexhausted s₀ t h.0 h.1) in
      let (m, untried) = first_untried-In ids c (c ∷ cs) left in
      let item = (bridge_item ids c cs s).0 in
      let (items, e, copies) =
        bridge_loop_lem s₀ p (built ++ item ∷ []) (bridge_item ids c cs s).1
          (λ u. bridge_item-candidates ids c cs s u ∙ f u)
          (λ u. bridge_item-skipped_ids ids c cs s u ∙ g u) h.2 in
      (
        item ∷ items,
        rw (some', bridge_loop) (e ∙ ap some (append_assoc built (item ∷ []) items)),
        (
          record {
            template = first_untried ids c (c ∷ cs);
            candidate = subst (λ xs. In (first_untried ids c (c ∷ cs)) xs) (sym here) m;
            untried =
                subst (λ xs. has_id xs (first_untried ids c (c ∷ cs)).ident ≡ false) (g t) untried;
            same_marker = marker-bridge_item ids c cs s;
          },
          copies,
        ),
      )
]

module _ (g : StateGraph Item) (from_state : State) (to_states : List State) (s : Session) where
  -- A way to one of the states that avoids the edges given up, cheapest among all such ways, with a
  -- copy of a test that did not skip for each of its edges; or None, and there is no such way.
  abbrev pub IsBridge : Option (List Item) → Type 0
  IsBridge o =
      ((items : List Item) × (p : List (Edge Item)) × (o ≡ some items)
        × AreCopies s p items
        × ((t : State) × In t to_states × IsPath g s.skipped_transitions from_state p t)
        × ((t : State) (k : ℕ)
            → In t to_states
            → Walk g s.skipped_transitions from_state t k
            → path_cost p ≤ k))
      ⊎ ((o ≡ none)
          × ((t : State) (k : ℕ) → In t to_states → ¬ Walk g s.skipped_transitions from_state t k))

module _ (rng : State → ℕ → ℕ → ℕ) (g : StateGraph Item) (from_state : State)
    (to_states : List State) (s : Session) (tracked : IsTracked s)
    (covered : (x : State) (e : Edge Item) → In e (edges_from g x) → candidates_of s e.0 ≢ []) where
  IsPath-HasTests :
      (t x : State) (p : List (Edge Item)) → IsPath g s.skipped_transitions x p t → HasTests s p
  IsPath-HasTests t x [] ok = tt
  IsPath-HasTests t x (e ∷ p) ok =
      (covered x e ok.1, sym (tracked e.0) ∙ ok.2, IsPath-HasTests t (e.0).to_state p ok.3)

  -- The bridge that recovery finds is a bridge as above, whatever is drawn.
  pub find_recovery_bridge-IsBridge :
      IsKeyed g
      → HasPositiveCosts g
      → IsBridge g from_state to_states s (find_recovery_bridge rng g from_state to_states s).0
  unfolding find_recovery_bridge
  find_recovery_bridge-IsBridge keyed positive =
      elim (shortest_path_to_any-IsAnyAnswer g from_state s.skipped_transitions rng keyed positive
        to_states) [
          | inl (p, e, (t, m, ok), least) ↦
              let (items, built, copies) =
                bridge_loop_lem s p [] s (λ u. refl) (λ u. refl)
                  (IsPath-HasTests t from_state p ok) in
              rw (e, find_recovery_bridge) (inl (items, p, built, copies, (t, m, ok), least))
          | inr (e, no_walk) ↦ rw (e, find_recovery_bridge) (inr (refl, no_walk))
        ]
