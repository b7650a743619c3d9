-- ===== src/Scheduler/Recovery/Cheapest.antt =====
-- `_shortest_path_to_any` returns the cheapest way to any of the targets.
use charm_integration_testin.Prelude.{
  ℕ, ◌≤◌, ◌<◌, ◌≡◌, refl, ◌⊎◌, inl, inr, Option, none, some, List, [], ◌∷◌, arith, In, ltb, ltb→lt,
  ltb-ge, Bool-cases,
}
use charm_integration_testin.Scheduler.State.{State}
use charm_integration_testin.Scheduler.Graph.{
  StateTransition, Edge, StateGraph, Outcome, found, unreachable,
}
use charm_integration_testin.Scheduler.Graph.Walk.{
  Walk, IsPath, path_cost, IsKeyed, HasPositiveCosts,
}
use charm_integration_testin.Scheduler.Graph.Optimal.{shortest_path-IsAnswer}
use charm_integration_testin.Scheduler.Recovery.{
  best_outcome, better, any_loop, shortest_path_to_any,
}

module _ {A : Type 0} (g : StateGraph A) (from_state : State) (avoid : List StateTransition) where
  -- For targets `P`: a path to one of them that no walk to any of them undercuts, or no walk arrives.
  abbrev IsBest : (State → Type 0) → Outcome A → Type 0
  IsBest P o =
      ((p : List (Edge A)) × (o ≡ found p)
        × ((t : State) × P t × IsPath g avoid from_state p t)
        × ((t : State) (k : ℕ) → P t → Walk g avoid from_state t k → path_cost p ≤ k))
      ⊎ ((o ≡ unreachable) × ((t : State) (k : ℕ) → P t → ¬ Walk g avoid from_state t k))

  abbrev pub IsAnyAnswer : List State → Outcome A → Type 0
  IsAnyAnswer targets o = IsBest (λ t. In t targets) o

  IsBest-iff :
      {P Q : State → Type 0} (o : Outcome A)
      → ((t : State) → P t → Q t)
      → ((t : State) → Q t → P t)
      → IsBest P o
      → IsBest Q o
  IsBest-iff o f h (inl (p, e, (t, m, ok), least)) =
      inl (p, e, (t, f t m, ok), λ t' k m' w. least t' k (h t' m') w)
  IsBest-iff o f h (inr (e, no_walk)) = inr (e, λ t k m. no_walk t k (h t m))

  IsBest-found :
      {P : State → Type 0} (best : Option (List (Edge A))) {t : State} (p : List (Edge A))
      → IsBest P (best_outcome best)
      → IsPath g avoid from_state p t
      → ((k : ℕ) → Walk g avoid from_state t k → path_cost p ≤ k)
      → IsBest (λ x. (x ≡ t) ⊎ P x) (best_outcome (better best p))
  IsBest-found none {t} p (inl (q, e, _, _)) ok least = absurd (cc)
  IsBest-found none {t} p (inr (e, no_walk)) ok least = inl (
    p,
    refl,
    (t, inl refl, ok),
    λ x k m w. elim m [ inl same ↦ least k (rw same at w) | inr old ↦ absurd (no_walk x k old w) ],
  )
  IsBest-found (some b) p (inr (e, _)) ok least = absurd (cc)
  IsBest-found (some b) {t} p (inl (q, e, (x, m, old), least_q)) ok least =
      let same : b ≡ q = cc in
      elim (Bool-cases (ltb (path_cost p) (path_cost b))) [
        | inl lt ↦
            let lt' : path_cost p < path_cost q = rw (← same) (ltb→lt _ _ lt) in
            rw lt (
              inl (
                p,
                refl,
                (t, inl refl, ok),
                λ x k m' w. elim m' [
                  | inl e' ↦ least k (rw e' at w)
                  | inr old' ↦ let i = least_q x k old' w in omega arith
                ],
              ))
        | inr ge ↦
            let ge' : path_cost q ≤ path_cost p = rw (← same) (ltb-ge _ _ ge) in
            rw ge (
              inl (
                b,
                refl,
                (x, inr m, rw same old),
                λ x k m' w. elim m' [
                  | inl e' ↦ let i = least k (rw e' at w) in rw same (omega arith)
                  | inr old' ↦ rw same (least_q x k old' w)
                ],
              ))
      ]

  IsBest-unreachable :
      {P : State → Type 0} (o : Outcome A) {t : State}
      → IsBest P o
      → ((k : ℕ) → ¬ Walk g avoid from_state t k)
      → IsBest (λ x. (x ≡ t) ⊎ P x) o
  IsBest-unreachable o (inl (p, e, (x, m, ok), least)) no_walk = inl (
    p,
    e,
    (x, inr m, ok),
    λ y k m' w. elim m' [
      | inl same ↦ absurd (no_walk k (rw same at w))
      | inr old ↦ least y k old w
    ],
  )
  IsBest-unreachable o (inr (e, none_before)) no_walk = inr (
    e,
    λ y k m' w. elim m' [ inl same ↦ no_walk k (rw same at w) | inr old ↦ none_before y k old w ],
  )

  module _ (rng : State → ℕ → ℕ → ℕ) (keyed : IsKeyed g) (positive : HasPositiveCosts g) where
    any_loop_lem :
        {P : State → Type 0} (targets : List State) (best : Option (List (Edge A)))
        → IsBest P (best_outcome best)
        → IsBest (λ x. In x targets ⊎ P x) (any_loop rng g from_state avoid targets best)
    unfolding any_loop
    any_loop_lem [] best h =
        IsBest-iff (best_outcome best) (λ t m. inr m)
          (λ t m. elim m [ inl none' ↦ absurd none' | inr m' ↦ m' ]) h
    any_loop_lem {P} (t ∷ rest) best h =
        elim (shortest_path-IsAnswer (rng t) g from_state t avoid keyed positive) [
          | inl (p, e, ok, least) ↦
              rw (e, any_loop)
                (IsBest-iff _ regroup ungroup
                  (any_loop_lem rest (better best p) (IsBest-found best p h ok least)))
          | inr (e, no_walk) ↦
              rw (e, any_loop)
                (IsBest-iff _ regroup ungroup
                  (any_loop_lem rest best (IsBest-unreachable (best_outcome best) h no_walk)))
        ]
      where
        regroup : (x : State) → In x rest ⊎ ((x ≡ t) ⊎ P x) → In x (t ∷ rest) ⊎ P x
        regroup x (inl m) = inl (inr m)
        regroup x (inr (inl m)) = inl (inl m)
        regroup x (inr (inr m)) = inr m

        ungroup : (x : State) → In x (t ∷ rest) ⊎ P x → In x rest ⊎ ((x ≡ t) ⊎ P x)
        ungroup x (inl (inl m)) = inr (inl m)
        ungroup x (inl (inr m)) = inl m
        ungroup x (inr m) = inr (inr m)

    -- Whatever is drawn, `_shortest_path_to_any` returns: a path of usable edges to one of the
    -- targets that no walk to any of them undercuts, or None, and then no walk reaches any.
    pub shortest_path_to_any-IsAnyAnswer :
        (targets : List State)
        → IsAnyAnswer targets (shortest_path_to_any rng g from_state avoid targets)
    unfolding shortest_path_to_any
    shortest_path_to_any-IsAnyAnswer targets =
        IsBest-iff _ (λ t m. elim m [ inl m' ↦ m' | inr none' ↦ absurd none' ]) (λ t m. inl m)
          (any_loop_lem {P = λ t. ⊥} targets none (inr (refl, λ t k none' w. none')))
