-- ===== src/Scheduler/Graph/Rebuild.antt =====
-- The walk back over the parents ends, and gives a path whose cost is the distance.
use charm_integration_testin.Prelude.{
  ℕ, zero, suc, ◌+◌, ◌<◌, ◌≡◌, refl, sym, ◌∙◌, ap, ◌≢◌, inl, inr, Option, some, List, [], ◌∷◌,
  arith, In, get_elem?-In, Bool-cases,
}
use charm_integration_testin.Scheduler.State.{State, state_eq, state_eq_iff}
use charm_integration_testin.Scheduler.Graph.{
  StateTransition, Edge, StateGraph, Search, Outcome, found, choice, rebuild,
}
use charm_integration_testin.Scheduler.Graph.Walk.{IsPath, path_cost, HasPositiveCosts}
use charm_integration_testin.Scheduler.Graph.Invariant.{Inv}

pub some_eq : {a b : ℕ} {o : Option ℕ} → o ≡ some a → o ≡ some b → a ≡ b
some_eq p q = cc

module _ {A : Type 0} (rng : ℕ → ℕ → ℕ) where
  choice-In :
      (k : ℕ) (xs : List (Edge A)) → xs ≢ [] → (e : Edge A) × (choice rng k xs ≡ some e) × In e xs
  unfolding choice
  choice-In k [] ne = absurd (ne refl)
  choice-In k (x ∷ xs) ne = get_elem?-In (x ∷ xs) _ (omega arith)

module _ {A : Type 0} (rng : ℕ → ℕ → ℕ) (g : StateGraph A) (from_state to_state : State)
    (avoid : List StateTransition) (positive : HasPositiveCosts g) {c : ℕ} {done : List State}
    {todo : List (Edge A)} {s : Search A}
    (inv : Inv g from_state to_state avoid c done todo s) where
  -- A path from the start, that was prolonged backwards from `path` at distance `d`.
  abbrev IsRebuilt : Outcome A → ℕ → List (Edge A) → Type 0
  IsRebuilt o d path =
      (p : List (Edge A)) × (o ≡ found p)
      × IsPath g avoid from_state p to_state
      × (path_cost p ≡ d + path_cost path)

  pub rebuild_lem :
      (fuel k d : ℕ) (v : State) (path : List (Edge A))
      → d < fuel
      → s.dist v ≡ some d
      → from_state ≢ v
      → IsPath g avoid v path to_state
      → IsRebuilt (rebuild rng fuel s.parents from_state k v path) d path
  unfolding rebuild
  rebuild_lem zero k d v path h at ne ok = absurd (omega arith)
  rebuild_lem (suc fuel) k d v path h at ne ok =
      let (e, chosen, m) = choice-In rng k (s.parents v) (inv.parents_exist v d at ne) in
      let p = inv.parents_sound v e m in
      let far : p.far ≡ d = some_eq p.far_dist at in
      let pos = positive (e.0).from_state e p.registered in
      let tight = p.tight in
      let step : IsPath g avoid (e.0).from_state (e ∷ path) to_state =
        (refl, p.registered, p.usable, rw p.target ok) in
      rw (chosen, rebuild)
        (elim (Bool-cases (state_eq (e.0).from_state from_state)) [
          | inl same ↦
              let q = (state_eq_iff _ from_state).0 same in
              let near : p.near ≡ 0 = some_eq p.near_dist (ap s.dist q ∙ inv.start) in
              rw same (e ∷ path, refl, rw (← q) step, omega arith)
          | inr other ↦
              let ne' : from_state ≢ (e.0).from_state =
                λ q. let t = (state_eq_iff _ from_state).1 (sym q) in cc in
              let (r, eq, path_ok, cost) =
                rebuild_lem fuel (k + 1) p.near (e.0).from_state (e ∷ path) (omega arith)
                  p.near_dist ne' step in
              rw other (r, eq, path_ok, omega arith)
        ])
