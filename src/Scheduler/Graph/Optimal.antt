-- ===== src/Scheduler/Graph/Optimal.antt =====
-- `shortest_path` returns, and returns a cheapest path, or the news that there is no path.
use charm_integration_testin.Prelude.{
  ℕ, zero, suc, ◌+◌, ◌≤◌, ◌<◌, ◌≡◌, refl, sym, ◌∙◌, ap, ◌≢◌, ◌⊎◌, inl, inr, false, none, some, List,
  [], ◌∷◌, arith, In, length, ltb, Bool-cases,
}
use charm_integration_testin.Scheduler.State.{State, state_eq, state_eq_iff}
use charm_integration_testin.Scheduler.Graph.{
  StateTransition, Edge, StateGraph, edges_from, Entry, Search, Outcome, found, unreachable,
  rebuild, iteration, search_loop, shortest_path, initial, Progress, finish, continue,
}
use charm_integration_testin.Scheduler.Graph.Walk.{
  Walk, here, extend, IsPath, path_cost, IsKeyed, HasPositiveCosts,
}
use charm_integration_testin.Scheduler.Graph.Invariant.{Inv}
use charm_integration_testin.Scheduler.Graph.Rebuild.{rebuild_lem}
use charm_integration_testin.Scheduler.Graph.Rounds.{
  member, In-of-member, remaining, remaining_drop, remaining-nil, length-relax_all,
}
use charm_integration_testin.Scheduler.Graph.Pop.{top-In, top_least, drop-Inv, round-Inv}

module _ {A : Type 0} (g : StateGraph A) (from_state to_state : State)
    (avoid : List StateTransition) where
  -- No walk to the target is cheaper than `p`.
  abbrev pub IsCheapest : List (Edge A) → Type 0
  IsCheapest p = (k : ℕ) → Walk g avoid from_state to_state k → path_cost p ≤ k

  -- A path to the target that no walk undercuts, or the news that no walk arrives.
  abbrev pub IsAnswer : Outcome A → Type 0
  IsAnswer o =
      ((p : List (Edge A)) × (o ≡ found p) × IsPath g avoid from_state p to_state × IsCheapest p)
      ⊎ ((o ≡ unreachable) × ((k : ℕ) → ¬ Walk g avoid from_state to_state k))

  module _ {c : ℕ} {done : List State} {s : Search A}
      (inv : Inv g from_state to_state avoid c done [] s) where
    -- A walk ends in an expanded state no nearer than its distance, or passes an entry of the heap.
    frontier :
        {v : State} {k : ℕ}
        → Walk g avoid from_state v k
        → (In v done × ((d : ℕ) × (s.dist v ≡ some d) × (d ≤ k)))
          ⊎ ((d : ℕ) × (u : State) × In (d, u) s.heap × (d ≤ k))
    frontier here = elim (inv.queued from_state 0 inv.start) [
      | inl m ↦ inl (m, (0, inv.start, omega arith))
      | inr m ↦ inr (0, from_state, m, omega arith)
    ]
    frontier {v} {k} (extend {b = b} e w m u p q) = elim (frontier w) [
      | inr (d, x, h, le) ↦ inr (d, x, h, omega arith)
      | inl (old, (d, at, le)) ↦ elim (inv.closed b d e old at m u) [
        | inl none' ↦ absurd none'
        | inr (d', at', le') ↦
            let at'' : s.dist v ≡ some d' = ap s.dist p ∙ at' in
            elim (inv.queued v d' at'') [
              | inl new ↦ inl (new, (d', at'', omega arith))
              | inr queue ↦ inr (d', v, queue, omega arith)
            ]
      ]
    ]

    -- An empty heap: the target cannot be reached.
    unreached : s.heap ≡ [] → (k : ℕ) → ¬ Walk g avoid from_state to_state k
    unreached e k w = elim (frontier w) [
      | inl (old, _) ↦ inv.target_open old
      | inr (d, u, m, _) ↦ let m' : In {A = Entry} (d, u) [] = rw e at m in absurd m'
    ]

  module _ (rng : ℕ → ℕ → ℕ) (keyed : IsKeyed g) (positive : HasPositiveCosts g)
      (apart : from_state ≢ to_state) where
    arrived :
        {c : ℕ} {done : List State} {s : Search A} {cost : ℕ} {rest : List Entry}
        → Inv g from_state to_state avoid c done [] s
        → s.heap ≡ (cost, to_state) ∷ rest
        → IsAnswer (rebuild rng (suc cost) s.parents from_state 0 to_state [])
    arrived {s = s} {cost = cost} inv top =
        let (d, at, le) = inv.labelled cost to_state (top-In g from_state to_state avoid inv top) in
        let ge : cost ≤ d = elim (inv.queued to_state d at) [
          | inl m ↦ absurd (inv.target_open m)
          | inr m ↦ top_least g from_state to_state avoid inv top d to_state m
        ] in
        let (p, eq, ok, cost_p) =
          rebuild_lem rng g from_state to_state avoid positive inv (suc cost) 0 d to_state []
            (omega arith) at apart refl in
        inl (
          p,
          eq,
          ok,
          λ k w. elim (frontier inv w) [
            | inl (old, _) ↦ absurd (inv.target_open old)
            | inr (d', u, m, le') ↦
                let ge' = top_least g from_state to_state avoid inv top d' u m in omega arith
          ],
        )

    abbrev measure : List State → Search A → ℕ
    measure done s = length s.heap + remaining done g.edges

    -- A round ends with an answer, or goes on with the invariant and a smaller measure.
    abbrev IsRound : List State → Search A → Progress A → Type 0
    IsRound done s o =
        ((answer : Outcome A) × (o ≡ finish answer) × IsAnswer answer)
        ⊎ ((s' : Search A) × (c' : ℕ) × (done' : List State) × (o ≡ continue s')
            × Inv g from_state to_state avoid c' done' [] s'
            × (measure done' s' < measure done s))

    round :
        (heap : List Entry) (c : ℕ) (done : List State) (s : Search A)
        → s.heap ≡ heap
        → Inv g from_state to_state avoid c done [] s
        → IsRound done s (iteration rng g from_state to_state avoid heap s)
    unfolding iteration
    round [] c done s top inv = inl (unreachable, refl, inr (refl, unreached inv top))
    round ((cost, state) ∷ rest) c done s top inv =
        let shorter : length s.heap ≡ suc (length rest) = ap length top in
        elim (Bool-cases (state_eq state to_state)) [
          | inl same ↦
              let q = (state_eq_iff state to_state).0 same in
              rw same (inl (_, refl, arrived inv (top ∙ ap (λ (v : State). (cost, v) ∷ rest) q)))
          | inr other ↦
              let away : to_state ≢ state =
                λ q. let t = (state_eq_iff state to_state).1 (sym q) in cc in
              let (d, at, le) =
                inv.labelled cost state (top-In g from_state to_state avoid inv top) in
              rw (other, at)
                (elim (Bool-cases (ltb d cost)) [
                  | inl stale ↦ rw stale (
                      inr (
                        _,
                        c,
                        done,
                        refl,
                        drop-Inv g from_state to_state avoid inv top d at (ground arith),
                        omega arith,
                      ))
                  | inr current ↦
                      let same : d ≡ cost = ground arith in
                      let at' : s.dist state ≡ some cost = at ∙ ap some same in
                      let new : member done state ≡ false = elim (Bool-cases (member done state)) [
                        | inl old ↦ absurd (
                            inv.spent state cost (In-of-member done state old) at'
                              (top-In g from_state to_state avoid inv top))
                        | inr new ↦ new
                      ] in
                      let used = remaining_drop done state g.edges new in
                      let pushed =
                        length-relax_all avoid cost (edges_from g state)
                          (record s { heap = rest }) in
                      rw current (
                        inr (
                          _,
                          cost,
                          state ∷ done,
                          refl,
                          round-Inv g from_state to_state avoid inv top at' away keyed positive,
                          omega arith,
                        ))
                ])
        ]

    search_answers :
        (fuel c : ℕ) (done : List State) (s : Search A)
        → measure done s < fuel
        → Inv g from_state to_state avoid c done [] s
        → IsAnswer (search_loop rng g from_state to_state avoid fuel s)
    unfolding search_loop
    search_answers zero c done s h inv = absurd (omega arith)
    search_answers (suc fuel) c done s h inv = elim (round s.heap c done s refl inv) [
      | inl (o, e, answer) ↦ rw (e, search_loop) answer
      | inr (s', c', done', e, inv', less) ↦
          rw (e, search_loop) (search_answers fuel c' done' s' (omega arith) inv')
    ]

    initial-Inv : Inv g from_state to_state avoid 0 [] [] (initial rng g from_state to_state avoid)
    initial-Inv = record {
      start = rw ((state_eq_iff from_state from_state).1 refl);
      labelled = λ k v m. elim m [
        | inl p ↦
            let e : from_state ≡ v = ap (λ (y : Entry). y.1) (sym p) in
            (0, rw ((state_eq_iff from_state v).1 e), omega arith)
        | inr none' ↦ absurd none'
      ];
      queued = λ v d at. elim (Bool-cases (state_eq from_state v)) [
        | inl same ↦
            let z : d ≡ 0 = let t : some 0 ≡ some d = rw same at at in cc in
            inr (inl (rw (z, (state_eq_iff from_state v).0 same)))
        | inr other ↦ let t : none ≡ some d = rw other at at in absurd (cc)
      ];
      below = λ v m. absurd m;
      above = λ k v m. omega arith;
      spent = λ v d m at here. absurd m;
      closed = λ v d e m at r u. absurd m;
      sorted = (λ y m. absurd m, tt);
      distinct = (λ m. m, tt);
      target_open = λ m. m;
      parents_sound = λ v e m. absurd m;
      parents_exist = λ v d at ne h. elim (Bool-cases (state_eq from_state v)) [
        | inl same ↦ ne ((state_eq_iff from_state v).0 same)
        | inr other ↦ let t : none ≡ some d = rw other at at in cc
      ];
    }

-- On a graph whose edges are filed under their sources and have positive costs, whatever
-- `random.choice` draws, `shortest_path` returns: either a path of usable edges from `from_state` to
-- `to_state` that no walk over usable edges undercuts, or `None`, and then no walk arrives.
pub shortest_path-IsAnswer :
    {A : Type 0} (rng : ℕ → ℕ → ℕ) (g : StateGraph A) (from_state to_state : State)
    (avoid : List StateTransition)
    → IsKeyed g
    → HasPositiveCosts g
    → IsAnswer g from_state to_state avoid (shortest_path rng g from_state to_state avoid)
unfolding shortest_path
shortest_path-IsAnswer rng g from_state to_state avoid keyed positive =
    elim (Bool-cases (state_eq from_state to_state)) [
      | inl same ↦
          rw same (inl ([], refl, (state_eq_iff from_state to_state).0 same, λ k w. omega arith))
      | inr other ↦
          let apart : from_state ≢ to_state =
            λ e. let t = (state_eq_iff from_state to_state).1 e in cc in
          rw other (
            search_answers g from_state to_state avoid rng keyed positive apart _ 0 [] _
              (omega (arith, remaining-nil g.edges))
              (initial-Inv g from_state to_state avoid rng keyed positive apart))
    ]
