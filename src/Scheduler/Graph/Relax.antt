-- ===== src/Scheduler/Graph/Relax.antt =====
-- The relaxation of one edge keeps the invariant of the search.
use charm_integration_testin.Prelude.{
  ℕ, ◌+◌, ◌≤◌, ◌<◌, ◌≡◌, refl, sym, ◌∙◌, ap, ◌≢◌, ◌⊎◌, inl, inr, true, false, Option, none, some,
  List, [], ◌∷◌, ◌++◌, arith, In, In-append, Bool-cases,
}
use charm_integration_testin.Scheduler.State.{State, state_eq, state_eq_iff}
use charm_integration_testin.Scheduler.Graph.{
  StateTransition, Edge, StateGraph, edges_from, Entry, contains, Search, update, heappush, relax,
  le_found, lt_found,
}
use charm_integration_testin.Scheduler.Graph.Walk.{IsKeyed}
use charm_integration_testin.Scheduler.Graph.Queue.{
  IsSorted, IsDistinct, In-heappush, heappush-In, heappush-IsSorted, heappush-IsDistinct,
}
use charm_integration_testin.Scheduler.Graph.Invariant.{Inv, IsParent, IsRelaxed, update-cases}

some_eq : {a b : ℕ} {o : Option ℕ} → o ≡ some a → o ≡ some b → a ≡ b
some_eq p q = cc

module _ {A : Type 0} (g : StateGraph A) (from_state to_state : State)
    (avoid : List StateTransition) {c : ℕ} {done : List State} {e : Edge A} {todo : List (Edge A)}
    {s : Search A} (inv : Inv g from_state to_state avoid c done (e ∷ todo) s)
    (source : In (e.0).from_state done) (source_dist : s.dist (e.0).from_state ≡ some c)
    (registered : In e (edges_from g (e.0).from_state)) (usable : contains avoid e.0 ≡ false)
    (positive : 0 < (e.0).cost)
    (improves : (d : ℕ) → s.dist (e.0).to_state ≡ some d → c + (e.0).cost ≤ d) (heap : List Entry)
    (incoming : List (Edge A))
    (from_heap : (y : Entry) → In y heap → (y ≡ (c + (e.0).cost, (e.0).to_state)) ⊎ In y s.heap)
    (keeps : (y : Entry) → In y s.heap → In y heap)
    (pushed : In (c + (e.0).cost, (e.0).to_state) heap) (heap-IsSorted : IsSorted heap)
    (heap-IsDistinct : IsDistinct heap)
    (from_parents : (f : Edge A)
      → In f incoming
      → (f ≡ e) ⊎ In f (s.parents (e.0).to_state) × (s.dist (e.0).to_state ≡ some (c + (e.0).cost)))
    (some_parent : incoming ≢ []) where
  abbrev new_cost : ℕ
  new_cost = c + (e.0).cost

  abbrev n : State
  n = (e.0).to_state

  abbrev dist' : State → Option ℕ
  dist' = update s.dist n (some new_cost)

  abbrev after : Search A
  after = record { dist = dist'; parents = update s.parents n incoming; heap = heap }

  fresh : ¬ In n done
  fresh m = let (d, at, le) = inv.below n m in let i = improves d at in absurd (omega arith)

  not_start : n ≢ from_state
  not_start p = let i = improves 0 (ap s.dist p ∙ inv.start) in absurd (omega arith)

  at_n : dist' n ≡ some new_cost
  at_n = rw ((state_eq_iff n n).1 refl)

  elsewhere : (v : State) → n ≢ v → dist' v ≡ s.dist v
  elsewhere v ne = elim (update-cases s.dist n (some new_cost) v) [
    | inl (p, _) ↦ absurd (ne p)
    | inr (_, q) ↦ q
  ]

  -- An expanded state keeps its distance.
  old_dist : (v : State) → In v done → dist' v ≡ s.dist v
  old_dist v m = elsewhere v (λ p. fresh (rw p m))

  -- No distance grows.
  shrinks : (v : State) (d : ℕ) → s.dist v ≡ some d → (d' : ℕ) × (dist' v ≡ some d') × (d' ≤ d)
  shrinks v d at = elim (update-cases s.dist n (some new_cost) v) [
    | inl (p, q) ↦ (new_cost, q, improves d (ap s.dist p ∙ at))
    | inr (p, q) ↦ (d, q ∙ at, omega arith)
  ]

  old-IsParent :
      (v : State) (f : Edge A)
      → n ≢ v
      → In f (s.parents v)
      → IsParent g from_state to_state avoid done dist' v f
  old-IsParent v f p m =
      let old = inv.parents_sound v f m in
      record {
        target = old.target;
        registered = old.registered;
        usable = old.usable;
        expanded = old.expanded;
        near = old.near;
        far = old.far;
        near_dist = old_dist _ old.expanded ∙ old.near_dist;
        far_dist = elsewhere v p ∙ old.far_dist;
        tight = old.tight;
      }

  new-IsParent :
      (f : Edge A)
      → (f ≡ e) ⊎ In f (s.parents n) × (s.dist n ≡ some new_cost)
      → dist' n ≡ some new_cost
      → IsParent g from_state to_state avoid done dist' n f
  new-IsParent f (inl p) q = rw p (record {
    target = refl;
    registered = registered;
    usable = usable;
    expanded = source;
    near = c;
    far = new_cost;
    near_dist = old_dist _ source ∙ source_dist;
    far_dist = q;
    tight = refl;
  })
  new-IsParent f (inr (m, at)) q =
      let old = inv.parents_sound n f m in
      record {
        target = old.target;
        registered = old.registered;
        usable = old.usable;
        expanded = old.expanded;
        near = old.near;
        far = old.far;
        near_dist = old_dist _ old.expanded ∙ old.near_dist;
        far_dist = q ∙ sym at ∙ old.far_dist;
        tight = old.tight;
      }

  parents' :
      (v : State) (f : Edge A)
      → In f (update s.parents n incoming v)
      → IsParent g from_state to_state avoid done dist' v f
  parents' v f m = elim (Bool-cases (state_eq n v)) [
    | inl same ↦
        let p = (state_eq_iff n v).0 same in
        let m' : In f incoming = rw same at m in
        rw (← p) (new-IsParent f (from_parents f m') (rw ((state_eq_iff n n).1 refl)))
    | inr other ↦ old-IsParent v f (λ p. let t = (state_eq_iff n v).1 p in cc) (rw other at m)
  ]

  closed' :
      IsKeyed g
      → (v : State) (d : ℕ) (f : Edge A) → In v done
      → dist' v ≡ some d
      → In f (edges_from g v)
      → contains avoid f.0 ≡ false
      → In f (e ∷ todo) ⊎ IsRelaxed g from_state to_state avoid s.dist d f
      → In f todo ⊎ IsRelaxed g from_state to_state avoid dist' d f
  closed' keyed v d f m at r u (inl (inl p)) =
      let from : (f.0).from_state ≡ v = keyed v f r in
      let near : s.dist v ≡ some c =
        ap s.dist (sym from ∙ ap (λ (h : Edge A). (h.0).from_state) p) ∙ source_dist in
      let same : d ≡ c = some_eq at (old_dist v m ∙ near) in
      let cost : (f.0).cost ≡ (e.0).cost = ap (λ (h : Edge A). (h.0).cost) p in
      inr (new_cost, ap (λ (h : Edge A). dist' (h.0).to_state) p ∙ at_n, omega arith)
  closed' keyed v d f m at r u (inl (inr later)) = inl later
  closed' keyed v d f m at r u (inr (d', old, le)) =
      let (d'', new, le') = shrinks (f.0).to_state d' old in inr (d'', new, omega arith)

  relaxed : IsKeyed g → Inv g from_state to_state avoid c done todo after
  relaxed keyed = record {
    start = elim (update-cases s.dist n (some new_cost) from_state) [
      | inl (p, _) ↦ absurd (not_start p)
      | inr (_, q) ↦ q ∙ inv.start
    ];
    labelled = λ k v m. elim (from_heap (k, v) m) [
      | inl p ↦
          let le = ap (λ (y : Entry). y.0) p in
          (new_cost, ap (λ (y : Entry). dist' y.1) p ∙ at_n, omega arith)
      | inr old ↦
          let (d, at, le) = inv.labelled k v old in
          let (d', new, le') = shrinks v d at in (d', new, omega arith)
    ];
    queued = λ v d at. elim (update-cases s.dist n (some new_cost) v) [
      | inl (p, q) ↦ inr (rw (some_eq at q) (rw (← p) pushed))
      | inr (p, q) ↦ elim (inv.queued v d (sym q ∙ at)) [ inl m ↦ inl m | inr m ↦ inr (keeps _ m) ]
    ];
    below = λ v m. let (d, at, le) = inv.below v m in (d, old_dist v m ∙ at, le);
    above = λ k v m. elim (from_heap (k, v) m) [
      | inl p ↦ let q = ap (λ (y : Entry). y.0) p in omega arith
      | inr old ↦ inv.above k v old
    ];
    spent = λ v d m at here. elim (from_heap (d, v) here) [
      | inl p ↦ fresh (rw (ap (λ (y : Entry). y.1) p) at m)
      | inr old ↦ inv.spent v d m (sym (old_dist v m) ∙ at) old
    ];
    closed = λ v d f m at r u.
        closed' keyed v d f m at r u (inv.closed v d f m (sym (old_dist v m) ∙ at) r u);
    sorted = heap-IsSorted;
    distinct = heap-IsDistinct;
    target_open = inv.target_open;
    parents_sound = parents';
    parents_exist = λ v d at ne. elim (update-cases s.parents n incoming v) [
      | inl (_, q) ↦ λ h. some_parent (sym q ∙ h)
      | inr (p, q) ↦ λ h. inv.parents_exist v d (sym (elsewhere v p) ∙ at) ne (sym q ∙ h)
    ];
  }

module _ {A : Type 0} where
  cons-ne-nil : (xs : List A) (x : A) → xs ++ x ∷ [] ≢ []
  cons-ne-nil [] x = λ h. cc
  cons-ne-nil (y ∷ ys) x = λ h. cc

le_found-false : (k : ℕ) (o : Option ℕ) → le_found k o ≡ false → (d : ℕ) × (o ≡ some d) × (d < k)
le_found-false k none h = absurd (cc)
le_found-false k (some d) h = (d, refl, ground arith)

le_found-true : (k : ℕ) (o : Option ℕ) → le_found k o ≡ true → (d : ℕ) → o ≡ some d → k ≤ d
le_found-true k o h d at = ground arith

lt_found-true : (k : ℕ) (o : Option ℕ) → lt_found k o ≡ true → (d : ℕ) → o ≡ some d → k < d
lt_found-true k o h d at = ground arith

lt_found-false : (k : ℕ) (o : Option ℕ) → le_found k o ≡ true → lt_found k o ≡ false → o ≡ some k
lt_found-false k none h l = absurd (cc)
lt_found-false k (some d) h l = let e : d ≡ k = ground arith in ap some e

module _ {A : Type 0} (g : StateGraph A) (from_state to_state : State)
    (avoid : List StateTransition) (keyed : IsKeyed g) {c : ℕ} {done : List State}
    {todo : List (Edge A)} {s : Search A} (t : StateTransition) (item : A)
    (inv : Inv g from_state to_state avoid c done ((t, item) ∷ todo) s)
    (source : In t.from_state done) (source_dist : s.dist t.from_state ≡ some c)
    (registered : In (t, item) (edges_from g t.from_state)) (positive : 0 < t.cost) where
  -- An edge that is avoided, or that gives no better distance, is done with.
  unchanged :
      (contains avoid t ≡ true) ⊎ IsRelaxed g from_state to_state avoid s.dist c (t, item)
      → Inv g from_state to_state avoid c done todo s
  unchanged why = record {
    start = inv.start;
    labelled = inv.labelled;
    queued = inv.queued;
    below = inv.below;
    above = inv.above;
    spent = inv.spent;
    closed = λ v d f m at r u. elim (inv.closed v d f m at r u) [
      | inr old ↦ inr old
      | inl todo' ↦ elim todo' [
        | inr later ↦ inl later
        | inl p ↦ elim why [
          | inl avoided ↦ let q = ap (λ (h : Edge A). contains avoid h.0) p in cc
          | inr bound ↦
              let near : s.dist v ≡ some c =
                ap s.dist (sym (keyed v f r) ∙ ap (λ (h : Edge A). (h.0).from_state) p)
                ∙ source_dist in
              let same : d ≡ c = some_eq at near in
              let cost : (f.0).cost ≡ t.cost = ap (λ (h : Edge A). (h.0).cost) p in
              let (d', at', le) = bound in
              inr (d', ap (λ (h : Edge A). s.dist (h.0).to_state) p ∙ at', omega arith)
        ]
      ]
    ];
    sorted = inv.sorted;
    distinct = inv.distinct;
    target_open = inv.target_open;
    parents_sound = inv.parents_sound;
    parents_exist = inv.parents_exist;
  }

  -- The entry that a strictly better distance pushes is new.
  not_queued :
      lt_found (c + t.cost) (s.dist t.to_state) ≡ true → ¬ In (c + t.cost, t.to_state) s.heap
  not_queued lt m =
      let (d, at, le) = inv.labelled _ _ m in
      let i = lt_found-true _ (s.dist t.to_state) lt d at in absurd (omega arith)

  queued_already : s.dist t.to_state ≡ some (c + t.cost) → In (c + t.cost, t.to_state) s.heap
  queued_already at = elim (inv.queued _ _ at) [
    | inl m ↦
        let (d, at', le) = inv.below _ m in
        let same : d ≡ c + t.cost = some_eq at' at in absurd (omega arith)
    | inr m ↦ m
  ]

  -- Relaxing an edge out of an expanded state keeps the invariant.
  pub relax-Inv : Inv g from_state to_state avoid c done todo (relax avoid c (t, item) s)
  unfolding relax
  relax-Inv = elim (Bool-cases (contains avoid t)) [
    | inl avoided ↦ rw avoided (unchanged (inl avoided))
    | inr usable ↦ rw usable (elim (Bool-cases (le_found (c + t.cost) (s.dist t.to_state))) [
      | inr worse ↦
          let (d, at, lt) = le_found-false _ _ worse in
          rw worse (unchanged (inr (d, at, omega arith)))
      | inl le ↦ rw le (elim (Bool-cases (lt_found (c + t.cost) (s.dist t.to_state))) [
        | inl lt ↦ rw lt (
            relaxed g from_state to_state avoid inv source source_dist registered usable positive
              (le_found-true _ _ le) (heappush (c + t.cost, t.to_state) s.heap) ((t, item) ∷ [])
              (λ y m. In-heappush y _ s.heap m) (λ y m. heappush-In y _ s.heap (inr m))
              (heappush-In _ _ s.heap (inl refl)) (heappush-IsSorted _ s.heap inv.sorted)
              (heappush-IsDistinct _ s.heap (not_queued lt) inv.distinct)
              (λ f m. elim m [ inl p ↦ inl p | inr none' ↦ absurd none' ]) (λ h. cc) keyed)
        | inr same ↦
            let at = lt_found-false _ _ le same in
            rw same (
              relaxed g from_state to_state avoid inv source source_dist registered usable positive
                (le_found-true _ _ le) s.heap (s.parents t.to_state ++ (t, item) ∷ [])
                (λ y m. inr m) (λ y m. m) (queued_already at) inv.sorted inv.distinct
                (λ f m. elim (In-append f (s.parents t.to_state) _ m) [
                  | inl old ↦ inr (old, at)
                  | inr last ↦ elim last [ inl p ↦ inl p | inr none' ↦ absurd none' ]
                ])
                (cons-ne-nil _ _) keyed)
      ])
    ])
  ]
