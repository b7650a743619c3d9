-- ===== src/Registry/Forest.antt =====
-- The children of a resource stand below it, and a teardown ends.
use charm_integration_testin.Prelude.{
  ℕ, zero, suc, ◌<◌, ◌≡◌, refl, ◌∙◌, subst, inl, inr, true, false, String, str_eq, eq_iff, Option,
  none, some, List, [], ◌∷◌, arith, In, Bool-cases, Option-cases,
}
use charm_integration_testin.Prelude.Dict.{get, get-put}
use charm_integration_testin.Registry.{
  ResourceHandle, ResourceEntry, ResourceRegistry, remove, without, ids_or_none, child_ids,
  set_entry, make_roots, keep_siblings, leave_parent, deregister, is_registered,
}
use charm_integration_testin.Registry.Teardown.{
  After, run_collectors, all_collectors, mark_collected, collect_logs, finish, teardown_child,
  teardown_children, unless_raised, teardown,
}
use charm_integration_testin.Registry.Presence.{get-remove, teardown-unregistered}

abbrev Listed : List (String × List String) → String → String → Type 0
Listed children p id = In id (ids_or_none (get str_eq children p))

In-without : (l : List String) (k x : String) → In x (without l k) → In x l
unfolding without
In-without [] k x m = m
In-without (y ∷ l) k x m = elim (Bool-cases (str_eq y k)) [
  | inl p ↦ inr (In-without l k x (rw p at m))
  | inr p ↦
      let m' : In x (y ∷ without l k) = rw p at m in
      elim m' [ inl e ↦ inl e | inr rest ↦ inr (In-without l k x rest) ]
]

Listed-remove :
    (children : List (String × List String)) (k p id : String)
    → Listed (remove children k) p id
    → Listed children p id
Listed-remove children k p id m = elim (Bool-cases (str_eq k p)) [
  | inl q ↦ let m' : In id [] = rw (get-remove children k p, q) at m in absurd m'
  | inr q ↦ rw (get-remove children k p, q) at m
]

Listed-keep_siblings :
    (children : List (String × List String)) (k : String) (siblings : List String) (p id : String)
    → ((x : String) → In x siblings → Listed children k x)
    → Listed (keep_siblings k siblings children) p id
    → Listed children p id
Listed-keep_siblings children k [] p id sub m = Listed-remove children k p id m
Listed-keep_siblings children k (s ∷ ss) p id sub m = elim (Bool-cases (str_eq k p)) [
  | inl q ↦
      let m' : In id (s ∷ ss) = rw (get-put str_eq eq_iff children k p (s ∷ ss), q) at m in
      subst (λ y. Listed children y id) ((eq_iff k p).0 q) (sub id m')
  | inr q ↦ rw (get-put str_eq eq_iff children k p (s ∷ ss), q) at m
]

module _ {W E : Type 0} (height : String → ℕ) where
  -- Entries stand under their own ids, and children below their parents.
  pub record IsForest (r : ResourceRegistry W E) : Type 0 where
    pub keyed :
        (id : String) (e : ResourceEntry W E)
        → get str_eq r.entries id ≡ some e
        → e.handle.resource_id ≡ id
    pub lower : (p id : String) → In id (child_ids r p) → height id < height p

  set_entry-IsForest :
      (r : ResourceRegistry W E) (id : String) (e : ResourceEntry W E)
      → e.handle.resource_id ≡ id
      → IsForest r
      → IsForest (set_entry id e r)
  set_entry-IsForest r id e own f = record {
    keyed = λ j x h. elim (Bool-cases (str_eq id j)) [
      | inl q ↦
          let h' : some e ≡ some x = rw (get-put str_eq eq_iff r.entries id j e, q) at h in
          let same : e ≡ x = cc in
          subst (λ (y : ResourceEntry W E). y.handle.resource_id ≡ j) same (own ∙ (eq_iff id j).0 q)
      | inr q ↦
          let h' : get str_eq r.entries j ≡ some x =
            rw (get-put str_eq eq_iff r.entries id j e, q) at h in
          f.keyed j x h'
    ];
    lower = f.lower;
  }

  make_roots-IsForest :
      (ids : List String) (r : ResourceRegistry W E) → IsForest r → IsForest (make_roots ids r)
  unfolding make_roots
  make_roots-IsForest [] r f = f
  make_roots-IsForest (id ∷ ids) r f =
      make_roots-IsForest ids _ (elim (Option-cases (get str_eq r.entries id)) [
        | inl p ↦ rw p f
        | inr (e, p) ↦
            rw p (set_entry-IsForest r id (record e { parent_id = none }) (f.keyed id e p) f)
      ])

  leave_parent-IsForest :
      (parent : Option String) (id : String) (r : ResourceRegistry W E)
      → IsForest r
      → IsForest (leave_parent parent id r)
  leave_parent-IsForest none id r f = f
  leave_parent-IsForest (some p) id r f = elim (Option-cases (get str_eq r.children p)) [
    | inl q ↦ rw q f
    | inr (siblings, q) ↦ rw q (record {
      keyed = f.keyed;
      lower = λ j x m. f.lower j x (
          Listed-keep_siblings r.children p (without siblings id) j x
            (λ y n. rw q (In-without siblings id y n)) m);
    })
  ]

  deregister-IsForest :
      (h : ResourceHandle) (r : ResourceRegistry W E) → IsForest r → IsForest (deregister h r)
  unfolding deregister
  deregister-IsForest h r f = elim (Option-cases (get str_eq r.entries h.resource_id)) [
    | inl p ↦ rw p f
    | inr (e, p) ↦
        let removed : IsForest (record r {
          entries = remove r.entries h.resource_id;
          children = remove r.children h.resource_id;
        }) =
          record {
            keyed = λ j x k. elim (Bool-cases (str_eq h.resource_id j)) [
              | inl q ↦
                  let k' : none ≡ some x = rw (get-remove r.entries h.resource_id j, q) at k in
                  absurd (cc)
              | inr q ↦ f.keyed j x (rw (get-remove r.entries h.resource_id j, q) at k)
            ];
            lower = λ j x m. f.lower j x (Listed-remove r.children h.resource_id j x m);
          } in
        rw p (
          leave_parent-IsForest e.parent_id h.resource_id _
            (make_roots-IsForest (child_ids r h.resource_id) _ removed))
  ]

  mark_collected-IsForest :
      (h : ResourceHandle) (e : ResourceEntry W E) (r : ResourceRegistry W E) (o : W × Option E)
      → e.handle.resource_id ≡ h.resource_id
      → IsForest r
      → IsForest (mark_collected h e r o).registry
  mark_collected-IsForest h e r (w, none) own f =
      set_entry-IsForest r h.resource_id (record e { logs_collected = true }) own f
  mark_collected-IsForest h e r (w, some x) own f = f

  collect_logs-IsForest :
      (h : ResourceHandle) (r : ResourceRegistry W E) (w : W)
      → IsForest r
      → IsForest (collect_logs h r w).registry
  unfolding collect_logs
  collect_logs-IsForest h r w f = elim (Option-cases (get str_eq r.entries h.resource_id)) [
    | inl p ↦ rw p f
    | inr (e, p) ↦ rw p (
        mark_collected-IsForest h e r (run_collectors h (all_collectors r e h) w)
          (f.keyed h.resource_id e p) f)
  ]

  finish-IsForest :
      (h : ResourceHandle) (e : ResourceEntry W E) (r : ResourceRegistry W E) (w : W)
      → IsForest r
      → IsForest (finish h e r w).registry
  unfolding finish
  finish-IsForest h e r w f = elim (Bool-cases e.logs_collected) [
    | inl p ↦ rw p (deregister-IsForest h r f)
    | inr p ↦ rw p (deregister-IsForest h _ (collect_logs-IsForest h r w f))
  ]

  -- The call returns, and leaves a forest.
  abbrev pub Returns : Option (After W E) → Type 0
  Returns o = (a : After W E) × (o ≡ some a) × IsForest a.registry

  child-Returns :
      (fuel : ℕ) (id : String) (r : ResourceRegistry W E) (w : W)
      → ((h : ResourceHandle) (r : ResourceRegistry W E) (w : W)
          → height h.resource_id < fuel
          → IsForest r
          → Returns (teardown fuel h r w))
      → height id < fuel
      → IsForest r
      → Returns (teardown_child (teardown fuel) (get str_eq r.entries id) r w)
  child-Returns fuel id r w call low f = elim (Option-cases (get str_eq r.entries id)) [
    | inl p ↦ rw p (record { registry = r; world = w; raised = none }, refl, f)
    | inr (e, p) ↦
        let low' : height e.handle.resource_id < fuel = rw (f.keyed id e p) low in
        rw p (call e.handle r w low' f)
  ]

  unless_raised-Returns :
      (o : Option (After W E)) (next : After W E → Option (After W E))
      → Returns o
      → ((a : After W E) → IsForest a.registry → Returns (next a))
      → Returns (unless_raised o next)
  unless_raised-Returns none next (a, p, f) h = absurd (cc)
  unless_raised-Returns (some b) next (a, p, f) h =
      let same : a ≡ b = cc in
      let fb : IsForest b.registry = subst (λ (x : After W E). IsForest x.registry) same f in
      elim (Option-cases b.raised) [ inl s ↦ rw s (h b fb) | inr (x, s) ↦ rw s (b, refl, fb) ]

  teardown_children-Returns :
      (fuel : ℕ) (ids : List String) (r : ResourceRegistry W E) (w : W)
      → ((h : ResourceHandle) (r : ResourceRegistry W E) (w : W)
          → height h.resource_id < fuel
          → IsForest r
          → Returns (teardown fuel h r w))
      → ((id : String) → In id ids → height id < fuel)
      → IsForest r
      → Returns (teardown_children (teardown fuel) ids r w)
  unfolding teardown_children
  teardown_children-Returns fuel [] r w call low f =
      (record { registry = r; world = w; raised = none }, refl, f)
  teardown_children-Returns fuel (id ∷ ids) r w call low f =
      unless_raised-Returns _ _ (child-Returns fuel id r w call (low id (inl refl)) f) (λ a fa.
        teardown_children-Returns fuel ids a.registry a.world call (λ x m. low x (inr m)) fa)

  -- On a forest, a teardown whose fuel exceeds the height of its resource returns, and leaves a forest.
  pub teardown-Returns :
      (fuel : ℕ) (h : ResourceHandle) (r : ResourceRegistry W E) (w : W)
      → height h.resource_id < fuel
      → IsForest r
      → Returns (teardown fuel h r w)
  unfolding teardown
  teardown-Returns zero h r w low f = absurd (omega arith)
  teardown-Returns (suc fuel) h r w low f =
      elim (Option-cases (get str_eq r.entries h.resource_id)) [
        | inl p ↦ rw p (record { registry = r; world = w; raised = none }, refl, f)
        | inr (e, p) ↦ rw p (
            unless_raised-Returns _ _
              (teardown_children-Returns fuel (child_ids r h.resource_id) r w
                (teardown-Returns fuel) (λ id m. let l = f.lower h.resource_id id m in omega arith)
                f)
              (λ a fa.
                (finish h e a.registry a.world, refl, finish-IsForest h e a.registry a.world fa)))
      ]

-- When children stand below their parents by some measure `height`, a teardown whose fuel exceeds the
-- height of its resource returns. It leaves such a registry, and unless it ends with an exception its
-- resource is not registered any more.
pub teardown-unregisters :
    {W E : Type 0} (height : String → ℕ) (fuel : ℕ) (h : ResourceHandle) (r : ResourceRegistry W E)
    (w : W)
    → height h.resource_id < fuel
    → IsForest height r
    → (a : After W E) × (teardown fuel h r w ≡ some a)
      × IsForest height a.registry
      × (a.raised ≡ none → is_registered a.registry h ≡ false)
teardown-unregisters height fuel h r w low f =
    let (a, p, fa) = teardown-Returns height fuel h r w low f in
    (a, p, fa, λ quiet. teardown-unregistered fuel h r w a p quiet)
