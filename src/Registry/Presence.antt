-- ===== src/Registry/Presence.antt =====
-- Which handles are registered after each operation.
use charm_integration_testin.Prelude.{
  ℕ, zero, suc, ◌≡◌, refl, ap, sym, ◌∙◌, inl, inr, Bool, false, not, ◌&&◌, ◌||◌, String, str_eq,
  eq_iff, Option, none, some, List, [], ◌∷◌, if◌then◌else◌, Bool-cases, Option-cases,
}
use charm_integration_testin.Prelude.Dict.{get, get-put}
use charm_integration_testin.Registry.{
  ResourceHandle, ResourceEntry, ResourceRegistry, remove, is_present, is_registered, child_ids,
  set_entry, make_root, make_roots, leave_parent, forget_child, deregister,
}
use charm_integration_testin.Registry.Teardown.{
  After, finish, after_children, teardown, teardown_children,
}

pub get-remove :
    {V : Type 0} (d : List (String × V)) (k j : String)
    → get str_eq (remove d k) j ≡ (if str_eq k j then none else get str_eq d j)
unfolding get remove
get-remove [] k j = elim (Bool-cases (str_eq k j)) [ inl p ↦ rw p refl | inr p ↦ rw p refl ]
get-remove ((i, v) ∷ d) k j = elim (Bool-cases (str_eq i k)) [
  | inl p ↦ elim (Bool-cases (str_eq k j)) [
    | inl q ↦ rw (p, q) (get-remove d k j ∙ rw q refl)
    | inr q ↦
        let apart : str_eq i j ≡ false = rw ((eq_iff i k).0 p) q in
        rw (p, q, apart) (get-remove d k j ∙ rw q refl)
  ]
  | inr p ↦ elim (Bool-cases (str_eq i j)) [
    | inl q ↦
        let apart : str_eq k j ≡ false = elim (Bool-cases (str_eq k j)) [
          | inr r ↦ r
          | inl r ↦
              let t = (eq_iff i k).1 ((eq_iff i j).0 q ∙ sym ((eq_iff k j).0 r)) in absurd (cc)
        ] in
        rw (p, q, apart) refl
    | inr q ↦ rw (p, q) (get-remove d k j)
  ]
]

abbrev registry_of :
    {W E : Type 0} → ResourceRegistry W E → Option (After W E) → ResourceRegistry W E
registry_of r none = r
registry_of r (some a) = a.registry

module _ {W E : Type 0} where
  abbrev has_entry : ResourceRegistry W E → String → Bool
  has_entry r id = is_present (get str_eq r.entries id)

  has_entry-set_entry :
      (r : ResourceRegistry W E) (id j : String) (e : ResourceEntry W E)
      → has_entry (set_entry id e r) j ≡ (str_eq id j || has_entry r j)
  has_entry-set_entry r id j e =
      rw (get-put str_eq eq_iff r.entries id j e)
        (elim (Bool-cases (str_eq id j)) [ inl p ↦ rw p refl | inr p ↦ rw p refl ])

  has_entry-make_root :
      (r : ResourceRegistry W E) (id j : String)
      → has_entry (make_root id (get str_eq r.entries id) r) j ≡ has_entry r j
  has_entry-make_root r id j = elim (Option-cases (get str_eq r.entries id)) [
    | inl p ↦ rw p refl
    | inr (e, p) ↦ rw p (
        has_entry-set_entry r id j _ ∙ elim (Bool-cases (str_eq id j)) [
          | inr q ↦ rw q refl
          | inl q ↦ let same = (eq_iff id j).0 q in rw (q, ← same, p) refl
        ])
  ]

  has_entry-make_roots :
      (ids : List String) (r : ResourceRegistry W E) (j : String)
      → has_entry (make_roots ids r) j ≡ has_entry r j
  unfolding make_roots
  has_entry-make_roots [] r j = refl
  has_entry-make_roots (id ∷ ids) r j = has_entry-make_roots ids _ j ∙ has_entry-make_root r id j

  forget_child-entries :
      (p id : String) (siblings : Option (List String)) (r : ResourceRegistry W E) (j : String)
      → has_entry (forget_child p id siblings r) j ≡ has_entry r j
  forget_child-entries p id none r j = refl
  forget_child-entries p id (some s) r j = refl

  leave_parent-entries :
      (parent : Option String) (id : String) (r : ResourceRegistry W E) (j : String)
      → has_entry (leave_parent parent id r) j ≡ has_entry r j
  leave_parent-entries none id r j = refl
  leave_parent-entries (some p) id r j = forget_child-entries p id (get str_eq r.children p) r j

  -- Exactly the handle that is deregistered is not registered any more: its children stay registered.
  pub is_registered-deregister :
      (h k : ResourceHandle) (r : ResourceRegistry W E)
      → is_registered (deregister h r) k
        ≡ (not (str_eq h.resource_id k.resource_id) && is_registered r k)
  unfolding deregister
  is_registered-deregister h k r = elim (Option-cases (get str_eq r.entries h.resource_id)) [
    | inl p ↦ rw p (elim (Bool-cases (str_eq h.resource_id k.resource_id)) [
      | inr q ↦ rw q refl
      | inl q ↦ let same = (eq_iff h.resource_id k.resource_id).0 q in rw (q, ← same, p) refl
    ])
    | inr (e, p) ↦
        let j = k.resource_id in
        rw p (
          leave_parent-entries e.parent_id h.resource_id _ j
          ∙ has_entry-make_roots (child_ids r h.resource_id) _ j
          ∙ ap is_present (get-remove r.entries h.resource_id j)
          ∙ elim (Bool-cases (str_eq h.resource_id j)) [ inl q ↦ rw q refl | inr q ↦ rw q refl ])
  ]

  after_children-unregistered :
      (h : ResourceHandle) (e : ResourceEntry W E) (o : Option (After W E)) (a : After W E)
      → after_children h e o ≡ some a
      → a.raised ≡ none
      → is_registered a.registry h ≡ false
  unfolding finish
  after_children-unregistered h e none a eq quiet = absurd (cc)
  after_children-unregistered h e (some b) a eq quiet = elim (Option-cases b.raised) [
    | inl p ↦
        let eq' : some (finish h e b.registry b.world) ≡ some a = rw p at eq in
        let same : finish h e b.registry b.world ≡ a = cc in
        rw (← same, is_registered-deregister h h _, (eq_iff h.resource_id h.resource_id).1 refl)
          refl
    | inr (x, p) ↦
        let eq' : some b ≡ some a = rw p at eq in
        let same : b ≡ a = cc in let raised : b.raised ≡ none = rw same quiet in absurd (cc)
  ]

  -- A teardown that ends without an exception has deregistered its resource, or it was not registered.
  pub teardown-unregistered :
      (fuel : ℕ) (h : ResourceHandle) (r : ResourceRegistry W E) (w : W) (a : After W E)
      → teardown fuel h r w ≡ some a
      → a.raised ≡ none
      → is_registered a.registry h ≡ false
  unfolding teardown
  teardown-unregistered zero h r w a eq quiet = absurd (cc)
  teardown-unregistered (suc fuel) h r w a eq quiet =
      elim (Option-cases (get str_eq r.entries h.resource_id)) [
        | inl p ↦
            let eq' : some (record { registry = r; world = w; raised = none }) ≡ some a =
              rw p at eq in
            let same : r ≡ a.registry = ap (λ (o : Option (After W E)). registry_of r o) eq' in
            rw (← same, p) refl
        | inr (e, p) ↦
            after_children-unregistered h e
              (teardown_children (teardown fuel) (child_ids r h.resource_id) r w) a (rw p at eq)
              quiet
      ]
