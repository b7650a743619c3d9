-- ===== src/Registry/Roots.antt =====
-- resource_registry/registry.py: what becomes of the entries and the lists of children, step by step.
use charm_integration_testin.Prelude.{
  ◌≡◌, ◌≢◌, refl, ap, sym, ◌∙◌, inl, inr, Bool, true, false, ◌||◌, String, str_eq, eq_iff, Option,
  none, some, List, [], ◌∷◌, if◌then◌else◌, Bool-cases, Option-cases, In,
}
use charm_integration_testin.Prelude.Dict.{get, get-put}
use charm_integration_testin.Registry.{
  ResourceEntry, ResourceRegistry, without, ids_or_none, child_ids, keep_siblings, make_root,
  make_roots, leave_parent,
}
use charm_integration_testin.Registry.Presence.{get-remove}

unfoldable pub is_among : List String → String → Bool
is_among [] j = false
is_among (i ∷ is) j = str_eq i j || is_among is j

pub is_among-In : (ids : List String) (j : String) → is_among ids j ≡ true → In j ids
unfolding is_among
is_among-In [] j h = absurd (cc)
is_among-In (i ∷ is) j h = elim (Bool-cases (str_eq i j)) [
  | inl p ↦ inl (sym ((eq_iff i j).0 p))
  | inr p ↦ inr (is_among-In is j (rw p at h))
]

pub In-is_among : (ids : List String) (j : String) → In j ids → is_among ids j ≡ true
unfolding is_among
In-is_among [] j m = absurd m
In-is_among (i ∷ is) j (inl e) = rw ((eq_iff i j).1 (sym e)) refl
In-is_among (i ∷ is) j (inr m) = elim (Bool-cases (str_eq i j)) [
  | inl p ↦ rw p refl
  | inr p ↦ rw p (In-is_among is j m)
]

pub apart : (i j : String) → j ≢ i → str_eq i j ≡ false
apart i j n = elim (Bool-cases (str_eq i j)) [
  | inl p ↦ absurd (n (sym ((eq_iff i j).0 p)))
  | inr p ↦ p
]

get-keep_siblings :
    (p j : String) (l : List String) (children : List (String × List String))
    → ids_or_none (get str_eq (keep_siblings p l children) j)
      ≡ (if str_eq p j then l else ids_or_none (get str_eq children j))
get-keep_siblings p j [] children =
    ap ids_or_none (get-remove children p j)
    ∙ elim (Bool-cases (str_eq p j)) [ inl q ↦ rw q refl | inr q ↦ rw q refl ]
get-keep_siblings p j (x ∷ l) children =
    ap ids_or_none (get-put str_eq eq_iff children p j (x ∷ l))
    ∙ elim (Bool-cases (str_eq p j)) [ inl q ↦ rw q refl | inr q ↦ rw q refl ]

module _ {W E : Type 0} where
  -- The entry as a root.
  abbrev pub without_parent : Option (ResourceEntry W E) → Option (ResourceEntry W E)
  without_parent none = none
  without_parent (some e) = some (record e { parent_id = none })

  get-make_root :
      (r : ResourceRegistry W E) (i j : String)
      → get str_eq (make_root i (get str_eq r.entries i) r).entries j
        ≡ (if str_eq i j then without_parent (get str_eq r.entries j) else get str_eq r.entries j)
  get-make_root r i j = elim (Option-cases (get str_eq r.entries i)) [
    | inl p ↦ elim (Bool-cases (str_eq i j)) [
      | inl q ↦ let same = (eq_iff i j).0 q in rw (q, ← same, p) p
      | inr q ↦ rw (p, q) refl
    ]
    | inr (e, p) ↦
        let step = get-put str_eq eq_iff r.entries i j (record e { parent_id = none }) in
        elim (Bool-cases (str_eq i j)) [
          | inl q ↦ let same = (eq_iff i j).0 q in rw (p, step, q, ← same, p) refl
          | inr q ↦ rw (p, step, q) refl
        ]
  ]

  without_parent-twice :
      (o : Option (ResourceEntry W E)) → without_parent (without_parent o) ≡ without_parent o
  without_parent-twice none = refl
  without_parent-twice (some e) = refl

  pub get-make_roots :
      (ids : List String) (r : ResourceRegistry W E) (j : String)
      → get str_eq (make_roots ids r).entries j ≡ (
          if is_among ids j
          then without_parent (get str_eq r.entries j)
          else get str_eq r.entries j)
  unfolding make_roots is_among
  get-make_roots [] r j = refl
  get-make_roots (i ∷ is) r j =
      get-make_roots is _ j
      ∙ rw (get-make_root r i j) (elim (Bool-cases (str_eq i j)) [
        | inr p ↦ rw p refl
        | inl p ↦ elim (Bool-cases (is_among is j)) [
          | inl q ↦ rw (p, q) (without_parent-twice (get str_eq r.entries j))
          | inr q ↦ rw (p, q) refl
        ]
      ])

  make_root-children :
      (i : String) (o : Option (ResourceEntry W E)) (r : ResourceRegistry W E)
      → (make_root i o r).children ≡ r.children
  make_root-children i none r = refl
  make_root-children i (some e) r = refl

  pub make_roots-children :
      (ids : List String) (r : ResourceRegistry W E) → (make_roots ids r).children ≡ r.children
  unfolding make_roots
  make_roots-children [] r = refl
  make_roots-children (i ∷ is) r = make_roots-children is _ ∙ make_root-children i _ r

  make_root-collectors :
      (i : String) (o : Option (ResourceEntry W E)) (r : ResourceRegistry W E)
      → (make_root i o r).global_collectors ≡ r.global_collectors
  make_root-collectors i none r = refl
  make_root-collectors i (some e) r = refl

  pub make_roots-collectors :
      (ids : List String) (r : ResourceRegistry W E)
      → (make_roots ids r).global_collectors ≡ r.global_collectors
  unfolding make_roots
  make_roots-collectors [] r = refl
  make_roots-collectors (i ∷ is) r = make_roots-collectors is _ ∙ make_root-collectors i _ r

  pub leave_parent-same :
      (parent : Option String) (id : String) (r : ResourceRegistry W E)
      → ((leave_parent parent id r).entries ≡ r.entries)
        × ((leave_parent parent id r).global_collectors ≡ r.global_collectors)
  leave_parent-same none id r = (refl, refl)
  leave_parent-same (some p) id r = elim (Option-cases (get str_eq r.children p)) [
    | inl q ↦ rw q (refl, refl)
    | inr (s, q) ↦ rw q (refl, refl)
  ]

  pub child_ids-leave_parent :
      (p id : String) (r : ResourceRegistry W E) (j : String)
      → child_ids (leave_parent (some p) id r) j
        ≡ (if str_eq p j then without (child_ids r p) id else child_ids r j)
  unfolding without
  child_ids-leave_parent p id r j = elim (Option-cases (get str_eq r.children p)) [
    | inr (s, q) ↦ rw q (get-keep_siblings p j (without s id) r.children)
    | inl q ↦ elim (Bool-cases (str_eq p j)) [
      | inl k ↦ let same = (eq_iff p j).0 k in rw (q, k, ← same, q) refl
      | inr k ↦ rw (q, k) refl
    ]
  ]
