-- ===== src/Registry/Removal.antt =====
-- resource_registry/registry.py: what `deregister` leaves of the tree.
use charm_integration_testin.Prelude.{
  ◌≡◌, ◌≢◌, refl, ap, sym, ◌∙◌, ◌⊎◌, inl, inr, String, str_eq, eq_iff, Option, none, some, [],
  if◌then◌else◌, Bool-cases, Option-cases, In,
}
use charm_integration_testin.Prelude.Dict.{get}
use charm_integration_testin.Registry.{
  ResourceHandle, ResourceEntry, ResourceRegistry, remove, without, ids_or_none, child_ids,
  make_roots, leave_parent, deregister,
}
use charm_integration_testin.Registry.Presence.{get-remove}
use charm_integration_testin.Registry.Roots.{
  is_among, is_among-In, In-is_among, apart, without_parent, get-make_roots, make_roots-children,
  make_roots-collectors, leave_parent-same, child_ids-leave_parent,
}

module _ {W E : Type 0} where
  -- The resource `id` with the entry `e` has left the tree: its entry is gone, its children are roots and
  -- otherwise as they were, the other entries are as they were. It has no children any more, its parent
  -- has the other ones in their order, and the children of every other resource are as they were.
  pub record HasLeft (r r' : ResourceRegistry W E) (id : String) (e : ResourceEntry W E)
      : Type 0 where
    pub gone : get str_eq r'.entries id ≡ none
    pub roots :
        (j : String)
        → In j (child_ids r id)
        → j ≢ id
        → get str_eq r'.entries j ≡ without_parent (get str_eq r.entries j)
    pub others :
        (j : String)
        → ¬ In j (child_ids r id)
        → j ≢ id
        → get str_eq r'.entries j ≡ get str_eq r.entries j
    pub childless : child_ids r' id ≡ []
    pub siblings :
        (p : String) → e.parent_id ≡ some p → p ≢ id → child_ids r' p ≡ without (child_ids r p) id
    pub other_children :
        (j : String) → e.parent_id ≢ some j → j ≢ id → child_ids r' j ≡ child_ids r j
    pub same_collectors : r'.global_collectors ≡ r.global_collectors

  -- A resource leaves the tree: `r` is the registry before.
  module _ (r : ResourceRegistry W E) (id : String) where
    abbrev entryless : ResourceRegistry W E
    entryless = record r { entries = remove r.entries id; children = remove r.children id }

    abbrev rootless : ResourceRegistry W E
    rootless = make_roots (child_ids r id) entryless

    get-leave_parent :
        (parent : Option String) (j : String)
        → get str_eq (leave_parent parent id rootless).entries j ≡ (
            if is_among (child_ids r id) j
            then without_parent (if str_eq id j then none else get str_eq r.entries j)
            else if str_eq id j
            then none
            else get str_eq r.entries j)
    get-leave_parent parent j =
        ap (λ d. get str_eq d j) (leave_parent-same parent id rootless).0
        ∙ (get-make_roots (child_ids r id) entryless j ∙ rw (get-remove r.entries id j) refl)

    child_ids-rootless :
        (j : String) → child_ids rootless j ≡ (if str_eq id j then [] else child_ids r j)
    child_ids-rootless j =
        ap (λ c. ids_or_none (get str_eq c j)) (make_roots-children (child_ids r id) entryless)
        ∙ (ap ids_or_none (get-remove r.children id j)
            ∙ elim (Bool-cases (str_eq id j)) [ inl q ↦ rw q refl | inr q ↦ rw q refl ])

    child_ids-own : (parent : Option String) → child_ids (leave_parent parent id rootless) id ≡ []
    unfolding without
    child_ids-own none = child_ids-rootless id ∙ rw ((eq_iff id id).1 refl) refl
    child_ids-own (some p) =
        let own : child_ids rootless id ≡ [] =
          child_ids-rootless id ∙ rw ((eq_iff id id).1 refl) refl in
        child_ids-leave_parent p id rootless id ∙ elim (Bool-cases (str_eq p id)) [
          | inr q ↦ rw q own
          | inl q ↦ let same = (eq_iff p id).0 q in rw (q, same, own) refl
        ]

    child_ids-other :
        (parent : Option String) (j : String)
        → parent ≢ some j
        → j ≢ id
        → child_ids (leave_parent parent id rootless) j ≡ child_ids r j
    child_ids-other none j n m = child_ids-rootless j ∙ rw (apart id j m) refl
    child_ids-other (some p) j n m =
        child_ids-leave_parent p id rootless j
        ∙ rw (apart p j (λ e. n (ap some (sym e)))) (child_ids-rootless j ∙ rw (apart id j m) refl)

    child_ids-parent :
        (p : String)
        → p ≢ id
        → child_ids (leave_parent (some p) id rootless) p ≡ without (child_ids r p) id
    child_ids-parent p m =
        child_ids-leave_parent p id rootless p
        ∙ rw ((eq_iff p p).1 refl)
            (ap (λ l. without l id) (child_ids-rootless p ∙ rw (apart id p m) refl))

    leave_parent-HasLeft :
        (e : ResourceEntry W E) → HasLeft r (leave_parent e.parent_id id rootless) id e
    leave_parent-HasLeft e = record {
      gone =
          get-leave_parent e.parent_id id
          ∙ rw ((eq_iff id id).1 refl) (elim (Bool-cases (is_among (child_ids r id) id)) [
            | inl q ↦ rw q refl
            | inr q ↦ rw q refl
          ]);
      roots = λ j m n.
          get-leave_parent e.parent_id j ∙ rw (In-is_among (child_ids r id) j m, apart id j n) refl;
      others = λ j m n.
          get-leave_parent e.parent_id j ∙ elim (Bool-cases (is_among (child_ids r id) j)) [
            | inl q ↦ absurd (m (is_among-In (child_ids r id) j q))
            | inr q ↦ rw (q, apart id j n) refl
          ];
      childless = child_ids-own e.parent_id;
      siblings =
          λ p h n. ap (λ o. child_ids (leave_parent o id rootless) p) h ∙ child_ids-parent p n;
      other_children = λ j h n. child_ids-other e.parent_id j h n;
      same_collectors =
          (leave_parent-same e.parent_id id rootless).1
          ∙ make_roots-collectors (child_ids r id) entryless;
    }

  -- A handle that is not registered is passed over. Otherwise its entry leaves the tree: the children
  -- become roots and are otherwise as they were, as are all other entries; the parent keeps its other
  -- children in their order, and no other resource loses a child.
  pub deregister-HasLeft :
      (h : ResourceHandle) (r : ResourceRegistry W E)
      → ((get str_eq r.entries h.resource_id ≡ none) × (deregister h r ≡ r))
        ⊎ ((e : ResourceEntry W E) × (get str_eq r.entries h.resource_id ≡ some e)
            × HasLeft r (deregister h r) h.resource_id e)
  unfolding deregister
  deregister-HasLeft h r = elim (Option-cases (get str_eq r.entries h.resource_id)) [
    | inl p ↦ inl (p, rw p refl)
    | inr (e, p) ↦ inr (e, p, rw p (leave_parent-HasLeft r h.resource_id e))
  ]
