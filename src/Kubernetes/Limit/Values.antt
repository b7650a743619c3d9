-- ===== src/Kubernetes/Limit/Values.antt =====
-- kubernetes_client/resource_limit.py: the quantities that are set and put back.
use charm_integration_testin.Prelude.{
  ℕ, ◌≤◌, ◌<◌, sym, ◌∙◌, ◌≡◌, ◌≢◌, ◌⊎◌, refl, ap, subst, inl, inr, true, false, ◌||◌, Option, none,
  some, [], ◌∷◌, leb, if◌then◌else◌, String, str_eq, eq_iff, ok, Bool-cases, leb→le, arith,
  >>=-passes,
}
use charm_integration_testin.Prelude.Dict.{get, get-put}
use charm_integration_testin.Kubernetes.Limit.{
  Quantities, Resources, lookup, assign, or_default, pop, unless_empty, unassign, capped,
  limit_resources, same_quantity, put_back, restore_field, restore,
}

str_eq_refl : (a : String) → str_eq a a ≡ true
str_eq_refl a = (eq_iff a a).1 refl

str_eq-other : (a b : String) → (a ≢ b) → str_eq a b ≡ false
str_eq-other a b h = elim (Bool-cases (str_eq a b)) [
  | inl p ↦ absurd (h ((eq_iff a b).0 p))
  | inr p ↦ p
]

lookup-assign :
    (d : Option Quantities) (k j v : String)
    → lookup (assign d k v) j ≡ (if str_eq k j then some v else lookup d j)
unfolding get
lookup-assign none k j v = get-put str_eq eq_iff [] k j v
lookup-assign (some d) k j v = get-put str_eq eq_iff d k j v

get-pop :
    (d : Quantities) (k j : String)
    → get str_eq (pop d k) j ≡ (if str_eq k j then none else get str_eq d j)
unfolding get pop
get-pop [] k j = elim (Bool-cases (str_eq k j)) [ inl p ↦ rw p refl | inr p ↦ rw p refl ]
get-pop ((i, v) ∷ d) k j = elim (Bool-cases (str_eq i k)) [
  | inl same ↦
      let e = (eq_iff i k).0 same in
      elim (Bool-cases (str_eq k j)) [
        | inl p ↦ rw (same, get-pop d k j, p) refl
        | inr p ↦ let q : str_eq i j ≡ false = rw e p in rw (same, get-pop d k j, p, q) refl
      ]
  | inr other ↦ elim (Bool-cases (str_eq i j)) [
    | inl here ↦
        let e = (eq_iff i j).0 here in
        let q : str_eq k j ≡ false =
          str_eq-other k j (λ r. let t = (eq_iff i k).1 (e ∙ sym r) in absurd (cc)) in
        rw (other, here, q) refl
    | inr there ↦ rw (other, there) (get-pop d k j)
  ]
]

lookup-unless_empty : (d : Quantities) (j : String) → lookup (unless_empty d) j ≡ get str_eq d j
unfolding get
lookup-unless_empty [] j = refl
lookup-unless_empty (q ∷ d) j = refl

lookup-unassign :
    (d : Option Quantities) (k j : String)
    → lookup (unassign d k) j ≡ (if str_eq k j then none else lookup d j)
unfolding get
lookup-unassign none k j = lookup-unless_empty (pop [] k) j ∙ get-pop [] k j
lookup-unassign (some d) k j = lookup-unless_empty (pop d k) j ∙ get-pop d k j

lookup-put_back :
    (field : Option Quantities) (k j : String) (previous : Option String)
    → lookup (put_back field k previous) j ≡ (if str_eq k j then previous else lookup field j)
lookup-put_back field k j none = lookup-unassign field k j
lookup-put_back field k j (some v) = lookup-assign field k j v

-- The key has the value, and the other keys have those they had.
abbrev pub IsUpdate :
    (key : String) (value : Option String) (before after : Option Quantities) → Type 0
IsUpdate key value before after =
    (lookup after key ≡ value) × ((j : String) → (key ≢ j) → lookup after j ≡ lookup before j)

IsUpdate-str_eq :
    (key : String) (value : Option String) (before after : Option Quantities)
    → ((j : String) → lookup after j ≡ (if str_eq key j then value else lookup before j))
    → IsUpdate key value before after
IsUpdate-str_eq key value before after h =
    let here = h key in
    (
      rw (str_eq_refl key) at here,
      λ j other. let there = h j in rw (str_eq-other key j other) at there,
    )

assign-IsUpdate : (d : Option Quantities) (k v : String) → IsUpdate k (some v) d (assign d k v)
assign-IsUpdate d k v = IsUpdate-str_eq k (some v) d (assign d k v) (λ j. lookup-assign d k j v)

put_back-IsUpdate :
    (d : Option Quantities) (k : String) (previous : Option String)
    → IsUpdate k previous d (put_back d k previous)
put_back-IsUpdate d k previous =
    IsUpdate-str_eq k previous d (put_back d k previous) (λ j. lookup-put_back d k j previous)

-- To put the previous value back undoes the update of a field.
put_back-undoes :
    (key : String) (before after : Option Quantities) {value : Option String}
    → IsUpdate key value before after
    → (j : String) → lookup (put_back after key (lookup before key)) j ≡ lookup before j
put_back-undoes key before after (here, there) j =
    lookup-put_back after key j (lookup before key) ∙ elim (Bool-cases (str_eq key j)) [
      | inl p ↦ let same = (eq_iff key j).0 p in rw p (ap (lookup before) same)
      | inr p ↦ rw p (there j (λ same. let q = (eq_iff key j).1 same in absurd (cc)))
    ]

-- What the container has again: its quantities of the resource, beside all else that it has now.
abbrev pub Restores : (key : String) (saved current restored : Resources) → Type 0
Restores key saved current restored =
    IsUpdate key (lookup saved.limits key) current.limits restored.limits
    × (IsUpdate key (lookup saved.requests key) current.requests restored.requests
        × (restored.others ≡ current.others))

module _ (parse_quantity : String → ℕ) where
  capped_bound :
      (request limit : String)
      → parse_quantity (capped parse_quantity request limit) ≤ parse_quantity limit
  unfolding capped
  capped_bound request limit =
      elim (Bool-cases (leb (parse_quantity request) (parse_quantity limit))) [
        | inl p ↦ rw p (leb→le (parse_quantity request) (parse_quantity limit) p)
        | inr p ↦ rw p (omega arith)
      ]

  -- The request fits below the limit, and is the own or default one if that fits.
  abbrev pub Fits : (wanted limit request : String) → Type 0
  Fits wanted limit request =
      (parse_quantity request ≤ parse_quantity limit)
      × ((request ≡ wanted) ⊎ ((request ≡ limit) × (parse_quantity limit < parse_quantity wanted)))

  capped-Fits : (wanted limit : String) → Fits wanted limit (capped parse_quantity wanted limit)
  unfolding capped
  capped-Fits wanted limit =
      elim (Bool-cases (leb (parse_quantity wanted) (parse_quantity limit))) [
        | inl p ↦ rw p (leb→le (parse_quantity wanted) (parse_quantity limit) p, inl refl)
        | inr p ↦ rw p (omega arith, inr (refl, ground arith))
      ]

  abbrev pub IsLimited : (key limit default_request : String) (saved limited : Resources) → Type 0
  IsLimited key limit default_request saved limited =
      IsUpdate key (some limit) saved.limits limited.limits
      × ((request : String) × (IsUpdate key (some request) saved.requests limited.requests
            × Fits (or_default default_request (lookup saved.requests key)) limit request))

  -- The limit is set, and the request is not above it: the container's own request, or the default one
  -- where it has none, if that is not above the limit, else the limit. The quantities of other
  -- resources stay as they are.
  pub limit_resources-IsLimited :
      (key limit default_request : String) (saved : Resources)
      → IsLimited key limit default_request saved
          (limit_resources parse_quantity key limit default_request saved)
  unfolding limit_resources
  limit_resources-IsLimited key limit default_request saved =
      let wanted = or_default default_request (lookup saved.requests key) in
      (
        assign-IsUpdate saved.limits key limit,
        (
          capped parse_quantity wanted limit,
          (assign-IsUpdate saved.requests key _, capped-Fits wanted limit),
        ),
      )

  same_quantity_refl : (o : Option String) → same_quantity parse_quantity o o ≡ true
  same_quantity_refl none = refl
  same_quantity_refl (some a) = ground arith

  module _ {E : Type 0} where
    restore_field-expected :
        (key : String) (previous : Option String) (field : Option Quantities)
        → restore_field parse_quantity {E = E} key previous (lookup field key) field
          ≡ ok (put_back field key previous)
    unfolding restore_field
    restore_field-expected key previous field =
        let same = same_quantity_refl (lookup field key) in
        elim (Bool-cases (same_quantity parse_quantity (lookup field key) previous)) [
          | inl p ↦ rw p refl
          | inr p ↦ rw (p, same) refl
        ]

    restore_field-ok :
        (key : String) (previous expected : Option String) (field r : Option Quantities)
        → restore_field parse_quantity {E = E} key previous expected field ≡ ok r
        → put_back field key previous ≡ r
    unfolding restore_field
    restore_field-ok key previous expected field r h =
        elim (Bool-cases (
          same_quantity parse_quantity (lookup field key) previous
          || same_quantity parse_quantity (lookup field key) expected)) [
            | inl p ↦ let q = rw p at h in cc
            | inr p ↦ let q = rw p at h in absurd (cc)
          ]

    pub restore-Restores :
        (key : String) (saved limited current r : Resources)
        → restore parse_quantity {E = E} key saved limited current ≡ ok r
        → Restores key saved current r
    unfolding restore
    restore-Restores key saved limited current r h =
        let (l, p, h') = >>=-passes _ _ h in
        let (q, u, h'') = >>=-passes _ _ h' in
        let lim =
          restore_field-ok key (lookup saved.limits key) (lookup limited.limits key) current.limits
            l p in
        let req =
          restore_field-ok key (lookup saved.requests key) (lookup limited.requests key)
            current.requests q u in
        let updated : record { limits = l; requests = q; others = current.others } ≡ r = cc in
        subst (Restores key saved current) updated (
          subst (IsUpdate key (lookup saved.limits key) current.limits) lim
              (put_back-IsUpdate current.limits key (lookup saved.limits key)),
          (
            subst (IsUpdate key (lookup saved.requests key) current.requests) req
                (put_back-IsUpdate current.requests key (lookup saved.requests key)),
            refl,
          ),
        )

    -- The resources with the limit are accepted as they are, and what is put back has the quantities
    -- that were saved, of every resource.
    pub restore-limit_resources :
        (key limit default_request : String) (saved : Resources)
        → let limited = limit_resources parse_quantity key limit default_request saved in
          (r : Resources) × ((restore parse_quantity {E = E} key saved limited limited ≡ ok r)
            × (((j : String) → lookup r.limits j ≡ lookup saved.limits j)
                × ((j : String) → lookup r.requests j ≡ lookup saved.requests j)))
    unfolding restore
    restore-limit_resources key limit default_request saved =
        let limited = limit_resources parse_quantity key limit default_request saved in
        let previous = lookup saved.limits key in
        let request = lookup saved.requests key in
        let set = limit_resources-IsLimited key limit default_request saved in
        (
          record {
            limits = put_back limited.limits key previous;
            requests = put_back limited.requests key request;
            others = limited.others;
          },
          (
            rw
                (
                  restore_field-expected key previous limited.limits,
                  restore_field-expected key request limited.requests,
                )
                refl,
            (
              put_back-undoes key saved.limits limited.limits (set.0),
              put_back-undoes key saved.requests limited.requests (set.1.1.0),
            ),
          ),
        )
