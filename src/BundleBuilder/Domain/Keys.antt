-- ===== src/BundleBuilder/Domain/Keys.antt =====
-- domain.py: the keys of the integrations, and the set of those that `pair_charms_in_domain` holds.
use charm_integration_testin.Prelude.{
  ℕ, ◌≡◌, refl, sym, ap, ◌∙◌, inl, inr, Bool, true, false, ◌&&◌, ◌||◌, Option, none, some, List, [],
  ◌∷◌, ◌++◌, map, ◌==◌, String, str_eq, eq_iff, ==_iff, Bool-cases, In, In-append, All, All-append,
  subst,
}
use charm_integration_testin.BundleBuilder.Domain.{Variable, DomainCharmIntegration}
use charm_integration_testin.BundleBuilder.Domain.Pairing.{
  IntegrationKey, end_eq, same_key, is_existing, integration_key, integration, Pairs, create,
  create_all, row, table,
}

-- Both halves of a conjunction
pub both : (a b : Bool) → (a && b) ≡ true → (a ≡ true) × (b ≡ true)
both true b h = (refl, h)
both false b h = absurd (cc)

end_eq-≡ : (a b : ℕ × String) → end_eq a b ≡ true → a ≡ b
end_eq-≡ (n, x) (m, y) h =
    let (p, q) = both (n == m) (str_eq x y) h in
    let e : n ≡ m = (==_iff n m).0 p in let f : x ≡ y = (eq_iff x y).0 q in rw (e, f) refl

pub same_key-≡ : (j k : IntegrationKey) → same_key j k ≡ true → j ≡ k
same_key-≡ (a, b) (c, d) h =
    let (p, q) = both (end_eq a c) (end_eq b d) h in rw (end_eq-≡ a c p, end_eq-≡ b d q) refl

same_key_refl : (k : IntegrationKey) → same_key k k ≡ true
same_key_refl ((n, x), (m, y)) =
    rw ((==_iff n n).1 refl, (eq_iff x x).1 refl, (==_iff m m).1 refl, (eq_iff y y).1 refl) refl

same_key_sym : (j k : IntegrationKey) → same_key j k ≡ same_key k j
same_key_sym j k = elim (Bool-cases (same_key j k)) [
  | inl p ↦ rw (same_key-≡ j k p) refl
  | inr p ↦ elim (Bool-cases (same_key k j)) [
    | inr q ↦ p ∙ sym q
    | inl q ↦ absurd (let r : same_key j k ≡ true = rw (same_key-≡ k j q) (same_key_refl j) in cc)
  ]
]

is_existing-snoc :
    (j : IntegrationKey) (ks : List IntegrationKey) (k : IntegrationKey)
    → is_existing j (ks ++ k ∷ []) ≡ (same_key j k || is_existing j ks)
unfolding is_existing
is_existing-snoc j [] k = elim (Bool-cases (same_key j k)) [ inl p ↦ rw p refl | inr p ↦ rw p refl ]
is_existing-snoc j (i ∷ ks) k = elim (Bool-cases (same_key j k)) [
  | inl p ↦ elim (Bool-cases (same_key j i)) [
    | inl q ↦ rw (q, p) refl
    | inr q ↦ rw (q, is_existing-snoc j ks k, p) refl
  ]
  | inr p ↦ elim (Bool-cases (same_key j i)) [
    | inl q ↦ rw (q, p) refl
    | inr q ↦ rw (q, is_existing-snoc j ks k, p) refl
  ]
]

pub is_existing-In :
    (k : IntegrationKey) (ks : List IntegrationKey) → is_existing k ks ≡ true → In k ks
unfolding is_existing
is_existing-In k [] h = absurd (cc)
is_existing-In k (j ∷ ks) h = elim (Bool-cases (same_key k j)) [
  | inl p ↦ inl (same_key-≡ k j p)
  | inr p ↦ inr (is_existing-In k ks (rw p at h))
]

abbrev pub IsDistinct : List IntegrationKey → Type 0
IsDistinct [] = Unit
IsDistinct (k ∷ ks) = (is_existing k ks ≡ false) × IsDistinct ks

IsDistinct-snoc :
    (ks : List IntegrationKey) (k : IntegrationKey)
    → IsDistinct ks
    → is_existing k ks ≡ false
    → IsDistinct (ks ++ k ∷ [])
unfolding is_existing
IsDistinct-snoc [] k d h = (refl, tt)
IsDistinct-snoc (j ∷ ks) k (new, d) h = elim (Bool-cases (same_key k j)) [
  | inl p ↦ absurd (let q = rw p at h in cc)
  | inr p ↦
      let other : same_key j k ≡ false = same_key_sym j k ∙ p in
      (is_existing-snoc j ks k ∙ rw (other, new) refl, IsDistinct-snoc ks k d (rw p at h))
]

map-snoc :
    (is : List DomainCharmIntegration) (v : Variable) (k : IntegrationKey)
    → map integration_key (is ++ integration v k ∷ []) ≡ map integration_key is ++ k ∷ []
map-snoc [] v ((r, re), (p, pe)) = refl
map-snoc (i ∷ is) v k = ap (λ ks. integration_key i ∷ ks) (map-snoc is v k)

-- The set holds the keys of the integrations.
abbrev pub Tracks : Pairs → Type 0
Tracks s =
    (j : IntegrationKey)
    → is_existing j s.existing_keys ≡ is_existing j (map integration_key s.integrations)

module _ (name : IntegrationKey → Variable) where
  create-Tracks : (c : Option IntegrationKey) (s : Pairs) → Tracks s → Tracks (create name c s)
  unfolding is_existing
  create-Tracks none s same = same
  create-Tracks (some k) s same = elim (Bool-cases (is_existing k s.existing_keys)) [
    | inl p ↦ rw p same
    | inr p ↦
        rw (p, map-snoc s.integrations (name k) k)
          (λ j.
            ap (λ b. same_key j k || b) (same j)
            ∙ sym (is_existing-snoc j (map integration_key s.integrations) k))
  ]

  pub create_all-Tracks :
      (cs : List (Option IntegrationKey)) (s : Pairs) → Tracks s → Tracks (create_all name cs s)
  unfolding create_all
  create_all-Tracks [] s same = same
  create_all-Tracks (c ∷ cs) s same =
      create_all-Tracks cs (create name c s) (create-Tracks c s same)

  create-IsDistinct :
      (c : Option IntegrationKey) (s : Pairs)
      → Tracks s
      → IsDistinct (map integration_key s.integrations)
      → IsDistinct (map integration_key (create name c s).integrations)
  create-IsDistinct none s same d = d
  create-IsDistinct (some k) s same d = elim (Bool-cases (is_existing k s.existing_keys)) [
    | inl p ↦ rw p d
    | inr p ↦
        rw (p, map-snoc s.integrations (name k) k)
          (IsDistinct-snoc (map integration_key s.integrations) k d (sym (same k) ∙ p))
  ]

  pub create_all-IsDistinct :
      (cs : List (Option IntegrationKey)) (s : Pairs)
      → Tracks s
      → IsDistinct (map integration_key s.integrations)
      → IsDistinct (map integration_key (create_all name cs s).integrations)
  unfolding create_all
  create_all-IsDistinct [] s same d = d
  create_all-IsDistinct (c ∷ cs) s same d =
      create_all-IsDistinct cs (create name c s) (create-Tracks c s same)
        (create-IsDistinct c s same d)

  -- Every key is an old one or a candidate.
  create-All :
      (P : IntegrationKey → Type 0) (c : Option IntegrationKey) (s : Pairs)
      → All P (map integration_key s.integrations)
      → ((k : IntegrationKey) → c ≡ some k → P k)
      → All P (map integration_key (create name c s).integrations)
  create-All P none s old new = old
  create-All P (some k) s old new = elim (Bool-cases (is_existing k s.existing_keys)) [
    | inl p ↦ rw p old
    | inr p ↦
        rw (p, map-snoc s.integrations (name k) k)
          (All-append P (map integration_key s.integrations) (k ∷ []) old (new k refl, tt))
  ]

  pub create_all-All :
      (P : IntegrationKey → Type 0) (cs : List (Option IntegrationKey)) (s : Pairs)
      → All P (map integration_key s.integrations)
      → ((k : IntegrationKey) → In (some k) cs → P k)
      → All P (map integration_key (create_all name cs s).integrations)
  unfolding create_all
  create_all-All P [] s old new = old
  create_all-All P (c ∷ cs) s old new =
      create_all-All P cs (create name c s) (create-All P c s old (λ k e. new k (inl (sym e))))
        (λ k h. new k (inr h))

  -- A key that is there stays.
  create-keeps :
      (j : IntegrationKey) (c : Option IntegrationKey) (s : Pairs)
      → is_existing j s.existing_keys ≡ true
      → is_existing j (create name c s).existing_keys ≡ true
  unfolding is_existing
  create-keeps j none s h = h
  create-keeps j (some k) s h = elim (Bool-cases (is_existing k s.existing_keys)) [
    | inl p ↦ rw p h
    | inr p ↦ rw p (elim (Bool-cases (same_key j k)) [ inl q ↦ rw q refl | inr q ↦ rw (q, h) refl ])
  ]

  create_all-keeps :
      (j : IntegrationKey) (cs : List (Option IntegrationKey)) (s : Pairs)
      → is_existing j s.existing_keys ≡ true
      → is_existing j (create_all name cs s).existing_keys ≡ true
  unfolding create_all
  create_all-keeps j [] s h = h
  create_all-keeps j (c ∷ cs) s h = create_all-keeps j cs (create name c s) (create-keeps j c s h)

  create-has :
      (k : IntegrationKey) (s : Pairs) → is_existing k (create name (some k) s).existing_keys ≡ true
  unfolding is_existing
  create-has k s = elim (Bool-cases (is_existing k s.existing_keys)) [
    | inl p ↦ rw p p
    | inr p ↦ rw (p, same_key_refl k) refl
  ]

  pub create_all-has :
      (k : IntegrationKey) (cs : List (Option IntegrationKey)) (s : Pairs)
      → In (some k) cs
      → is_existing k (create_all name cs s).existing_keys ≡ true
  unfolding create_all
  create_all-has k (c ∷ cs) s (inl e) =
      create_all-keeps k cs (create name c s)
        (subst (λ o. is_existing k (create name o s).existing_keys ≡ true) e (create-has k s))
  create_all-has k (c ∷ cs) s (inr h) = create_all-has k cs (create name c s) h
  create_all-has k [] s h = absurd h

  -- When every candidate is there, nothing changes.
  pub create_all-same :
      (cs : List (Option IntegrationKey)) (s : Pairs)
      → ((k : IntegrationKey) → In (some k) cs → is_existing k s.existing_keys ≡ true)
      → create_all name cs s ≡ s
  unfolding create_all
  create_all-same [] s h = refl
  create_all-same (none ∷ cs) s h = create_all-same cs s (λ k i. h k (inr i))
  create_all-same (some k ∷ cs) s h =
      rw (h k (inl refl)) (create_all-same cs s (λ j i. h j (inr i)))

  create-none :
      (c : Option IntegrationKey) (s : Pairs)
      → (create name c s).created_any ≡ false
      → (s.created_any ≡ false) × (create name c s ≡ s)
  create-none none s h = (h, refl)
  create-none (some k) s h = elim (Bool-cases (is_existing k s.existing_keys)) [
    | inl p ↦ let q = rw p at h in rw p (q, refl)
    | inr p ↦ absurd (let q = rw p at h in cc)
  ]

  -- If none was created, the integrations are the old ones.
  pub create_all-none :
      (cs : List (Option IntegrationKey)) (s : Pairs)
      → (create_all name cs s).created_any ≡ false
      → (s.created_any ≡ false) × (create_all name cs s ≡ s)
  unfolding create_all
  create_all-none [] s h = (h, refl)
  create_all-none (c ∷ cs) s h =
      let (later, rest) = create_all-none cs (create name c s) h in
      let (before, one) = create-none c s later in (before, rest ∙ one)

-- The members of a table
In-row :
    {A B C : Type 0} (f : A → B → C) (a : A) (bs : List B) (c : C)
    → In c (row f a bs)
    → (b : B) × In b bs × (c ≡ f a b)
unfolding row
In-row f a [] c h = absurd h
In-row f a (b ∷ bs) c (inl e) = (b, inl refl, e)
In-row f a (b ∷ bs) c (inr h) = let (x, i, e) = In-row f a bs c h in (x, inr i, e)

pub In-table :
    {A B C : Type 0} (f : A → B → C) (as' : List A) (bs : List B) (c : C)
    → In c (table f as' bs)
    → (a : A) × (b : B) × In a as' × In b bs × (c ≡ f a b)
unfolding table
In-table f [] bs c h = absurd h
In-table f (a ∷ as') bs c h = elim (In-append c (row f a bs) (table f as' bs) h) [
  | inl i ↦ let (b, j, e) = In-row f a bs c i in (a, b, inl refl, j, e)
  | inr i ↦ let (x, b, j, k, e) = In-table f as' bs c i in (x, b, inr j, k, e)
]
