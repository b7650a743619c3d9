-- ===== src/Tracking/Skips.antt =====
-- The skips of a run combine those of its observations.
use charm_integration_testin.Prelude.{
  ◌≡◌, ◌↔◌, refl, ap, inl, inr, true, false, String, str_eq, eq_iff, List, [], ◌∷◌, ◌++◌, In,
  if◌then◌else◌, Bool-cases,
}
use charm_integration_testin.Prelude.Dict.{put, get-put}
use charm_integration_testin.Tracking.Discrepancy.{Key, key_eq}
use charm_integration_testin.Tracking.Visits.{
  ResourceObservation, Skip, Skips, has_text, skipped_types, add_skips, resolved_skips,
}

pub key_eq_iff : (a b : Key) → (key_eq a b ≡ true) ↔ (a ≡ b)
key_eq_iff (a, b, c) (x, y, z) = (
  λ h. elim (Bool-cases (str_eq a x)) [
    | inr p ↦ let t : false ≡ true = rw p at h in absurd (cc)
    | inl p ↦ elim (Bool-cases (str_eq b y)) [
      | inr q ↦ let t : false ≡ true = rw (p, q) at h in absurd (cc)
      | inl q ↦
          let r : str_eq c z ≡ true = rw (p, q) at h in
          rw ((eq_iff a x).0 p, (eq_iff b y).0 q, (eq_iff c z).0 r) refl
    ]
  ],
  λ e.
      let p = (eq_iff a x).1 (ap (λ (k : Key). k.0) e) in
      let q = (eq_iff b y).1 (ap (λ (k : Key). k.1) e) in
      let r = (eq_iff c z).1 (ap (λ (k : Key). k.2) e) in rw (p, q, r) refl,
)

has_text-left :
    (xs ys : List String) (t : String) → has_text xs t ≡ true → has_text (xs ++ ys) t ≡ true
unfolding has_text
has_text-left [] ys t h = absurd (cc)
has_text-left (x ∷ xs) ys t h = elim (Bool-cases (str_eq x t)) [
  | inl p ↦ rw p refl
  | inr p ↦ rw p (has_text-left xs ys t (rw p at h))
]

has_text-right :
    (xs ys : List String) (t : String) → has_text ys t ≡ true → has_text (xs ++ ys) t ≡ true
unfolding has_text
has_text-right [] ys t h = h
has_text-right (x ∷ xs) ys t h = elim (Bool-cases (str_eq x t)) [
  | inl p ↦ rw p refl
  | inr p ↦ rw p (has_text-right xs ys t h)
]

-- The type is skipped under the key.
abbrev IsSkipped : Skips → Key → String → Type 0
IsSkipped skips key t = has_text (skipped_types skips key) t ≡ true

-- One more application keeps what was skipped, and adds its types.
abbrev with_types : Key → List String → Skips → Skips
with_types key types skips = put key_eq skips key (skipped_types skips key ++ types)

skipped_types-with_types :
    (skips : Skips) (key j : Key) (types : List String)
    → skipped_types (with_types key types skips) j
      ≡ (if key_eq key j then skipped_types skips key ++ types else skipped_types skips j)
skipped_types-with_types skips key j types =
    let e = get-put key_eq key_eq_iff skips key j (skipped_types skips key ++ types) in
    rw e (elim (Bool-cases (key_eq key j)) [ inl p ↦ rw p refl | inr p ↦ rw p refl ])

with_types-keeps :
    (skips : Skips) (key j : Key) (types : List String) (t : String)
    → IsSkipped skips j t
    → IsSkipped (with_types key types skips) j t
with_types-keeps skips key j types t h =
    rw (skipped_types-with_types skips key j types) (elim (Bool-cases (key_eq key j)) [
      | inl p ↦
          let h' : has_text (skipped_types skips key) t ≡ true = rw ((key_eq_iff key j).0 p) h in
          rw p (has_text-left (skipped_types skips key) types t h')
      | inr p ↦ rw p h
    ])

with_types-adds :
    (skips : Skips) (key : Key) (types : List String) (t : String)
    → has_text types t ≡ true
    → IsSkipped (with_types key types skips) key t
with_types-adds skips key types t h =
    rw (skipped_types-with_types skips key key types, (key_eq_iff key key).1 refl)
      (has_text-right (skipped_types skips key) types t h)

add_skips-keeps :
    (c m : String) (l : List Skip) (skips : Skips) (j : Key) (t : String)
    → IsSkipped skips j t
    → IsSkipped (add_skips c m l skips) j t
unfolding add_skips
add_skips-keeps c m [] skips j t h = h
add_skips-keeps c m ((a, types) ∷ l) skips j t h =
    add_skips-keeps c m l _ j t (with_types-keeps skips (c, m, a) j types t h)

add_skips-listed :
    (c m a : String) (types : List String) (l : List Skip) (skips : Skips) (t : String)
    → In (a, types) l
    → has_text types t ≡ true
    → IsSkipped (add_skips c m l skips) (c, m, a) t
unfolding add_skips
add_skips-listed c m a types [] skips t i h = absurd i
add_skips-listed c m a types ((b, us) ∷ l) skips t (inr i) h =
    add_skips-listed c m a types l _ t i h
add_skips-listed c m a types ((b, us) ∷ l) skips t (inl e) h =
    let ea : a ≡ b = ap (λ (y : Skip). y.0) e in
    let et : types ≡ us = ap (λ (y : Skip). y.1) e in
    add_skips-keeps c m l _ (c, m, a) t (rw ea (with_types-adds skips (c, m, b) us t (rw (← et) h)))

resolved_skips-keeps :
    (obs : List ResourceObservation) (skips : Skips) (j : Key) (t : String)
    → IsSkipped skips j t
    → IsSkipped (resolved_skips obs skips) j t
unfolding resolved_skips
resolved_skips-keeps [] skips j t h = h
resolved_skips-keeps (o ∷ obs) skips j t h =
    resolved_skips-keeps obs _ j t
      (add_skips-keeps o.controller o.model o.skips_by_application skips j t h)

-- What an observation skips is skipped for the run.
pub resolved_skips-listed :
    (obs : List ResourceObservation) (skips : Skips) (o : ResourceObservation) (a : String)
    (types : List String) (t : String)
    → In o obs
    → In (a, types) o.skips_by_application
    → has_text types t ≡ true
    → has_text (skipped_types (resolved_skips obs skips) (o.controller, o.model, a)) t ≡ true
unfolding resolved_skips
resolved_skips-listed [] skips o a types t m i h = absurd m
resolved_skips-listed (p ∷ obs) skips o a types t (inr m) i h =
    resolved_skips-listed obs _ o a types t m i h
resolved_skips-listed (p ∷ obs) skips o a types t (inl e) i h =
    resolved_skips-keeps obs _ (o.controller, o.model, a) t
      (rw (← e) (add_skips-listed o.controller o.model a types o.skips_by_application skips t i h))
