-- ===== src/Tracking/Sets.antt =====
-- discrepancy.py: two sets of snapshots with the same members do not differ.
use charm_integration_testin.Prelude.{
  ◌≡◌, ◌≢◌, refl, ap, sym, ◌∙◌, ◌⊎◌, inl, inr, true, false, String, str_eq, eq_iff, Option, none,
  some, List, [], ◌∷◌, In, Bool-cases,
}
use charm_integration_testin.Prelude.Dict.{get, put, get-put}
use charm_integration_testin.Tracking.Snapshot.{
  ResourceSnapshot, InconsistencyCheck, resource_type, application_of, inconsistency_checks,
  report_attributes,
}
use charm_integration_testin.Tracking.Discrepancy.{
  Key, Keyed, key_of, key_eq, put_all, by_key, value_eq, is_quiet, changed, modifications,
  missing_events, current_events, drift, group_all, sort_groups, order_groups, diff_snapshots,
}
use charm_integration_testin.Tracking.Visits.{Skips, has_text, skipped_types, without_skipped}
use charm_integration_testin.Tracking.Skips.{key_eq_iff}

-- A snapshot is the only one with its key.
abbrev pub IsKeyed : List ResourceSnapshot → Type 0
IsKeyed l = (s s' : ResourceSnapshot) → In s l → In s' l → key_of s ≡ key_of s' → s ≡ s'

-- The two have the same members, in any order of the iteration.
abbrev pub IsSameSet : List ResourceSnapshot → List ResourceSnapshot → Type 0
IsSameSet l l' = (s : ResourceSnapshot) → (In s l → In s l') × (In s l' → In s l)

put-In :
    (d : Keyed) (k j : Key) (v s : ResourceSnapshot)
    → In (j, s) (put key_eq d k v)
    → ((j ≡ k) × (s ≡ v)) ⊎ In (j, s) d
unfolding put
put-In [] k j v s (inl e) =
    inl (ap (λ (y : Key × ResourceSnapshot). y.0) e, ap (λ (y : Key × ResourceSnapshot). y.1) e)
put-In [] k j v s (inr m) = absurd m
put-In ((i, w) ∷ d) k j v s m = elim (Bool-cases (key_eq i k)) [
  | inl p ↦
      let m' : In (j, s) ((i, v) ∷ d) = rw p at m in
      elim m' [
        | inl e ↦ inl (
          ap (λ (y : Key × ResourceSnapshot). y.0) e ∙ (key_eq_iff i k).0 p,
          ap (λ (y : Key × ResourceSnapshot). y.1) e,
        )
        | inr old ↦ inr (inr old)
      ]
  | inr p ↦
      let m' : In (j, s) ((i, w) ∷ put key_eq d k v) = rw p at m in
      elim m' [
        | inl e ↦ inr (inl e)
        | inr rest ↦ elim (put-In d k j v s rest) [ inl e ↦ inl e | inr old ↦ inr (inr old) ]
      ]
]

-- What stands in the dict of a set are its members, by their keys.
put_all-In :
    (l : List ResourceSnapshot) (d : Keyed) (k : Key) (s : ResourceSnapshot)
    → In (k, s) (put_all d l)
    → (In s l × (k ≡ key_of s)) ⊎ In (k, s) d
unfolding put_all
put_all-In [] d k s m = inr m
put_all-In (x ∷ l) d k s m = elim (put_all-In l (put key_eq d (key_of x) x) k s m) [
  | inl (here, e) ↦ inl (inr here, e)
  | inr old ↦ elim (put-In d (key_of x) k x s old) [
    | inl (e, same) ↦ inl (inl same, e ∙ ap key_of (sym same))
    | inr older ↦ inr older
  ]
]

get-put_all :
    (l : List ResourceSnapshot) (d : Keyed) (s : ResourceSnapshot)
    → ((x : ResourceSnapshot) → In x l → key_of x ≡ key_of s → x ≡ s)
    → In s l ⊎ (get key_eq d (key_of s) ≡ some s)
    → get key_eq (put_all d l) (key_of s) ≡ some s
unfolding put_all
get-put_all [] d s only (inl m) = absurd m
get-put_all [] d s only (inr h) = h
get-put_all (x ∷ l) d s only h =
    get-put_all l _ s (λ y m. only y (inr m))
      (elim (Bool-cases (key_eq (key_of x) (key_of s))) [
        | inl p ↦ inr (
            get-put key_eq key_eq_iff d (key_of x) (key_of s) x
            ∙ rw p (ap some (only x (inl refl) ((key_eq_iff (key_of x) (key_of s)).0 p))))
        | inr p ↦ elim h [
          | inl (inl e) ↦
              absurd (let q = (key_eq_iff (key_of x) (key_of s)).1 (ap key_of (sym e)) in cc)
          | inl (inr m) ↦ inl m
          | inr old ↦ inr (get-put key_eq key_eq_iff d (key_of x) (key_of s) x ∙ rw p old)
        ]
      ])

value_eq_refl : (v : Option String) → value_eq v v ≡ true
value_eq_refl none = refl
value_eq_refl (some a) = (eq_iff a a).1 refl

changed-same : (s : ResourceSnapshot) (cs : List InconsistencyCheck) → changed s s cs ≡ []
unfolding changed is_quiet
changed-same s [] = refl
changed-same s (c ∷ cs) =
    rw (value_eq_refl (get str_eq (report_attributes s) c.attribute)) (changed-same s cs)

-- Every entry of the first dict is found in the second.
abbrev IsFound : Keyed → Keyed → Type 0
IsFound small d = (k : Key) (s : ResourceSnapshot) → In (k, s) small → get key_eq d k ≡ some s

missing_events-none : (small d : Keyed) → IsFound small d → missing_events small d ≡ []
unfolding missing_events
missing_events-none [] d h = refl
missing_events-none ((k, s) ∷ rest) d h =
    rw (h k s (inl refl)) (missing_events-none rest d (λ j x m. h j x (inr m)))

current_events-none : (small d : Keyed) → IsFound small d → current_events d small ≡ []
unfolding current_events modifications
current_events-none [] d h = refl
current_events-none ((k, s) ∷ rest) d h =
    rw (h k s (inl refl), changed-same s (inconsistency_checks s))
      (current_events-none rest d (λ j x m. h j x (inr m)))

by_key-IsFound :
    (l l' : List ResourceSnapshot)
    → ((s : ResourceSnapshot) → In s l → In s l')
    → IsKeyed l'
    → IsFound (by_key l) (by_key l')
by_key-IsFound l l' sub keyed k s m = elim (put_all-In l [] k s m) [
  | inl (here, e) ↦ rw e (get-put_all l' [] s (λ x n. keyed x s n (sub s here)) (inl (sub s here)))
  | inr absent ↦ absurd absent
]

-- The same resources, each with a key of its own.
abbrev pub IsSame : List ResourceSnapshot → List ResourceSnapshot → Type 0
IsSame l l' = IsSameSet l l' × (IsKeyed l × IsKeyed l')

pub diff_snapshots-same : (l l' : List ResourceSnapshot) → IsSame l l' → diff_snapshots l l' ≡ []
unfolding diff_snapshots drift group_all sort_groups order_groups
diff_snapshots-same l l' (same, (keyed, keyed')) =
    rw
      (
        missing_events-none (by_key l) (by_key l') (by_key-IsFound l l' (λ s. (same s).0) keyed'),
        current_events-none (by_key l') (by_key l) (by_key-IsFound l' l (λ s. (same s).1) keyed),
      )
      refl

-- What is kept of a set does not depend on the order.
pub without_skipped-In :
    (l : List ResourceSnapshot) (c m : String) (skips : Skips) (s : ResourceSnapshot)
    → In s (without_skipped l c m skips)
    → In s l
unfolding without_skipped
without_skipped-In [] c m skips s h = h
without_skipped-In (x ∷ l) c m skips s h =
    elim (Bool-cases (has_text (skipped_types skips (c, m, application_of x)) (resource_type x))) [
      | inl p ↦ inr (without_skipped-In l c m skips s (rw p at h))
      | inr p ↦
          let h' : In s (x ∷ without_skipped l c m skips) = rw p at h in
          elim h' [ inl e ↦ inl e | inr k ↦ inr (without_skipped-In l c m skips s k) ]
    ]

kept_lem :
    (l : List ResourceSnapshot) (c m : String) (skips : Skips) (s : ResourceSnapshot)
    → In s (without_skipped l c m skips)
    → has_text (skipped_types skips (c, m, application_of s)) (resource_type s) ≢ true
unfolding without_skipped
kept_lem [] c m skips s h = absurd h
kept_lem (x ∷ l) c m skips s h =
    elim (Bool-cases (has_text (skipped_types skips (c, m, application_of x)) (resource_type x))) [
      | inl p ↦ kept_lem l c m skips s (rw p at h)
      | inr p ↦
          let h' : In s (x ∷ without_skipped l c m skips) = rw p at h in
          elim h' [
            | inl e ↦ λ q. let q' : false ≡ true = sym p ∙ (rw (sym e) q) in absurd (cc)
            | inr k ↦ kept_lem l c m skips s k
          ]
    ]

pub In-without_skipped :
    (l l' : List ResourceSnapshot) (c m : String) (skips : Skips) (s : ResourceSnapshot)
    → In s (without_skipped l c m skips)
    → In s l'
    → In s (without_skipped l' c m skips)
unfolding without_skipped
In-without_skipped l [] c m skips s h k = k
In-without_skipped l (x ∷ l') c m skips s h k =
    elim (Bool-cases (has_text (skipped_types skips (c, m, application_of x)) (resource_type x))) [
      | inl p ↦ rw p (elim k [
        | inl e ↦ absurd (kept_lem l c m skips s h (rw e p))
        | inr n ↦ In-without_skipped l l' c m skips s h n
      ])
      | inr p ↦
          rw p (elim k [ inl e ↦ inl e | inr n ↦ inr (In-without_skipped l l' c m skips s h n) ])
    ]
