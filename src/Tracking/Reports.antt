-- ===== src/Tracking/Reports.antt =====
-- What is reported of a run: no resource whose application skips its type.
use charm_integration_testin.Prelude.{
  ◌≡◌, refl, ap, subst, sym, inl, inr, Bool, true, false, ◌&&◌, String, str_eq, eq_iff, some, List,
  [], ◌∷◌, ◌++◌, In, In-append, Bool-cases, Option-cases,
}
use charm_integration_testin.Prelude.Dict.{get, put}
use charm_integration_testin.Scheduler.State.{state_eq, state_eq_iff}
use charm_integration_testin.Tracking.Snapshot.{ResourceSnapshot, resource_type, application_of}
use charm_integration_testin.Tracking.Discrepancy.{
  DiscrepancyEntry, QualifiedSnapshot, Grouped, ModelResourceDiscrepancy, entries_of, all_entries,
  entries, diff_snapshots,
}
use charm_integration_testin.Tracking.Visits.{
  ResourceObservation, Skips, has_text, skipped_types, without_skipped, VisitKey, visit_eq,
  visit_of, Baselines, reported, compare_visits, resolved_skips, calculate_discrepancies,
}
use charm_integration_testin.Tracking.Skips.{resolved_skips-listed}
use charm_integration_testin.Tracking.Drift.{
  IsGrouped, Holds, HoldsGroups, diff_snapshots-HoldsGroups,
}

and_true : (a b : Bool) → (a && b) ≡ true → (a ≡ true) × (b ≡ true)
and_true true b h = (refl, h)
and_true false b h = absurd (cc)

pub visit_eq-same : (a b : VisitKey) → visit_eq a b ≡ true → a ≡ b
visit_eq-same (s, c, m) (t, d, n) h =
    let (p, q) = and_true (state_eq s t) _ h in
    let (u, v) = and_true (str_eq c d) _ q in
    rw ((state_eq_iff s t).0 p, (eq_iff c d).0 u, (eq_iff m n).0 v) refl

-- The application does not skip the type of its resource in the model.
abbrev pub IsKept : Skips → String → String → ResourceSnapshot → Type 0
IsKept skips controller model s =
    has_text (skipped_types skips (controller, model, application_of s)) (resource_type s) ≡ false

without_skipped-IsKept :
    (l : List ResourceSnapshot) (controller model : String) (skips : Skips)
    → Holds (IsKept skips controller model) (without_skipped l controller model skips)
unfolding without_skipped
without_skipped-IsKept [] controller model skips s m = absurd m
without_skipped-IsKept (x ∷ l) controller model skips s m =
    elim (Bool-cases
      (has_text (skipped_types skips (controller, model, application_of x)) (resource_type x))) [
        | inl p ↦ without_skipped-IsKept l controller model skips s (rw p at m)
        | inr p ↦
            let m' : In s (x ∷ without_skipped l controller model skips) = rw p at m in
            elim m' [
              | inl e ↦ rw e p
              | inr rest ↦ without_skipped-IsKept l controller model skips s rest
            ]
      ]

module _ (skips : Skips) where
  abbrev AreKept : Baselines → Type 0
  AreKept b =
      (key : VisitKey) (l : List ResourceSnapshot)
      → In (key, l) b
      → Holds (IsKept skips (key.1) (key.2)) l

  get-AreKept :
      (b : Baselines) (key : VisitKey) (l : List ResourceSnapshot)
      → AreKept b
      → get visit_eq b key ≡ some l
      → Holds (IsKept skips (key.1) (key.2)) l
  unfolding get
  get-AreKept [] key l kept h = absurd (cc)
  get-AreKept ((k, w) ∷ b) key l kept h = elim (Bool-cases (visit_eq k key)) [
    | inl p ↦
        let h' : some w ≡ some l = rw p at h in
        let e : w ≡ l = cc in
        subst (λ z. Holds (IsKept skips (z.1) (z.2)) l) (visit_eq-same k key p)
          (subst (λ z. Holds (IsKept skips (k.1) (k.2)) z) e (kept k w (inl refl)))
    | inr p ↦ get-AreKept b key l (λ j z n. kept j z (inr n)) (rw p at h)
  ]

  -- A new visit is filed at the end.
  put-AreKept :
      (b : Baselines) (key : VisitKey) (l : List ResourceSnapshot)
      → AreKept b
      → Holds (IsKept skips (key.1) (key.2)) l
      → AreKept (put visit_eq b key l)
  unfolding put
  put-AreKept [] key l kept h j z (inl e) =
      subst (λ (y : VisitKey × List ResourceSnapshot). Holds (IsKept skips (y.0.1) (y.0.2)) (y.1))
        (sym e) h
  put-AreKept [] key l kept h j z (inr m) = absurd m
  put-AreKept ((k, w) ∷ b) key l kept h j z m = elim (Bool-cases (visit_eq k key)) [
    | inl p ↦
        let m' : In (j, z) ((k, l) ∷ b) = rw p at m in
        elim m' [
          | inr old ↦ kept j z (inr old)
          | inl e ↦
              subst
                (λ (y : VisitKey × List ResourceSnapshot).
                  Holds (IsKept skips (y.0.1) (y.0.2)) (y.1))
                (sym e)
                (subst (λ y. Holds (IsKept skips (y.1) (y.2)) l) (sym (visit_eq-same k key p)) h)
        ]
    | inr p ↦
        let m' : In (j, z) ((k, w) ∷ put visit_eq b key l) = rw p at m in
        elim m' [
          | inl e ↦ kept j z (inl e)
          | inr rest ↦ put-AreKept b key l (λ i y n. kept i y (inr n)) h j z rest
        ]
  ]

  -- All that a discrepancy groups is kept in its model.
  abbrev IsClean : ModelResourceDiscrepancy → Type 0
  IsClean d = HoldsGroups (IsKept skips d.controller d.model) d.qualified

  reported-IsClean :
      (o : ResourceObservation) (g : Grouped) (d : ModelResourceDiscrepancy)
      → HoldsGroups (IsKept skips o.controller o.model) g
      → In d (reported o g)
      → IsClean d
  reported-IsClean o [] d h m = absurd m
  reported-IsClean o (x ∷ g) d h (inl e) = subst IsClean (sym e) h
  reported-IsClean o (x ∷ g) d h (inr m) = absurd m

  compare_visits-IsClean :
      (obs : List ResourceObservation) (b : Baselines) (d : ModelResourceDiscrepancy)
      → AreKept b
      → In d (compare_visits skips obs b)
      → IsClean d
  unfolding compare_visits
  compare_visits-IsClean [] b d kept m = absurd m
  compare_visits-IsClean (o ∷ obs) b d kept m =
      let now = without_skipped o.snapshots o.controller o.model skips in
      let now_kept = without_skipped-IsKept o.snapshots o.controller o.model skips in
      elim (Option-cases (get visit_eq b (visit_of o))) [
        | inl p ↦
            let m' : In d (compare_visits skips obs (put visit_eq b (visit_of o) now)) =
              rw p at m in
            compare_visits-IsClean obs _ d (put-AreKept b (visit_of o) now kept now_kept) m'
        | inr (l, p) ↦
            let m' : In d (reported o (diff_snapshots l now) ++ compare_visits skips obs b) =
              rw p at m in
            elim (In-append d (reported o (diff_snapshots l now)) _ m') [
              | inl here ↦
                  reported-IsClean o _ d
                    (diff_snapshots-HoldsGroups _ l now (get-AreKept b (visit_of o) l kept p)
                      now_kept)
                    here
              | inr rest ↦ compare_visits-IsClean obs b d kept rest
            ]
      ]

module _ (d : ModelResourceDiscrepancy) where
  -- An entry describes a grouped resource of its discrepancy.
  abbrev IsEntry : Grouped → DiscrepancyEntry → Type 0
  IsEntry g e =
      (x : QualifiedSnapshot) × IsGrouped x g
      × (e.snapshot ≡ x.snapshot)
      × (e.resource_type ≡ resource_type x.snapshot)
      × (e.controller ≡ d.controller)
      × (e.model ≡ d.model)

  entries_of-IsEntry :
      (q : String) (xs : List QualifiedSnapshot) (e : DiscrepancyEntry)
      → In e (entries_of d q xs)
      → (x : QualifiedSnapshot) × In x xs
        × (e.snapshot ≡ x.snapshot)
        × (e.resource_type ≡ resource_type x.snapshot)
        × (e.controller ≡ d.controller)
        × (e.model ≡ d.model)
  unfolding entries_of
  entries_of-IsEntry q [] e m = absurd m
  entries_of-IsEntry q (x ∷ xs) e (inl h) = (
    x,
    inl refl,
    ap (λ (z : DiscrepancyEntry). z.snapshot) h,
    ap (λ (z : DiscrepancyEntry). z.resource_type) h,
    ap (λ (z : DiscrepancyEntry). z.controller) h,
    ap (λ (z : DiscrepancyEntry). z.model) h,
  )
  entries_of-IsEntry q (x ∷ xs) e (inr m) =
      let (y, k, s, t, c, n) = entries_of-IsEntry q xs e m in (y, inr k, s, t, c, n)

  all_entries-IsEntry : (g : Grouped) (e : DiscrepancyEntry) → In e (all_entries d g) → IsEntry g e
  unfolding all_entries
  all_entries-IsEntry [] e m = absurd m
  all_entries-IsEntry ((q, xs) ∷ g) e m = elim (In-append e (entries_of d q xs) _ m) [
    | inl l ↦
        let (x, k, s, t, c, n) = entries_of-IsEntry q xs e l in
        (x, (q, xs, inl refl, k), s, t, c, n)
    | inr r ↦
        let (x, (p, ys, h, k), s, t, c, n) = all_entries-IsEntry g e r in
        (x, (p, ys, inr h, k), s, t, c, n)
  ]

kept-moves :
    (skips : Skips) (s s' : ResourceSnapshot) (t c c' m m' : String)
    → s ≡ s'
    → t ≡ resource_type s'
    → c ≡ c'
    → m ≡ m'
    → IsKept skips c' m' s'
    → has_text (skipped_types skips (c, m, application_of s)) t ≡ false
kept-moves skips s s' t c c' m m' e f g h kept = rw (e, f, g, h) kept

-- No entry of a discrepancy that is calculated for a run describes a resource whose type an
-- observation of the run, of the entry's model on its controller, skips for the resource's application.
pub calculate_discrepancies-not_skipped :
    (obs : List ResourceObservation) (d : ModelResourceDiscrepancy) (e : DiscrepancyEntry)
    (o : ResourceObservation) (types : List String)
    → In d (calculate_discrepancies obs)
    → In e (entries d)
    → In o obs
    → (o.controller ≡ e.controller) × (o.model ≡ e.model)
    → In (application_of e.snapshot, types) o.skips_by_application
    → has_text types e.resource_type ≡ false
unfolding calculate_discrepancies entries
calculate_discrepancies-not_skipped obs d e o types m n k (c, l) listed =
    let (x, g, same, type, controller, model) = all_entries-IsEntry d d.qualified e n in
    let clean = compare_visits-IsClean (resolved_skips obs []) obs [] d (λ j z h. absurd h) m x g in
    elim (Bool-cases (has_text types e.resource_type)) [
      | inr p ↦ p
      | inl p ↦
          let all =
            resolved_skips-listed obs [] o (application_of e.snapshot) types e.resource_type k
              listed p in
          let all' : has_text
                (skipped_types (resolved_skips obs [])
                  (e.controller, e.model, application_of e.snapshot))
                e.resource_type
              ≡ true =
            rw (← c, ← l) all in
          let kept =
            kept-moves (resolved_skips obs []) e.snapshot x.snapshot e.resource_type e.controller
              d.controller e.model d.model same type controller model clean in
          absurd (cc)
    ]
