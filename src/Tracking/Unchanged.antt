-- ===== src/Tracking/Unchanged.antt =====
-- A run whose resources do not change reports nothing.
use charm_integration_testin.Prelude.{
  ◌≡◌, ◌↔◌, refl, ap, sym, ◌∙◌, subst, inl, inr, true, eq_iff, some, List, [], ◌∷◌, In, Bool-cases,
  Option-cases,
}
use charm_integration_testin.Prelude.Dict.{get, put, get-put}
use charm_integration_testin.Scheduler.State.{state_eq_iff}
use charm_integration_testin.Tracking.Snapshot.{ResourceSnapshot}
use charm_integration_testin.Tracking.Visits.{
  ResourceObservation, Skips, without_skipped, VisitKey, visit_eq, visit_of, Baselines,
  compare_visits, resolved_skips, calculate_discrepancies,
}
use charm_integration_testin.Tracking.Reports.{visit_eq-same}
use charm_integration_testin.Tracking.Sets.{
  IsKeyed, IsSameSet, IsSame, diff_snapshots-same, without_skipped-In, In-without_skipped,
}

visit_eq_iff : (a b : VisitKey) → (visit_eq a b ≡ true) ↔ (a ≡ b)
visit_eq_iff (s, c, m) (t, d, n) = (
  visit_eq-same (s, c, m) (t, d, n),
  λ e.
      let p = (state_eq_iff s t).1 (ap (λ (k : VisitKey). k.0) e) in
      let q = (eq_iff c d).1 (ap (λ (k : VisitKey). k.1) e) in
      let r = (eq_iff m n).1 (ap (λ (k : VisitKey). k.2) e) in rw (p, q, r) refl,
)

-- Two visits of one state, in one model of one controller, see the same set of resources. No visit
-- sees two resources of one identity.
abbrev pub IsSteady : List ResourceObservation → Type 0
IsSteady all =
    ((o o' : ResourceObservation)
      → In o all
      → In o' all
      → visit_of o ≡ visit_of o'
      → IsSameSet o.snapshots o'.snapshots)
    × ((o : ResourceObservation) → In o all → IsKeyed o.snapshots)

module _ (skips : Skips) (all : List ResourceObservation) (steady : IsSteady all) where
  abbrev seen : ResourceObservation → List ResourceSnapshot
  seen o = without_skipped o.snapshots o.controller o.model skips

  -- What an observation of the same visit would be compared with.
  abbrev seen_of : List ResourceSnapshot → ResourceObservation → List ResourceSnapshot
  seen_of l o = without_skipped l o.controller o.model skips

  seen-IsKeyed : (o : ResourceObservation) → In o all → IsKeyed (seen o)
  seen-IsKeyed o m s s' h h' =
      steady.1 o m s s' (without_skipped-In o.snapshots o.controller o.model skips s h)
        (without_skipped-In o.snapshots o.controller o.model skips s' h')

  seen-IsSame :
      (o o' : ResourceObservation)
      → In o all
      → In o' all
      → visit_of o ≡ visit_of o'
      → IsSame (seen o) (seen o')
  seen-IsSame o o' m m' e =
      let c : o.controller ≡ o'.controller = ap (λ (k : VisitKey). k.1) e in
      let n : o.model ≡ o'.model = ap (λ (k : VisitKey). k.2) e in
      let kept = λ (l l' : List ResourceSnapshot) (i : IsSameSet l l') (s : ResourceSnapshot).
        λ (h : In s (seen_of l o')).
          In-without_skipped l l' o'.controller o'.model skips s h
            ((i s).0 (without_skipped-In l o'.controller o'.model skips s h)) in
      (
        rw (c, n)
            (λ s. (
              kept o.snapshots o'.snapshots (steady.0 o o' m m' e) s,
              kept o'.snapshots o.snapshots (steady.0 o' o m' m (sym e)) s,
            )),
        (seen-IsKeyed o m, seen-IsKeyed o' m'),
      )

  -- The baselines are the sets that every visit sees.
  abbrev AreSeen : Baselines → Type 0
  AreSeen b =
      (key : VisitKey) (l : List ResourceSnapshot)
      → get visit_eq b key ≡ some l
      → (o : ResourceObservation) → In o all
      → visit_of o ≡ key
      → IsSame l (seen o)

  compare_visits-none :
      (obs : List ResourceObservation) (b : Baselines)
      → ((o : ResourceObservation) → In o obs → In o all)
      → AreSeen b
      → compare_visits skips obs b ≡ []
  unfolding compare_visits
  compare_visits-none [] b sub h = refl
  compare_visits-none (o ∷ obs) b sub h = elim (Option-cases (get visit_eq b (visit_of o))) [
    | inr (l, p) ↦
        rw (p, diff_snapshots-same l (seen o) (h (visit_of o) l p o (sub o (inl refl)) refl))
          (compare_visits-none obs b (λ x m. sub x (inr m)) h)
    | inl p ↦ rw p (
        compare_visits-none obs (put visit_eq b (visit_of o) (seen o)) (λ x m. sub x (inr m))
          (λ key l e x m same. elim (Bool-cases (visit_eq (visit_of o) key)) [
            | inl own ↦
                let e' : some (seen o) ≡ some l =
                  rw (get-put visit_eq visit_eq_iff b (visit_of o) key (seen o), own) at e in
                let e'' : seen o ≡ l = cc in
                subst (λ b. IsSame b (seen x)) e''
                  (seen-IsSame o x (sub o (inl refl)) m
                    ((visit_eq_iff (visit_of o) key).0 own ∙ sym same))
            | inr other ↦
                let e' : get visit_eq b key ≡ some l =
                  rw (get-put visit_eq visit_eq_iff b (visit_of o) key (seen o), other) at e in
                h key l e' x m same
          ]))
  ]

-- When all visits of a state see the same set of resources in each model, in any order, and no visit
-- sees two resources of one type, namespace and name, nothing is reported.
pub calculate_discrepancies-unchanged :
    (obs : List ResourceObservation) → IsSteady obs → calculate_discrepancies obs ≡ []
unfolding calculate_discrepancies get
calculate_discrepancies-unchanged obs steady =
    compare_visits-none (resolved_skips obs []) obs steady obs [] (λ o m. m)
      (λ key l e. absurd (cc))
