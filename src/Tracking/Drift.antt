-- ===== src/Tracking/Drift.antt =====
-- What a comparison of snapshots can report: snapshots of the two visits.
use charm_integration_testin.Prelude.{
  ◌≡◌, refl, ap, subst, ◌⊎◌, inl, inr, String, str_eq, Option, none, some, List, [], ◌∷◌, ◌++◌, In,
  In-append, Bool-cases,
}
use charm_integration_testin.Prelude.Dict.{get, put}
use charm_integration_testin.Tracking.Snapshot.{
  ResourceSnapshot, InconsistencyCheck, inconsistency_checks, report_attributes,
}
use charm_integration_testin.Tracking.Discrepancy.{
  QualifiedSnapshot, Grouped, Event, Key, Keyed, key_of, key_eq, put_all, by_key, is_quiet, changed,
  modifications, missing_event, missing_events, current_event, current_events, group_event,
  group_all, key_lt, insert_item, sort_items, sort_groups, qualifier_lt, insert_group, order_groups,
  drift, diff_snapshots,
}

-- The resource stands under some qualifier.
abbrev pub IsGrouped : QualifiedSnapshot → Grouped → Type 0
IsGrouped x g = (q : String) × (xs : List QualifiedSnapshot) × In (q, xs) g × In x xs

put-In :
    (d : Keyed) (k j : Key) (v s : ResourceSnapshot)
    → In (j, s) (put key_eq d k v)
    → (s ≡ v) ⊎ In (j, s) d
unfolding put
put-In [] k j v s (inl e) = inl (ap (λ (y : Key × ResourceSnapshot). y.1) e)
put-In [] k j v s (inr m) = absurd m
put-In ((i, w) ∷ d) k j v s m = elim (Bool-cases (key_eq i k)) [
  | inl p ↦
      let m' : In (j, s) ((i, v) ∷ d) = rw p at m in
      elim m' [ inl e ↦ inl (ap (λ (y : Key × ResourceSnapshot). y.1) e) | inr old ↦ inr (inr old) ]
  | inr p ↦
      let m' : In (j, s) ((i, w) ∷ put key_eq d k v) = rw p at m in
      elim m' [
        | inl e ↦ inr (inl e)
        | inr rest ↦ elim (put-In d k j v s rest) [ inl e ↦ inl e | inr old ↦ inr (inr old) ]
      ]
]

module _ (P : ResourceSnapshot → Type 0) where
  -- All snapshots of a visit have the property.
  abbrev pub Holds : List ResourceSnapshot → Type 0
  Holds l = (s : ResourceSnapshot) → In s l → P s

  abbrev HoldsKeyed : Keyed → Type 0
  HoldsKeyed d = (k : Key) (s : ResourceSnapshot) → In (k, s) d → P s

  abbrev HoldsEvents : List Event → Type 0
  HoldsEvents es = (e : Event) → In e es → P (e.1).snapshot

  abbrev pub HoldsGroups : Grouped → Type 0
  HoldsGroups g = (x : QualifiedSnapshot) → IsGrouped x g → P x.snapshot

  put_all-HoldsKeyed :
      (l : List ResourceSnapshot) (d : Keyed) → Holds l → HoldsKeyed d → HoldsKeyed (put_all d l)
  unfolding put_all
  put_all-HoldsKeyed [] d hl hd = hd
  put_all-HoldsKeyed (s ∷ l) d hl hd =
      put_all-HoldsKeyed l (put key_eq d (key_of s) s) (λ x m. hl x (inr m))
        (λ k x m. elim (put-In d (key_of s) k s x m) [
          | inl e ↦ rw e (hl s (inl refl))
          | inr old ↦ hd k x old
        ])

  changed-HoldsEvents :
      (baseline current : ResourceSnapshot) (cs : List InconsistencyCheck)
      → P current
      → HoldsEvents (changed baseline current cs)
  unfolding changed
  changed-HoldsEvents baseline current [] p e m = absurd m
  changed-HoldsEvents baseline current (c ∷ cs) p e m =
      elim (Bool-cases (
        is_quiet c (get str_eq (report_attributes baseline) c.attribute)
          (get str_eq (report_attributes current) c.attribute))) [
            | inl q ↦ changed-HoldsEvents baseline current cs p e (rw q at m)
            | inr q ↦
                let m' : In e (
                    (c.qualifier, record { snapshot = current; baseline = some baseline })
                    ∷ changed baseline current cs) =
                  rw q at m in
                elim m' [
                  | inl here ↦ rw here p
                  | inr rest ↦ changed-HoldsEvents baseline current cs p e rest
                ]
          ]

  current_event-HoldsEvents :
      (o : Option ResourceSnapshot) (s : ResourceSnapshot) → P s → HoldsEvents (current_event o s)
  unfolding modifications
  current_event-HoldsEvents none s p e (inl here) = rw here p
  current_event-HoldsEvents none s p e (inr m) = absurd m
  current_event-HoldsEvents (some b) s p e m =
      changed-HoldsEvents b s (inconsistency_checks s) p e m

  missing_event-HoldsEvents :
      (o : Option ResourceSnapshot) (s : ResourceSnapshot) → P s → HoldsEvents (missing_event o s)
  missing_event-HoldsEvents none s p e (inl here) = rw here p
  missing_event-HoldsEvents none s p e (inr m) = absurd m
  missing_event-HoldsEvents (some b) s p e m = absurd m

  missing_events-HoldsEvents :
      (d current : Keyed) → HoldsKeyed d → HoldsEvents (missing_events d current)
  unfolding missing_events
  missing_events-HoldsEvents [] current h e m = absurd m
  missing_events-HoldsEvents ((k, s) ∷ d) current h e m =
      elim (In-append e (missing_event (get key_eq current k) s) _ m) [
        | inl l ↦ missing_event-HoldsEvents _ s (h k s (inl refl)) e l
        | inr r ↦ missing_events-HoldsEvents d current (λ j x n. h j x (inr n)) e r
      ]

  current_events-HoldsEvents :
      (baseline d : Keyed) → HoldsKeyed d → HoldsEvents (current_events baseline d)
  unfolding current_events
  current_events-HoldsEvents baseline [] h e m = absurd m
  current_events-HoldsEvents baseline ((k, s) ∷ d) h e m =
      elim (In-append e (current_event (get key_eq baseline k) s) _ m) [
        | inl l ↦ current_event-HoldsEvents _ s (h k s (inl refl)) e l
        | inr r ↦ current_events-HoldsEvents baseline d (λ j x n. h j x (inr n)) e r
      ]

  group_event-HoldsGroups :
      (q : String) (x : QualifiedSnapshot) (g : Grouped)
      → P x.snapshot
      → HoldsGroups g
      → HoldsGroups (group_event (q, x) g)
  unfolding group_event
  group_event-HoldsGroups q x [] p h y (r, ys, inr m, k) = absurd m
  group_event-HoldsGroups q x [] p h y (r, ys, inl e, k) =
      let k' : In y (x ∷ []) =
        subst (λ l. In y l) (ap (λ (z : String × List QualifiedSnapshot). z.1) e) k in
      elim k' [ inl here ↦ rw here p | inr nothing ↦ absurd nothing ]
  group_event-HoldsGroups q x ((t, xs) ∷ g) p h y (r, ys, m, k) = elim (Bool-cases (str_eq t q)) [
    | inl own ↦
        let m' : In (r, ys) ((t, xs ++ x ∷ []) ∷ g) = rw own at m in
        elim m' [
          | inr old ↦ h y (r, ys, inr old, k)
          | inl e ↦
              let k' : In y (xs ++ x ∷ []) =
                subst (λ l. In y l) (ap (λ (z : String × List QualifiedSnapshot). z.1) e) k in
              elim (In-append y xs _ k') [
                | inl old ↦ h y (t, xs, inl refl, old)
                | inr last ↦ elim last [ inl here ↦ rw here p | inr nothing ↦ absurd nothing ]
              ]
        ]
    | inr other ↦
        let m' : In (r, ys) ((t, xs) ∷ group_event (q, x) g) = rw other at m in
        elim m' [
          | inl e ↦ h y (r, ys, inl e, k)
          | inr rest ↦
              group_event-HoldsGroups q x g p (λ z (r', zs, n, i). h z (r', zs, inr n, i)) y
                (r, ys, rest, k)
        ]
  ]

  group_all-HoldsGroups :
      (es : List Event) (g : Grouped)
      → HoldsEvents es
      → HoldsGroups g
      → HoldsGroups (group_all es g)
  unfolding group_all
  group_all-HoldsGroups [] g he hg = hg
  group_all-HoldsGroups ((q, x) ∷ es) g he hg =
      group_all-HoldsGroups es _ (λ e m. he e (inr m))
        (group_event-HoldsGroups q x g (he (q, x) (inl refl)) hg)

  insert_item-In :
      (x y : QualifiedSnapshot) (ys : List QualifiedSnapshot)
      → In y (insert_item x ys)
      → (y ≡ x) ⊎ In y ys
  unfolding insert_item
  insert_item-In x y [] (inl e) = inl e
  insert_item-In x y [] (inr m) = absurd m
  insert_item-In x y (z ∷ zs) m =
      elim (Bool-cases (key_lt (key_of z.snapshot) (key_of x.snapshot))) [
        | inl p ↦
            let m' : In y (z ∷ insert_item x zs) = rw p at m in
            elim m' [
              | inl e ↦ inr (inl e)
              | inr rest ↦ elim (insert_item-In x y zs rest) [
                | inl e ↦ inl e
                | inr old ↦ inr (inr old)
              ]
            ]
        | inr p ↦ let m' : In y (x ∷ z ∷ zs) = rw p at m in m'
      ]

  sort_items-In :
      (y : QualifiedSnapshot) (xs : List QualifiedSnapshot) → In y (sort_items xs) → In y xs
  unfolding sort_items
  sort_items-In y [] m = m
  sort_items-In y (x ∷ xs) m = elim (insert_item-In x y (sort_items xs) m) [
    | inl e ↦ inl e
    | inr old ↦ inr (sort_items-In y xs old)
  ]

  sort_groups-HoldsGroups : (g : Grouped) → HoldsGroups g → HoldsGroups (sort_groups g)
  unfolding sort_groups
  sort_groups-HoldsGroups [] h y (r, ys, m, k) = absurd m
  sort_groups-HoldsGroups ((q, []) ∷ g) h y (r, ys, m, k) =
      sort_groups-HoldsGroups g (λ z (r', zs, n, i). h z (r', zs, inr n, i)) y (r, ys, m, k)
  sort_groups-HoldsGroups ((q, x ∷ xs) ∷ g) h y (r, ys, inl e, k) =
      let k' : In y (sort_items (x ∷ xs)) =
        subst (λ l. In y l) (ap (λ (z : String × List QualifiedSnapshot). z.1) e) k in
      h y (q, x ∷ xs, inl refl, sort_items-In y (x ∷ xs) k')
  sort_groups-HoldsGroups ((q, x ∷ xs) ∷ g) h y (r, ys, inr m, k) =
      sort_groups-HoldsGroups g (λ z (r', zs, n, i). h z (r', zs, inr n, i)) y (r, ys, m, k)

  insert_group-In :
      (x y : String × List QualifiedSnapshot) (g : Grouped)
      → In y (insert_group x g)
      → (y ≡ x) ⊎ In y g
  unfolding insert_group
  insert_group-In x y [] (inl e) = inl e
  insert_group-In x y [] (inr m) = absurd m
  insert_group-In x y (z ∷ g) m = elim (Bool-cases (qualifier_lt (z.0) (x.0))) [
    | inl p ↦
        let m' : In y (z ∷ insert_group x g) = rw p at m in
        elim m' [
          | inl e ↦ inr (inl e)
          | inr rest ↦ elim (insert_group-In x y g rest) [ inl e ↦ inl e | inr old ↦ inr (inr old) ]
        ]
    | inr p ↦ let m' : In y (x ∷ z ∷ g) = rw p at m in m'
  ]

  order_groups-In :
      (y : String × List QualifiedSnapshot) (g : Grouped) → In y (order_groups g) → In y g
  unfolding order_groups
  order_groups-In y [] m = m
  order_groups-In y (x ∷ g) m = elim (insert_group-In x y (order_groups g) m) [
    | inl e ↦ inl e
    | inr old ↦ inr (order_groups-In y g old)
  ]

  no_groups-HoldsGroups : HoldsGroups (("missing", []) ∷ ("extra", []) ∷ [])
  no_groups-HoldsGroups x (q, xs, inl e, k) =
      absurd (subst (λ l. In x l) (ap (λ (z : String × List QualifiedSnapshot). z.1) e) k)
  no_groups-HoldsGroups x (q, xs, inr (inl e), k) =
      absurd (subst (λ l. In x l) (ap (λ (z : String × List QualifiedSnapshot). z.1) e) k)
  no_groups-HoldsGroups x (q, xs, inr (inr m), k) = absurd m

  -- What a comparison reports has the property, if all snapshots of both visits have it.
  pub diff_snapshots-HoldsGroups :
      (baseline current : List ResourceSnapshot)
      → Holds baseline
      → Holds current
      → HoldsGroups (diff_snapshots baseline current)
  unfolding diff_snapshots drift
  diff_snapshots-HoldsGroups baseline current hb hc =
      let nothing : HoldsKeyed [] = λ k s m. absurd m in
      let kb = put_all-HoldsKeyed baseline [] hb nothing in
      let kc = put_all-HoldsKeyed current [] hc nothing in
      let events : HoldsEvents (drift (by_key baseline) (by_key current)) = λ e m.
        elim (In-append e (missing_events (by_key baseline) (by_key current)) _ m) [
          | inl l ↦ missing_events-HoldsEvents _ (by_key current) kb e l
          | inr r ↦ current_events-HoldsEvents (by_key baseline) _ kc e r
        ] in
      let sorted =
        sort_groups-HoldsGroups _ (group_all-HoldsGroups _ _ events no_groups-HoldsGroups) in
      λ x (q, xs, m, k). sorted x (q, xs, order_groups-In (q, xs) _ m, k)
