-- ===== src/Scheduler/Session/Skips.antt =====
-- The bookkeeping of skipped transitions: an edge is given up exactly when every test for it skipped.
use charm_integration_testin.Prelude.{
  ℕ, ◌≡◌, refl, sym, ◌∙◌, ◌↔◌, inl, inr, Bool, true, false, not, ◌&&◌, ◌||◌, Option, none, some,
  List, [], ◌∷◌, ==_iff, arith, if◌then◌else◌, Bool-cases,
}
use charm_integration_testin.Prelude.Dict.{get-put}
use charm_integration_testin.Scheduler.State.{State, state_eq, state_eq_iff}
use charm_integration_testin.Scheduler.Graph.{StateTransition, transition_eq, contains}
use charm_integration_testin.Scheduler.Marker.{StateMarker, is_transition}
use charm_integration_testin.Scheduler.Item.{Item, marker_of, has_id, original_id}
use charm_integration_testin.Scheduler.Session.{
  Session, edge, candidates_of, skipped_ids_of, all_skipped, is_empty,
  record_skipped_transition_candidate, record_skip, report_marked, report_item, makereport, Phase,
  ReportOutcome, setup, call, teardown, passed, failed, skipped, xfailed,
}

pub transition_eq_iff : (a b : StateTransition) → (transition_eq a b ≡ true) ↔ (a ≡ b)
unfolding transition_eq
transition_eq_iff a b = (
  λ h.
      let p = (state_eq_iff a.from_state b.from_state).0 (ground arith) in
      let q = (state_eq_iff a.to_state b.to_state).0 (ground arith) in
      let r : a.cost ≡ b.cost = ground arith in
      λ i. record { from_state = p i; to_state = q i; cost = r i },
  λ e. rw (
    e,
    (state_eq_iff b.from_state b.from_state).1 refl,
    (state_eq_iff b.to_state b.to_state).1 refl,
    (==_iff b.cost b.cost).1 refl,
  ),
)

-- Every candidate for the edge skipped, and there is one.
abbrev pub exhausted : Session → StateTransition → Bool
exhausted s t =
    not (is_empty (candidates_of s t)) && all_skipped (skipped_ids_of s t) (candidates_of s t)

-- The edges that recovery avoids are the exhausted ones.
abbrev pub IsTracked : Session → Type 0
IsTracked s = (t : StateTransition) → contains s.skipped_transitions t ≡ exhausted s t

all_skipped-cons :
    (i : ℕ) (ids : List ℕ) (cs : List Item)
    → all_skipped (i ∷ ids) cs ≡ false
    → all_skipped ids cs ≡ false
unfolding all_skipped has_id
all_skipped-cons i ids [] h = h
all_skipped-cons i ids (c ∷ cs) h = ground (arith, all_skipped-cons i ids cs)

module _ (t : StateTransition) (item : Item) (s : Session) where
  abbrev pub after : Session
  after = record_skipped_transition_candidate t item s

  abbrev pub ids : List ℕ
  ids = original_id s.identities item.ident ∷ skipped_ids_of s t

  pub skipped_ids-record :
      (u : StateTransition)
      → skipped_ids_of after u ≡ (if transition_eq t u then ids else skipped_ids_of s u)
  unfolding record_skipped_transition_candidate skipped_ids_of
  skipped_ids-record u =
      rw
        (get-put transition_eq transition_eq_iff s.skipped_item_ids t u
          (unfold skipped_ids_of in ids))
        (elim (Bool-cases (transition_eq t u)) [ inl p ↦ rw p | inr p ↦ rw p ])

  candidates-record : (u : StateTransition) → candidates_of after u ≡ candidates_of s u
  unfolding record_skipped_transition_candidate candidates_of
  candidates-record u = refl

  abbrev all_gone : Bool
  all_gone = not (is_empty (candidates_of s t)) && all_skipped ids (candidates_of s t)

  skipped-record :
      (u : StateTransition)
      → contains after.skipped_transitions u ≡ (
          if all_gone
          then transition_eq u t || contains s.skipped_transitions u
          else contains s.skipped_transitions u)
  unfolding record_skipped_transition_candidate contains
  skipped-record u = elim (Bool-cases all_gone) [ inl p ↦ rw p | inr p ↦ rw p ]

  still_open : all_gone ≡ false → exhausted s t ≡ false
  still_open h = elim (Bool-cases (is_empty (candidates_of s t))) [
    | inl p ↦ rw p
    | inr p ↦ rw p (all_skipped-cons _ _ (candidates_of s t) (rw p at h))
  ]

  record-IsTracked : IsTracked s → IsTracked after
  record-IsTracked h u =
      rw (skipped-record u, skipped_ids-record u, candidates-record u)
        (elim (Bool-cases (transition_eq t u)) [
          | inl same ↦
              let e = (transition_eq_iff t u).0 same in
              let self = (transition_eq_iff u u).1 refl in
              rw (← e) (
                rw ((transition_eq_iff t t).1 refl) (elim (Bool-cases all_gone) [
                  | inl gone ↦ rw gone
                  | inr open' ↦ rw open' (h t ∙ still_open open')
                ]))
          | inr other ↦
              let flipped : transition_eq u t ≡ false = elim (Bool-cases (transition_eq u t)) [
                | inl p ↦
                    let q = (transition_eq_iff t u).1 (sym ((transition_eq_iff u t).0 p)) in
                    absurd (cc)
                | inr p ↦ p
              ] in
              rw (other, flipped)
                (elim (Bool-cases all_gone) [
                  | inl gone ↦ rw gone (h u)
                  | inr open' ↦ rw open' (h u)
                ])
        ])

record_skip-IsTracked :
    (current provides : State) (item : Item) (requires : List State) (s : Session)
    → IsTracked s
    → IsTracked (record_skip current provides item requires s)
unfolding record_skip
record_skip-IsTracked current provides item [] s h = h
record_skip-IsTracked current provides item (req ∷ rest) s h =
    record_skip-IsTracked current provides item rest _ (elim (Bool-cases (state_eq req current)) [
      | inl p ↦ rw p (record-IsTracked (edge req provides) item s h)
      | inr p ↦ rw p h
    ])

IsTracked-report :
    (current : State) (marker : StateMarker) (item : Item) (phase : Phase) (outcome : ReportOutcome)
    (s : Session)
    → IsTracked s
    → IsTracked (report_marked current marker item phase outcome s)
unfolding report_marked candidates_of skipped_ids_of
IsTracked-report current marker item phase failed s h = h
IsTracked-report current marker item phase xfailed s h = h
IsTracked-report current marker item call passed s h = h
IsTracked-report current marker item setup passed s h = h
IsTracked-report current marker item teardown passed s h = h
IsTracked-report current marker item phase skipped s h = elim (Bool-cases (is_transition marker)) [
  | inl p ↦ rw p (record_skip-IsTracked current marker.provides item marker.requires s h)
  | inr p ↦ rw p h
]

report_item-IsTracked :
    (current : Option State) (marker : Option StateMarker) (item : Item) (phase : Phase)
    (outcome : ReportOutcome) (s : Session)
    → IsTracked s
    → IsTracked (report_item current marker item phase outcome s)
unfolding report_item
report_item-IsTracked none marker item phase outcome s h = h
report_item-IsTracked (some current) none item phase outcome s h = h
report_item-IsTracked (some current) (some marker) item phase outcome s h =
    IsTracked-report current marker item phase outcome s h

-- Whatever a test reports, recovery avoids an edge exactly when there is a test for it and all of
-- them skipped.
pub makereport-IsTracked :
    (item : Item) (phase : Phase) (outcome : ReportOutcome) (s : Session)
    → IsTracked s
    → IsTracked (makereport item phase outcome s)
unfolding makereport
makereport-IsTracked item phase outcome s =
    report_item-IsTracked s.current_state (marker_of item) item phase outcome s
