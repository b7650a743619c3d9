-- ===== src/Scheduler/Session/Retries.antt =====
-- A transition test that skipped is not run again from the same state, under any of its copies.
use charm_integration_testin.Prelude.{
  ℕ, ◌≡◌, ◌≢◌, refl, sym, ap, ◌∙◌, inl, inr, true, Option, none, some, List, [], ◌∷◌, arith,
  if◌then◌else◌, Bool-cases, ==_iff, subst,
}
use charm_integration_testin.Scheduler.State.{State, state_eq, state_eq_iff}
use charm_integration_testin.Scheduler.Graph.{StateTransition, transition_eq}
use charm_integration_testin.Scheduler.Marker.{StateMarker, is_transition, contains_state}
use charm_integration_testin.Scheduler.Item.{Item, marker_of, has_id, original_id}
use charm_integration_testin.Scheduler.Session.{
  Session, edge, skipped_ids_of, record_skipped_transition_candidate, record_skip, report_marked,
  report_item, makereport, Phase, ReportOutcome, setup, call, teardown, passed, failed, skipped,
  xfailed, run, skip_unreachable, skip_retry, setup_item, setup_marked, runtest_setup,
}
use charm_integration_testin.Scheduler.Session.Skips.{transition_eq_iff, skipped_ids-record}
use charm_integration_testin.Scheduler.Session.Safety.{
  History, SameBeliefs, start, report, bridge, is_item-ne,
}

abbrev HasSkipped : Session → StateTransition → ℕ → Type 0
HasSkipped s t i = has_id (skipped_ids_of s t) i ≡ true

has_id-cons : (x i : ℕ) (ids : List ℕ) → has_id ids i ≡ true → has_id (x ∷ ids) i ≡ true
unfolding has_id
has_id-cons x i ids h = ground arith

has_id-here : (i : ℕ) (ids : List ℕ) → has_id (i ∷ ids) i ≡ true
unfolding has_id
has_id-here i ids = rw ((==_iff i i).1 refl)

record-HasSkipped :
    (t u : StateTransition) (item : Item) (i : ℕ) (s : Session)
    → HasSkipped s u i
    → HasSkipped (record_skipped_transition_candidate t item s) u i
record-HasSkipped t u item i s h =
    rw (skipped_ids-record t item s u) (elim (Bool-cases (transition_eq t u)) [
      | inl p ↦ rw p (has_id-cons _ i _ (rw ((transition_eq_iff t u).0 p) h))
      | inr p ↦ rw p h
    ])

record-here :
    (t : StateTransition) (item : Item) (s : Session)
    → HasSkipped
        (record_skipped_transition_candidate t item s)
        t
        (original_id s.identities item.ident)
record-here t item s =
    rw (skipped_ids-record t item s t, (transition_eq_iff t t).1 refl) (has_id-here _ _)

module _ (current provides : State) (item : Item) where
  abbrev next : State → Session → Session
  next req s =
      if state_eq req current
      then record_skipped_transition_candidate (edge req provides) item s
      else s

  record_skip-HasSkipped :
      (u : StateTransition) (i : ℕ) (requires : List State) (s : Session)
      → HasSkipped s u i
      → HasSkipped (record_skip current provides item requires s) u i
  unfolding record_skip
  record_skip-HasSkipped u i [] s h = h
  record_skip-HasSkipped u i (req ∷ rest) s h =
      let kept : HasSkipped (next req s) u i = elim (Bool-cases (state_eq req current)) [
        | inl p ↦ rw p (record-HasSkipped (edge req provides) u item i s h)
        | inr p ↦ rw p h
      ] in
      record_skip-HasSkipped u i rest (next req s) kept

  record_skip-here :
      (requires : List State) (s : Session)
      → contains_state requires current ≡ true
      → HasSkipped
          (record_skip current provides item requires s)
          (edge current provides)
          (original_id s.identities item.ident)
  unfolding record_skip contains_state
  record_skip-here [] s h = absurd (cc)
  record_skip-here (req ∷ rest) s h = elim (Bool-cases (state_eq req current)) [
    | inl p ↦
        let e = (state_eq_iff req current).0 p in
        rw (p, e)
          (record_skip-HasSkipped (edge current provides) _ rest _
            (record-here (edge current provides) item s))
    | inr p ↦ rw p (record_skip-here rest s (rw p at h))
  ]

report_marked-HasSkipped :
    (u : StateTransition) (i : ℕ) (current : State) (marker : StateMarker) (item : Item)
    (phase : Phase) (outcome : ReportOutcome) (s : Session)
    → HasSkipped s u i
    → HasSkipped (report_marked current marker item phase outcome s) u i
unfolding report_marked skipped_ids_of
report_marked-HasSkipped u i current marker item phase failed s h = h
report_marked-HasSkipped u i current marker item phase xfailed s h = h
report_marked-HasSkipped u i current marker item call passed s h = h
report_marked-HasSkipped u i current marker item setup passed s h = h
report_marked-HasSkipped u i current marker item teardown passed s h = h
report_marked-HasSkipped u i current marker item phase skipped s h =
    elim (Bool-cases (is_transition marker)) [
      | inl p ↦ rw p (record_skip-HasSkipped current marker.provides item u i marker.requires s h)
      | inr p ↦ rw p h
    ]

report_item-HasSkipped :
    (u : StateTransition) (i : ℕ) (current : Option State) (marker : Option StateMarker)
    (item : Item) (phase : Phase) (outcome : ReportOutcome) (s : Session)
    → HasSkipped s u i
    → HasSkipped (report_item current marker item phase outcome s) u i
unfolding report_item
report_item-HasSkipped u i none marker item phase outcome s h = h
report_item-HasSkipped u i (some c) none item phase outcome s h = h
report_item-HasSkipped u i (some c) (some m) item phase outcome s h =
    report_marked-HasSkipped u i c m item phase outcome s h

SameBeliefs-HasSkipped :
    {s s' : Session}
    → SameBeliefs s s'
    → (u : StateTransition) (i : ℕ) → HasSkipped s u i
    → HasSkipped s' u i
unfolding skipped_ids_of
SameBeliefs-HasSkipped same u i h = rw same.same_skips h

History-HasSkipped :
    {s₀ : Session} {env₀ : State} {s : Session} {env : State} (u : StateTransition) (i : ℕ)
    → HasSkipped s₀ u i
    → History s₀ env₀ s env
    → HasSkipped s u i
unfolding makereport
History-HasSkipped u i h start = h
History-HasSkipped u i h (report {s = s} item phase outcome r effect e) = rw e (
    report_item-HasSkipped u i s.current_state (marker_of item) item phase outcome s
      (History-HasSkipped u i h r))
History-HasSkipped u i h (bridge {s = s} r same) =
    SameBeliefs-HasSkipped same u i (History-HasSkipped u i h r)

first_skip :
    (current : State) (item : Item) (phase : Phase) (m : StateMarker) (s : Session)
    → s.current_state ≡ some current
    → marker_of item ≡ some m
    → is_transition m ≡ true
    → contains_state m.requires current ≡ true
    → HasSkipped
        (makereport item phase skipped s)
        (edge current m.provides)
        (original_id s.identities item.ident)
unfolding makereport report_item report_marked
first_skip current item phase m s at marked trans req =
    let t = edge current m.provides in
    let i = original_id s.identities item.ident in
    let here : HasSkipped (report_marked current m item phase skipped s) t i =
      rw trans (record_skip-here current m.provides item m.requires s req) in
    subst (λ c. HasSkipped (report_item c (marker_of item) item phase skipped s) t i) (sym at)
      (subst (λ k. HasSkipped (report_item (some current) k item phase skipped s) t i) (sym marked)
        here)

setup_retry :
    (current : State) (item : Item) (m : StateMarker) (s : Session)
    → is_transition m ≡ true
    → HasSkipped s (edge current m.provides) (original_id s.identities item.ident)
    → setup_marked (some current) item m s ≢ run
unfolding setup_marked
setup_retry current item m s t h e = elim (Bool-cases (contains_state m.requires current)) [
  | inl p ↦ let e' : skip_retry ≡ run = rw (p, t, h) at e in cc
  | inr p ↦ let e' : skip_unreachable ≡ run = rw p at e in cc
]

-- A transition test that skips while the environment is at a state it requires is not let run at
-- that state after any further reports and injected bridges, and neither is a copy of it, unless it is the test that
-- failed.
pub skipped_not_retried :
    (s s' : Session) (env env' current : State) (item later : Item) (phase : Phase)
    (m : StateMarker)
    → s.current_state ≡ some current
    → marker_of item ≡ some m
    → is_transition m ≡ true
    → contains_state m.requires current ≡ true
    → History (makereport item phase skipped s) env s' env'
    → marker_of later ≡ some m
    → original_id s'.identities later.ident ≡ original_id s.identities item.ident
    → s'.current_state ≡ some current
    → s'.failed_state_test ≢ some later.ident
    → runtest_setup later s' ≢ run
unfolding runtest_setup setup_item
skipped_not_retried s s' env env' current item later phase m at marked trans req r marked' same at'
      other decision =
    let first = first_skip current item phase m s at marked trans req in
    let then' = History-HasSkipped (edge current m.provides) _ first r in
    let d : setup_marked s'.current_state later m s' ≡ run =
      rw (is_item-ne s'.failed_state_test later other, marked') at decision in
    setup_retry current later m s' trans (rw same then')
      (ap (λ (c : Option State). setup_marked c later m s') (sym at') ∙ d)
