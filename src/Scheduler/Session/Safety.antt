-- ===== src/Scheduler/Session/Safety.antt =====
-- Runs of the hooks against the environment that the tests move: what a test that is let run finds,
-- and what is never run again.
use charm_integration_testin.Prelude.{
  ℕ, ◌≡◌, ◌≢◌, refl, sym, ap, ◌∙◌, inl, inr, true, false, Option, none, some, List, [], ◌∷◌, ◌==◌,
  if◌then◌else◌, Bool-cases, In, ==_iff,
}
use charm_integration_testin.Scheduler.State.{State, state_eq, state_eq_iff}
use charm_integration_testin.Scheduler.Marker.{StateMarker, is_transition, contains_state}
use charm_integration_testin.Scheduler.Item.{Item, marker_of}
use charm_integration_testin.Scheduler.Session.{
  Session, edge, record_skipped_transition_candidate, record_skip, report_marked, report_item,
  makereport, Phase, ReportOutcome, setup, call, teardown, passed, failed, skipped, xfailed, run,
  skip_unreachable, is_item, setup_item, setup_marked, runtest_setup,
}

-- What a report says of the environment. A test that passes leaves the state that it provides, one
-- that skips leaves the environment alone, and one that fails may leave any state. A test without a
-- marker leaves the environment alone, whatever it reports.
pub data Effect (item : Item) : Phase → ReportOutcome → State → State → Type 0 where
  unmarked :
      {phase : Phase} {outcome : ReportOutcome} {env : State}
      → marker_of item ≡ none
      → Effect item phase outcome env env
  passes :
      {env env' : State} {m : StateMarker}
      → marker_of item ≡ some m
      → env' ≡ m.provides
      → Effect item call passed env env'
  prepares : {env : State} → Effect item setup passed env env
  cleans : {env : State} → Effect item teardown passed env env
  skips : {phase : Phase} {env : State} → Effect item phase skipped env env
  fails :
      {phase : Phase} {env env' : State} {m : StateMarker}
      → marker_of item ≡ some m
      → Effect item phase failed env env'
  xfails :
      {phase : Phase} {env env' : State} {m : StateMarker}
      → marker_of item ≡ some m
      → Effect item phase xfailed env env'

-- What the injection of a bridge leaves as it is.
pub record SameBeliefs (s s' : Session) : Type 0 where
  pub same_state : s'.current_state ≡ s.current_state
  pub same_failed : s'.failed_state_test ≡ s.failed_state_test
  pub same_skips : s'.skipped_item_ids ≡ s.skipped_item_ids
  pub same_avoided : s'.skipped_transitions ≡ s.skipped_transitions
  pub same_tests : s'.all_transitions ≡ s.all_transitions
  pub same_graph : s'.full_graph ≡ s.full_graph

-- Sequences of reports, in any order and of any items, with bridges injected between them, from a
-- session and an environment.
pub data History (s₀ : Session) (env₀ : State) : Session → State → Type 0 where
  start : History s₀ env₀ s₀ env₀
  report :
      {s s' : Session} {env env' : State} (item : Item) (phase : Phase) (outcome : ReportOutcome)
      → History s₀ env₀ s env
      → Effect item phase outcome env env'
      → s' ≡ makereport item phase outcome s
      → History s₀ env₀ s' env'
  bridge :
      {s s' : Session} {env : State}
      → History s₀ env₀ s env
      → SameBeliefs s s'
      → History s₀ env₀ s' env

-- What the scheduler believes is so.
abbrev pub Tracks : Session → State → Type 0
Tracks s env = (c : State) → s.current_state ≡ some c → c ≡ env

current-record_skip :
    (current provides : State) (item : Item) (requires : List State) (s : Session)
    → (record_skip current provides item requires s).current_state ≡ s.current_state
unfolding record_skip record_skipped_transition_candidate
current-record_skip current provides item [] s = refl
current-record_skip current provides item (req ∷ rest) s =
    let t = edge req provides in
    let next = if state_eq req current then record_skipped_transition_candidate t item s else s in
    let same : next.current_state ≡ s.current_state = elim (Bool-cases (state_eq req current)) [
      | inl p ↦ rw p
      | inr p ↦ rw p
    ] in
    current-record_skip current provides item rest next ∙ same

current-report_skip :
    (current : State) (marker : StateMarker) (item : Item) (phase : Phase) (s : Session)
    → (report_marked current marker item phase skipped s).current_state ≡ s.current_state
unfolding report_marked
current-report_skip current marker item phase s = elim (Bool-cases (is_transition marker)) [
  | inl p ↦ rw p (current-record_skip current marker.provides item marker.requires s)
  | inr p ↦ rw p
]

-- One report, for each way to look up the state and the marker.
report-Tracks :
    {item : Item} {phase : Phase} {outcome : ReportOutcome} {env env' : State} (s : Session)
    (current : Option State) (marker : Option StateMarker)
    → s.current_state ≡ current
    → marker_of item ≡ marker
    → Effect item phase outcome env env'
    → Tracks s env
    → Tracks (report_item current marker item phase outcome s) env'
unfolding report_item report_marked
report-Tracks s none marker p q e h c at = absurd (cc)
report-Tracks s (some k) none p q (unmarked _) h c at = h c at
report-Tracks s (some k) none p q (passes m _) h c at = absurd (cc)
report-Tracks s (some k) none p q prepares h c at = h c at
report-Tracks s (some k) none p q cleans h c at = h c at
report-Tracks s (some k) none p q skips h c at = h c at
report-Tracks s (some k) none p q (fails m) h c at = absurd (cc)
report-Tracks s (some k) none p q (xfails m) h c at = absurd (cc)
report-Tracks s (some k) (some m) p q (unmarked u) h c at = absurd (cc)
report-Tracks s (some k) (some m) p q (passes u e) h c at = cc
report-Tracks s (some k) (some m) p q prepares h c at = h c at
report-Tracks s (some k) (some m) p q cleans h c at = h c at
report-Tracks {item} {phase} s (some k) (some m) p q skips h c at =
    h c (sym (current-report_skip k m item phase s) ∙ at)
report-Tracks s (some k) (some m) p q (fails u) h c at = absurd (cc)
report-Tracks s (some k) (some m) p q (xfails u) h c at = absurd (cc)

History-Tracks :
    {s₀ : Session} {env₀ : State} {s : Session} {env : State}
    → Tracks s₀ env₀
    → History s₀ env₀ s env
    → Tracks s env
unfolding makereport
History-Tracks h start c at = h c at
History-Tracks h (report {s = s} item phase outcome r effect e) c at =
    report-Tracks s s.current_state (marker_of item) refl refl effect (History-Tracks h r) c
      (ap (λ (x : Session). x.current_state) (sym e) ∙ at)
History-Tracks h (bridge r same) c at = History-Tracks h r c (sym same.same_state ∙ at)

contains_state-In :
    (requires : List State) (c : State) → contains_state requires c ≡ true → In c requires
unfolding contains_state
contains_state-In [] c h = absurd (cc)
contains_state-In (r ∷ rs) c h = elim (Bool-cases (state_eq r c)) [
  | inl p ↦ inl (sym ((state_eq_iff r c).0 p))
  | inr p ↦ inr (contains_state-In rs c (rw p at h))
]

setup_run-requires :
    (current : Option State) (item : Item) (m : StateMarker) (s : Session)
    → setup_marked current item m s ≡ run
    → (c : State) × (current ≡ some c) × In c m.requires
unfolding setup_marked
setup_run-requires none item m s h = absurd (cc)
setup_run-requires (some c) item m s h = elim (Bool-cases (contains_state m.requires c)) [
  | inl p ↦ (c, refl, contains_state-In m.requires c p)
  | inr p ↦ let h' : skip_unreachable ≡ run = rw p at h in absurd (cc)
]

pub is_item-ne :
    (failed_test : Option ℕ) (item : Item)
    → failed_test ≢ some item.ident
    → is_item failed_test item ≡ false
is_item-ne none item h = refl
is_item-ne (some i) item h = elim (Bool-cases (i == item.ident)) [
  | inl p ↦ absurd (h (ap some ((==_iff i item.ident).0 p)))
  | inr p ↦ p
]

-- If the scheduler starts from the actual state, then after any reports and injected
-- bridges a marked test that setup lets run finds the environment in one of the states that it requires, unless it is the test that failed.
pub run_finds_required_state :
    (s₀ s : Session) (env₀ env : State) (item : Item) (m : StateMarker)
    → Tracks s₀ env₀
    → History s₀ env₀ s env
    → marker_of item ≡ some m
    → s.failed_state_test ≢ some item.ident
    → runtest_setup item s ≡ run
    → In env m.requires
unfolding runtest_setup setup_item
run_finds_required_state s₀ s env₀ env item m h r marked other decision =
    let decision' : setup_marked s.current_state item m s ≡ run =
      rw (is_item-ne s.failed_state_test item other, marked) at decision in
    let (c, at, m') = setup_run-requires s.current_state item m s decision' in
    rw (History-Tracks h r c at) at m'
