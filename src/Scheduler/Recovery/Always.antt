-- ===== src/Scheduler/Recovery/Always.antt =====
-- Recovery at any time of a run: the hooks keep what the search for a bridge rests on.
use charm_integration_testin.Prelude.{
  ℕ, ◌≡◌, ◌≢◌, refl, ap, ◌∙◌, inl, inr, Option, none, some, List, [], ◌∷◌, if◌then◌else◌,
  Bool-cases, In, ok,
}
use charm_integration_testin.Scheduler.State.{State, state_eq}
use charm_integration_testin.Scheduler.Graph.{StateTransition, Edge, StateGraph, edges_from}
use charm_integration_testin.Scheduler.Marker.{StateMarker, is_transition}
use charm_integration_testin.Scheduler.Item.{Item, marker_of}
use charm_integration_testin.Scheduler.Session.{
  Session, edge, candidates_of, skipped_ids_of, record_skipped_transition_candidate, record_skip,
  report_marked, report_item, makereport, Phase, ReportOutcome, setup, call, teardown, passed,
  failed, skipped, xfailed,
}
use charm_integration_testin.Scheduler.Session.Skips.{IsTracked, makereport-IsTracked}
use charm_integration_testin.Scheduler.Session.Safety.{History, SameBeliefs, start, report, bridge}
use charm_integration_testin.Scheduler.Collection.{Built, no_edges, collect_edges, publish}
use charm_integration_testin.Scheduler.Collection.Graph.{publish-IsSoundGraph, publish-IsTracked}
use charm_integration_testin.Scheduler.Recovery.{find_recovery_bridge}
use charm_integration_testin.Scheduler.Recovery.Bridge.{IsBridge, find_recovery_bridge-IsBridge}

tests-record_skip :
    (current provides : State) (item : Item) (requires : List State) (s : Session)
    → (record_skip current provides item requires s).all_transitions ≡ s.all_transitions
unfolding record_skip record_skipped_transition_candidate
tests-record_skip current provides item [] s = refl
tests-record_skip current provides item (req ∷ rest) s =
    let t = edge req provides in
    let next = if state_eq req current then record_skipped_transition_candidate t item s else s in
    let same : next.all_transitions ≡ s.all_transitions = elim (Bool-cases (state_eq req current)) [
      | inl p ↦ rw p
      | inr p ↦ rw p
    ] in
    tests-record_skip current provides item rest next ∙ same

tests-report_item :
    (current : Option State) (marker : Option StateMarker) (item : Item) (phase : Phase)
    (outcome : ReportOutcome) (s : Session)
    → (report_item current marker item phase outcome s).all_transitions ≡ s.all_transitions
unfolding report_item report_marked
tests-report_item none marker item phase outcome s = refl
tests-report_item (some c) none item phase outcome s = refl
tests-report_item (some c) (some m) item phase failed s = refl
tests-report_item (some c) (some m) item phase xfailed s = refl
tests-report_item (some c) (some m) item call passed s = refl
tests-report_item (some c) (some m) item setup passed s = refl
tests-report_item (some c) (some m) item teardown passed s = refl
tests-report_item (some c) (some m) item phase skipped s = elim (Bool-cases (is_transition m)) [
  | inl p ↦ rw p (tests-record_skip c m.provides item m.requires s)
  | inr p ↦ rw p
]

-- Bookkeeping and tests as the collection left them.
record IsReady (tests : List (StateTransition × List Item)) (s : Session) : Type 0 where
  tracked : IsTracked s
  same : s.all_transitions ≡ tests

SameBeliefs-IsTracked : {s s' : Session} → SameBeliefs s s' → IsTracked s → IsTracked s'
unfolding candidates_of skipped_ids_of
SameBeliefs-IsTracked b h t = rw (b.same_avoided, b.same_tests, b.same_skips) (h t)

History-IsReady :
    {s₀ : Session} {env₀ : State} {s : Session} {env : State}
    (tests : List (StateTransition × List Item))
    → IsReady tests s₀
    → History s₀ env₀ s env
    → IsReady tests s
unfolding makereport
History-IsReady tests h start = h
History-IsReady tests h (report {s = s} item phase outcome r effect e) =
    let ih = History-IsReady tests h r in
    record {
      tracked = rw e (makereport-IsTracked item phase outcome s ih.tracked);
      same =
          ap (λ (x : Session). x.all_transitions) e
          ∙ tests-report_item s.current_state (marker_of item) item phase outcome s
          ∙ ih.same;
    }
History-IsReady tests h (bridge r b) =
    let ih = History-IsReady tests h r in
    record { tracked = SameBeliefs-IsTracked b ih.tracked; same = b.same_tests ∙ ih.same }

covered-of_same :
    (g : StateGraph Item) (s s' : Session)
    → s'.all_transitions ≡ s.all_transitions
    → ((x : State) (e : Edge Item) → In e (edges_from g x) → candidates_of s e.0 ≢ [])
    → (x : State) (e : Edge Item) → In e (edges_from g x)
    → candidates_of s' e.0 ≢ []
unfolding candidates_of
covered-of_same g s s' same h x e m none' = h x e m (rw same at none')

-- In a run of collected tests, after any reports and injected bridges, the bridge from any state to
-- any required states is a cheapest way that avoids the exhausted edges, made of copies of tests
-- that did not skip for their edges; if there is none, no such way exists.
pub recovery_after-History :
    (rng : State → ℕ → ℕ → ℕ) (items : List Item) (b : Built) (current : State) (s₀ s : Session)
    (env₀ env from_state : State) (to_states : List State)
    (collected : collect_edges items no_edges ≡ ok b)
    (history : History (publish current b s₀) env₀ s env)
    → IsBridge b.graph from_state to_states s
        (find_recovery_bridge rng b.graph from_state to_states s).0
recovery_after-History rng items b current s₀ s env₀ env from_state to_states collected history =
    let first = publish current b s₀ in
    let sound = publish-IsSoundGraph items b current s₀ collected in
    let ready =
      History-IsReady first.all_transitions
        (record { tracked = publish-IsTracked current b s₀; same = refl }) history in
    find_recovery_bridge-IsBridge rng b.graph from_state to_states s ready.tracked
      (covered-of_same b.graph first s ready.same sound.covered) sound.keyed sound.positive
