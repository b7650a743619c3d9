-- ===== src/Tracking/Samples.antt =====
-- Two visits of a model: tests of the comparison, and the theorems at concrete inputs.
use charm_integration_testin.Prelude.{
  ◌≡◌, refl, sym, ap, ◌∙◌, eq_iff, inl, inr, true, false, String, some, List, [], ◌∷◌, In,
}
use charm_integration_testin.Prelude.Dict.{get, put}
use charm_integration_testin.Scheduler.State.{value, deployed, state_eq}
use charm_integration_testin.Tracking.Snapshot.{ResourceSnapshot, pvc, service}
use charm_integration_testin.Tracking.Discrepancy.{
  Key, key_of, DiscrepancyEntry, ModelResourceDiscrepancy, entries, diff_snapshots, put_all,
  modifications, sort_items,
}
use charm_integration_testin.Tracking.Visits.{
  ResourceObservation, visit_of, has_text, record_observation, calculate_discrepancies,
}
use charm_integration_testin.Tracking.Reports.{calculate_discrepancies-not_skipped}
use charm_integration_testin.Tracking.Sets.{IsKeyed, IsSameSet}
use charm_integration_testin.Tracking.Unchanged.{IsSteady, calculate_discrepancies-unchanged}

abbrev volume : String → ResourceSnapshot
volume size = pvc (record {
  name = "data";
  namespace = "ns";
  storage_class = "fast";
  requested_storage = size;
  phase = "Bound";
  application = "db";
})

abbrev front : String → ResourceSnapshot
front ports = service (record {
  name = "front";
  namespace = "ns";
  service_type = "ClusterIP";
  cluster_ip = "10.0.0.1";
  ports = ports;
  application = "web";
})

abbrev visit : List ResourceSnapshot → ResourceObservation
visit snapshots = record {
  state = deployed;
  controller = "c";
  model = "m";
  snapshots = snapshots;
  skips_by_application = ("web", "service" ∷ []) ∷ [];
}

abbrev drifted : ModelResourceDiscrepancy
drifted = record {
  state = deployed;
  controller = "c";
  model = "m";
  qualified =
      ("resized", record { snapshot = volume "2Gi"; baseline = some (volume "1Gi") } ∷ []) ∷ [];
}

abbrev two_visits : List ResourceObservation
two_visits = visit (volume "1Gi" ∷ front "80" ∷ []) ∷ visit (volume "2Gi" ∷ []) ∷ []

tracking_program : Unit {0}
unfolding calculate_discrepancies record_observation entries has_text get put state_eq value
    diff_snapshots put_all modifications sort_items
tracking_program = tt

-- The claim is resized, and the service is not missed, since its type is skipped.
resized : calculate_discrepancies two_visits ≡ drifted ∷ []
unfolding tracking_program
resized = refl

-- Ports that appear are no change; ports that differ are one.
ports_settle : diff_snapshots (front "" ∷ []) (front "80" ∷ []) ≡ []
unfolding tracking_program
ports_settle = refl

recorded :
    record_observation deployed "c" "m" [] (("web", "service" ∷ []) ∷ ("db", []) ∷ []) []
    ≡ visit [] ∷ []
unfolding tracking_program
recorded = refl

abbrev entry : DiscrepancyEntry
entry = record {
  resource_type = "pvc";
  qualifier = "resized";
  state = value deployed;
  controller = "c";
  model = "m";
  snapshot = volume "2Gi";
  baseline = some (volume "1Gi");
}

is_reported : In drifted (calculate_discrepancies two_visits)
unfolding tracking_program
is_reported = inl refl

is_entry : In entry (entries drifted)
unfolding tracking_program
is_entry = inl refl

abbrev skipping : ResourceObservation
skipping = record (visit (volume "2Gi" ∷ [])) { skips_by_application = ("db", "secret" ∷ []) ∷ [] }

abbrev skipped_visits : List ResourceObservation
skipped_visits = visit (volume "1Gi" ∷ []) ∷ skipping ∷ []

also_reported : In drifted (calculate_discrepancies skipped_visits)
unfolding tracking_program
also_reported = inl refl

calculate_discrepancies-not_skipped_example : has_text ("secret" ∷ []) "pvc" ≡ false
calculate_discrepancies-not_skipped_example =
    calculate_discrepancies-not_skipped skipped_visits drifted entry skipping ("secret" ∷ [])
      also_reported is_entry (inr (inl refl)) (refl, refl) (inl refl)

-- The second visit iterates over the same set in the other order.
abbrev forth : List ResourceSnapshot
forth = volume "1Gi" ∷ front "80" ∷ []

abbrev back : List ResourceSnapshot
back = front "80" ∷ volume "1Gi" ∷ []

abbrev twice : List ResourceObservation
twice = visit forth ∷ visit back ∷ []

same_set : IsSameSet forth back
same_set s = (forwards, backwards)
  where
    forwards : In s forth → In s back
    forwards (inl e) = inr (inl e)
    forwards (inr (inl e)) = inl e
    forwards (inr (inr m)) = absurd m

    backwards : In s back → In s forth
    backwards (inl e) = inr (inl e)
    backwards (inr (inl e)) = inl e
    backwards (inr (inr m)) = absurd m

forth-IsKeyed : IsKeyed forth
forth-IsKeyed s s' (inl p) (inl q) e = p ∙ sym q
forth-IsKeyed s s' (inl p) (inr (inl q)) e =
    let e' : "pvc" ≡ "service" = ap (λ (k : Key). k.0) (ap key_of (sym p) ∙ (e ∙ ap key_of q)) in
    let t : false ≡ true = (eq_iff "pvc" "service").1 e' in absurd (cc)
forth-IsKeyed s s' (inr (inl p)) (inl q) e =
    let e' : "service" ≡ "pvc" = ap (λ (k : Key). k.0) (ap key_of (sym p) ∙ (e ∙ ap key_of q)) in
    let t : false ≡ true = (eq_iff "service" "pvc").1 e' in absurd (cc)
forth-IsKeyed s s' (inr (inl p)) (inr (inl q)) e = p ∙ sym q
forth-IsKeyed s s' (inr (inr m)) k e = absurd m
forth-IsKeyed s s' (inl p) (inr (inr m)) e = absurd m
forth-IsKeyed s s' (inr (inl p)) (inr (inr m)) e = absurd m

twice-IsSteady : IsSteady twice
twice-IsSteady = (steady, keyed)
  where
    steady :
        (o o' : ResourceObservation)
        → In o twice
        → In o' twice
        → visit_of o ≡ visit_of o'
        → IsSameSet o.snapshots o'.snapshots
    steady o o' (inl p) (inl q) e = rw (p, q) (λ s. (λ m. m, λ m. m))
    steady o o' (inl p) (inr (inl q)) e = rw (p, q) same_set
    steady o o' (inr (inl p)) (inl q) e = rw (p, q) (λ s. ((same_set s).1, (same_set s).0))
    steady o o' (inr (inl p)) (inr (inl q)) e = rw (p, q) (λ s. (λ m. m, λ m. m))
    steady o o' (inr (inr m)) k e = absurd m
    steady o o' (inl p) (inr (inr m)) e = absurd m
    steady o o' (inr (inl p)) (inr (inr m)) e = absurd m

    keyed : (o : ResourceObservation) → In o twice → IsKeyed o.snapshots
    keyed o (inl p) = rw p forth-IsKeyed
    keyed o (inr (inl p)) =
        rw p (λ s s' m m'. forth-IsKeyed s s' ((same_set s).1 m) ((same_set s').1 m'))
    keyed o (inr (inr m)) = absurd m

calculate_discrepancies-unchanged_example : calculate_discrepancies twice ≡ []
calculate_discrepancies-unchanged_example = calculate_discrepancies-unchanged twice twice-IsSteady
