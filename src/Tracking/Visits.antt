-- ===== src/Tracking/Visits.antt =====
-- resource_tracking/tracker.py and `calculate_discrepancies`: the observations of a run, and their
-- comparison with the first visit of each state.
use charm_integration_testin.Prelude.{
  String, str_eq, Bool, false, ◌&&◌, ◌||◌, Option, none, some, List, [], ◌∷◌, ◌++◌, if◌then◌else◌,
}
use charm_integration_testin.Prelude.Dict.{get, put}
use charm_integration_testin.Scheduler.State.{State, state_eq}
use charm_integration_testin.Tracking.Snapshot.{ResourceSnapshot, resource_type, application_of}
use charm_integration_testin.Tracking.Discrepancy.{
  ModelResourceDiscrepancy, Grouped, Key, key_eq, diff_snapshots, text_lt,
}

-- (application, its skipped resource types)
abbrev pub Skip : Type 0
Skip = String × List String

-- The frozenset of snapshots is the list of its members in the order of the iteration, which says
-- nothing of the visit.
pub record ResourceObservation : Type 0 where
  pub state : State
  pub controller : String
  pub model : String
  pub snapshots : List ResourceSnapshot
  pub skips_by_application : List Skip

unfoldable pub insert_skip : Skip → List Skip → List Skip
insert_skip x [] = x ∷ []
insert_skip x (y ∷ ys) = if text_lt (y.0) (x.0) then y ∷ insert_skip x ys else x ∷ y ∷ ys

-- The tuple that `record` makes of the dict: applications without types are dropped, and the keys of
-- a dict differ, so that the applications alone decide the order.
unfoldable pub resolve_skips : List Skip → List Skip
unfolding insert_skip
resolve_skips [] = []
resolve_skips ((application, []) ∷ rest) = resolve_skips rest
resolve_skips ((application, t ∷ ts) ∷ rest) =
    insert_skip (application, t ∷ ts) (resolve_skips rest)

-- `StateResourceTracker.record`: the tracker is the list of its observations.
unfoldable pub record_observation :
    State
    → String
    → String
    → List ResourceSnapshot
    → List Skip
    → List ResourceObservation
    → List ResourceObservation
unfolding resolve_skips
record_observation state controller model snapshots skips tracker =
    tracker
    ++ record {
      state = state;
      controller = controller;
      model = model;
      snapshots = snapshots;
      skips_by_application = resolve_skips skips;
    }
      ∷ []

-- What a collector returns for one model.
pub record CollectedResources : Type 0 where
  pub controller : String
  pub model : String
  pub snapshots : List ResourceSnapshot

-- From (controller, model, application) to the skipped types.
abbrev pub Skips : Type 0
Skips = List (Key × List String)

unfoldable pub skips_in : String → String → Skips → List Skip
skips_in controller model [] = []
skips_in controller model (((c, m, application), types) ∷ rest) =
    if str_eq c controller && str_eq m model
    then (application, types) ∷ skips_in controller model rest
    else skips_in controller model rest

-- `StateResourceTracker.collect`, given what the collectors return in turn.
unfoldable pub collect :
    State → List CollectedResources → Skips → List ResourceObservation → List ResourceObservation
unfolding skips_in record_observation
collect state [] skips tracker = tracker
collect state (c ∷ rest) skips tracker = collect state rest skips (
    record_observation state c.controller c.model c.snapshots (skips_in c.controller c.model skips)
      tracker)

unfoldable pub has_text : List String → String → Bool
has_text [] t = false
has_text (x ∷ xs) t = str_eq x t || has_text xs t

abbrev pub types_or_none : Option (List String) → List String
types_or_none none = []
types_or_none (some types) = types

abbrev pub skipped_types : Skips → Key → List String
skipped_types skips key = types_or_none (get key_eq skips key)

-- `_without_skipped`
unfoldable pub without_skipped :
    List ResourceSnapshot → String → String → Skips → List ResourceSnapshot
unfolding has_text
without_skipped [] controller model skips = []
without_skipped (s ∷ rest) controller model skips =
    let kept = without_skipped rest controller model skips in
    if has_text (skipped_types skips (controller, model, application_of s)) (resource_type s)
    then kept
    else s ∷ kept

unfoldable pub add_skips : String → String → List Skip → Skips → Skips
add_skips controller model [] skips = skips
add_skips controller model ((application, types) ∷ rest) skips =
    let key : Key = (controller, model, application) in
    add_skips controller model rest (put key_eq skips key (skipped_types skips key ++ types))

-- The first loop of `calculate_discrepancies`.
unfoldable pub resolved_skips : List ResourceObservation → Skips → Skips
unfolding add_skips
resolved_skips [] skips = skips
resolved_skips (o ∷ rest) skips =
    resolved_skips rest (add_skips o.controller o.model o.skips_by_application skips)

-- (state, controller, model)
abbrev pub VisitKey : Type 0
VisitKey = State × String × String

abbrev pub visit_eq : VisitKey → VisitKey → Bool
visit_eq (s, c, m) (t, d, n) = state_eq s t && (str_eq c d && str_eq m n)

abbrev pub Baselines : Type 0
Baselines = List (VisitKey × List ResourceSnapshot)

abbrev pub visit_of : ResourceObservation → VisitKey
visit_of o = (o.state, o.controller, o.model)

abbrev pub reported : ResourceObservation → Grouped → List ModelResourceDiscrepancy
reported o [] = []
reported o (g ∷ gs) =
    record { state = o.state; controller = o.controller; model = o.model; qualified = g ∷ gs } ∷ []

abbrev pub compared :
    Option (List ResourceSnapshot)
    → ResourceObservation
    → List ResourceSnapshot
    → List ModelResourceDiscrepancy
compared none o snapshots = []
compared (some baseline) o snapshots = reported o (diff_snapshots baseline snapshots)

abbrev pub with_baseline :
    Option (List ResourceSnapshot) → VisitKey → List ResourceSnapshot → Baselines → Baselines
with_baseline none key snapshots baselines = put visit_eq baselines key snapshots
with_baseline (some baseline) key snapshots baselines = baselines

-- The second loop.
unfoldable pub compare_visits :
    Skips → List ResourceObservation → Baselines → List ModelResourceDiscrepancy
unfolding without_skipped
compare_visits skips [] baselines = []
compare_visits skips (o ∷ rest) baselines =
    let snapshots = without_skipped o.snapshots o.controller o.model skips in
    let first = get visit_eq baselines (visit_of o) in
    compared first o snapshots
    ++ compare_visits skips rest (with_baseline first (visit_of o) snapshots baselines)

unfoldable pub calculate_discrepancies : List ResourceObservation → List ModelResourceDiscrepancy
unfolding resolved_skips compare_visits
calculate_discrepancies observations =
    compare_visits (resolved_skips observations []) observations []
