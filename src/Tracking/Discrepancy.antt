-- ===== src/Tracking/Discrepancy.antt =====
-- resource_tracking/discrepancy.py: what differs between the first visit of a state and a later one.
-- A frozenset is the list of its members in the order of the iteration.
use charm_integration_testin.Prelude.{
  String, str_eq, codes, Bool, true, false, not, ◌&&◌, ◌||◌, Option, none, some, List, [], ◌∷◌,
  ◌++◌, if◌then◌else◌,
}
use charm_integration_testin.Prelude.Dict.{get, put}
use charm_integration_testin.Scheduler.State.{State, value, lexicographic_lt}
use charm_integration_testin.Tracking.Snapshot.{
  ResourceSnapshot, InconsistencyCheck, resource_type, namespace_of, name_of, inconsistency_checks,
  report_attributes,
}

pub record DiscrepancyEntry : Type 0 where
  pub resource_type : String
  pub qualifier : String
  pub state : String
  pub controller : String
  pub model : String
  pub snapshot : ResourceSnapshot
  pub baseline : Option ResourceSnapshot

pub record QualifiedSnapshot : Type 0 where
  pub snapshot : ResourceSnapshot
  pub baseline : Option ResourceSnapshot

-- A dict from qualifiers.
abbrev pub Grouped : Type 0
Grouped = List (String × List QualifiedSnapshot)

pub record ModelResourceDiscrepancy : Type 0 where
  pub state : State
  pub controller : String
  pub model : String
  pub qualified : Grouped

unfoldable pub entries_of :
    ModelResourceDiscrepancy → String → List QualifiedSnapshot → List DiscrepancyEntry
entries_of d qualifier [] = []
entries_of d qualifier (q ∷ qs) =
    record {
      resource_type = resource_type q.snapshot;
      qualifier = qualifier;
      state = value d.state;
      controller = d.controller;
      model = d.model;
      snapshot = q.snapshot;
      baseline = q.baseline;
    }
    ∷ entries_of d qualifier qs

unfoldable pub all_entries : ModelResourceDiscrepancy → Grouped → List DiscrepancyEntry
unfolding entries_of
all_entries d [] = []
all_entries d ((qualifier, qs) ∷ rest) = entries_of d qualifier qs ++ all_entries d rest

-- `ModelResourceDiscrepancy.entries`
unfoldable pub entries : ModelResourceDiscrepancy → List DiscrepancyEntry
unfolding all_entries
entries d = all_entries d d.qualified

-- The equality of the values that `dict.get` returns.
abbrev pub value_eq : Option String → Option String → Bool
value_eq none none = true
value_eq (some a) (some b) = str_eq a b
value_eq _ _ = false

-- `not value`
abbrev pub is_blank : Option String → Bool
is_blank none = true
is_blank (some a) = str_eq a ""

-- The loop of `_modifications` skips the check.
unfoldable pub is_quiet : InconsistencyCheck → Option String → Option String → Bool
is_quiet c was now =
    value_eq was now || (c.ignore_empty_transition && (is_blank was || is_blank now))

-- What is appended under which qualifier.
abbrev pub Event : Type 0
Event = String × QualifiedSnapshot

unfoldable pub changed : ResourceSnapshot → ResourceSnapshot → List InconsistencyCheck → List Event
unfolding is_quiet
changed baseline current [] = []
changed baseline current (c ∷ cs) =
    let rest = changed baseline current cs in
    if is_quiet c (get str_eq (report_attributes baseline) c.attribute)
      (get str_eq (report_attributes current) c.attribute)
    then rest
    else (c.qualifier, record { snapshot = current; baseline = some baseline }) ∷ rest

-- `_modifications`
unfoldable pub modifications : ResourceSnapshot → ResourceSnapshot → List Event
unfolding changed
modifications baseline current = changed baseline current (inconsistency_checks current)

-- The logical identity of a resource.
abbrev pub Key : Type 0
Key = String × String × String

abbrev pub key_of : ResourceSnapshot → Key
key_of s = (resource_type s, namespace_of s, name_of s)

abbrev pub key_eq : Key → Key → Bool
key_eq (a, b, c) (x, y, z) = str_eq a x && (str_eq b y && str_eq c z)

abbrev pub Keyed : Type 0
Keyed = List (Key × ResourceSnapshot)

unfoldable pub put_all : Keyed → List ResourceSnapshot → Keyed
put_all d [] = d
put_all d (s ∷ rest) = put_all (put key_eq d (key_of s) s) rest

-- `{(s.resource_type, s.identity): s for s in snapshots}`
abbrev pub by_key : List ResourceSnapshot → Keyed
by_key snapshots = put_all [] snapshots

abbrev pub unpaired : ResourceSnapshot → QualifiedSnapshot
unpaired s = record { snapshot = s; baseline = none }

abbrev pub missing_event : Option ResourceSnapshot → ResourceSnapshot → List Event
missing_event none s = ("missing", unpaired s) ∷ []
missing_event (some later) s = []

unfoldable pub missing_events : Keyed → Keyed → List Event
missing_events [] current = []
missing_events ((key, s) ∷ rest) current =
    missing_event (get key_eq current key) s ++ missing_events rest current

abbrev pub current_event : Option ResourceSnapshot → ResourceSnapshot → List Event
current_event none s = ("extra", unpaired s) ∷ []
current_event (some baseline) s = modifications baseline s

unfoldable pub current_events : Keyed → Keyed → List Event
current_events baseline [] = []
current_events baseline ((key, s) ∷ rest) =
    current_event (get key_eq baseline key) s ++ current_events baseline rest

-- `grouped.setdefault(qualifier, []).append(qualified)`
unfoldable pub group_event : Event → Grouped → Grouped
group_event (q, x) [] = (q, x ∷ []) ∷ []
group_event (q, x) ((p, xs) ∷ rest) =
    if str_eq p q then (p, xs ++ x ∷ []) ∷ rest else (p, xs) ∷ group_event (q, x) rest

unfoldable pub group_all : List Event → Grouped → Grouped
unfolding group_event
group_all [] g = g
group_all (e ∷ es) g = group_all es (group_event e g)

abbrev pub text_lt : String → String → Bool
text_lt a b = lexicographic_lt (codes a) (codes b)

-- The order of tuples.
abbrev pub key_lt : Key → Key → Bool
key_lt (a, b, c) (x, y, z) =
    text_lt a x || (str_eq a x && (text_lt b y || (str_eq b y && text_lt c z)))

-- Python's `sorted` is stable.
unfoldable pub insert_item : QualifiedSnapshot → List QualifiedSnapshot → List QualifiedSnapshot
insert_item x [] = x ∷ []
insert_item x (y ∷ ys) =
    if key_lt (key_of y.snapshot) (key_of x.snapshot) then y ∷ insert_item x ys else x ∷ y ∷ ys

unfoldable pub sort_items : List QualifiedSnapshot → List QualifiedSnapshot
unfolding insert_item
sort_items [] = []
sort_items (x ∷ xs) = insert_item x (sort_items xs)

abbrev pub keep_group : String → List QualifiedSnapshot → Grouped → Grouped
keep_group q [] rest = rest
keep_group q (x ∷ xs) rest = (q, sort_items (x ∷ xs)) ∷ rest

-- `sorted_grouped`
unfoldable pub sort_groups : Grouped → Grouped
sort_groups [] = []
sort_groups ((q, xs) ∷ rest) = keep_group q xs (sort_groups rest)

-- "missing" first, then "extra", then the other qualifiers in their order.
abbrev pub qualifier_lt : String → String → Bool
qualifier_lt a b =
    if str_eq a "missing"
    then not (str_eq b "missing")
    else if str_eq b "missing"
    then false
    else if str_eq a "extra"
    then not (str_eq b "extra")
    else if str_eq b "extra"
    then false
    else text_lt a b

unfoldable pub insert_group : String × List QualifiedSnapshot → Grouped → Grouped
insert_group x [] = x ∷ []
insert_group x (y ∷ ys) = if qualifier_lt (y.0) (x.0) then y ∷ insert_group x ys else x ∷ y ∷ ys

unfoldable pub order_groups : Grouped → Grouped
unfolding insert_group
order_groups [] = []
order_groups (x ∷ xs) = insert_group x (order_groups xs)

-- What differs, before it is grouped.
unfoldable pub drift : Keyed → Keyed → List Event
unfolding missing_events current_events
drift baseline current = missing_events baseline current ++ current_events baseline current

unfoldable pub diff_snapshots : List ResourceSnapshot → List ResourceSnapshot → Grouped
unfolding drift group_all sort_groups order_groups
diff_snapshots baseline current = order_groups (
    sort_groups
      (group_all (drift (by_key baseline) (by_key current)) (("missing", []) ∷ ("extra", []) ∷ [])))
