-- ===== src/Scheduler/Marker.antt =====
-- charm_integration_testing/test_suite/scheduler/markers.py: the `state` marker of a test, as it is
-- written and as it is read. A raw value is a text, or something that `State` does not accept.
pub mod Reading
use charm_integration_testin.Prelude.{
  ℕ, ◌<◌, String, Bool, true, false, not, ◌||◌, Option, none, some, List, [], ◌∷◌, ltb,
  if◌then◌else◌, length, Result, ok, raise, ◌>>=◌, ◌≡◌, refl,
}
use charm_integration_testin.Scheduler.State.{State, state_eq, of_value}

pub data Raw : Type 0 where
  text : String → Raw
  other : Raw

-- `requires` is one value, or a list or tuple of values.
pub data RawRequires : Type 0 where
  single : Raw → RawRequires
  several : List Raw → RawRequires

-- The keyword arguments. `requires` is `none` where it is absent or None, `provides` where absent.
pub record RawMarker : Type 0 where
  pub requires : Option RawRequires
  pub provides : Option Raw
  pub bridge_only : Bool

pub record StateMarker : Type 0 where
  pub requires : List State
  pub provides : State
  pub bridge_only : Bool

-- The four ValueErrors, and the IndexError of `raw_requires_seq[0]` on an empty list.
pub data MarkerError : Type 0 where
  missing_requires missing_provides index_error : MarkerError
  invalid_requires invalid_provides : Raw → MarkerError

unfoldable pub contains_state : List State → State → Bool
contains_state [] s = false
contains_state (r ∷ rs) s = state_eq r s || contains_state rs s

unfoldable pub is_transition : StateMarker → Bool
unfolding contains_state
is_transition m = not (contains_state m.requires m.provides)

-- `State(raw)`
unfoldable pub to_state : Raw → Option State
to_state (text s) = of_value s
to_state other = none

abbrev pub or_raise : {A : Type 0} → Option A → MarkerError → Result MarkerError A
or_raise none e = raise e
or_raise (some a) e = ok a

unfoldable pub read_requires : List Raw → Result MarkerError (List State)
read_requires [] = ok []
read_requires (raw ∷ rest) = do
  s ← or_raise (to_state raw) (invalid_requires raw)
  states ← read_requires rest
  ok (s ∷ states)

unfoldable pub requires_seq : RawRequires → List Raw
requires_seq (single raw) = raw ∷ []
requires_seq (several raws) = raws

unfoldable pub first_raw : List Raw → Result MarkerError Raw
first_raw [] = raise index_error
first_raw (raw ∷ rest) = ok raw

unfoldable pub raw_provides : Option Raw → List Raw → List State → Result MarkerError Raw
unfolding first_raw
raw_provides (some raw) seq requires = ok raw
raw_provides none seq requires =
    if ltb 1 (length requires) then raise missing_provides else first_raw seq

unfoldable pub read_keywords : RawRequires → Option Raw → Bool → Result MarkerError StateMarker
unfolding read_requires requires_seq raw_provides to_state
read_keywords raw_requires provides bridge_only = do
  let seq = requires_seq raw_requires
  requires ← read_requires seq
  raw ← raw_provides provides seq requires
  state ← or_raise (to_state raw) (invalid_provides raw)
  ok (record { requires = requires; provides = state; bridge_only = bridge_only })

unfoldable pub read_marker : RawMarker → Result MarkerError StateMarker
unfolding read_keywords
read_marker raw = elim raw.requires [
  | none ↦ raise missing_requires
  | some requires ↦ read_keywords requires raw.provides raw.bridge_only
]

-- `get_closest_marker` found no marker, or this one.
unfoldable pub read_state_marker : Option RawMarker → Result MarkerError (Option StateMarker)
unfolding read_marker
read_state_marker none = ok none
read_state_marker (some raw) = do m ← read_marker raw; ok (some m)
