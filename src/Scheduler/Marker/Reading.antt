-- ===== src/Scheduler/Marker/Reading.antt =====
-- What `read_state_marker` accepts, and what it makes of it.
use charm_integration_testin.Prelude.{
  ◌≡◌, refl, ap, sym, ◌∙◌, inl, inr, Bool, false, Option, none, some, List, [], ◌∷◌, arith, map,
  length, ok, raise, ◌>>=◌, >>=-passes, Option-cases,
}
use charm_integration_testin.Scheduler.State.{State, state_eq_refl, value, of_value-value}
use charm_integration_testin.Scheduler.Marker.{
  Raw, text, MarkerError, RawRequires, several, RawMarker, StateMarker, is_transition, to_state,
  or_raise, missing_requires, invalid_requires, invalid_provides, read_requires, raw_provides,
  read_keywords, read_marker, requires_seq, read_state_marker,
}

-- The keyword arguments that spell a marker out.
abbrev pub write_marker : StateMarker → RawMarker
write_marker m = record {
  requires = some (several (map (λ s. text (value s)) m.requires));
  provides = some (text (value m.provides));
  bridge_only = m.bridge_only;
}

read_requires-values :
    (states : List State) → read_requires (map (λ s. text (value s)) states) ≡ ok states
unfolding read_requires to_state
read_requires-values [] = refl
read_requires-values (s ∷ rest) = rw (of_value-value s, read_requires-values rest)

-- A marker that is spelled out is read back as it is.
pub read-write : (m : StateMarker) → read_state_marker (some (write_marker m)) ≡ ok (some m)
unfolding read_state_marker
read-write m = rw (read_requires-values m.requires, of_value-value m.provides)

length-read_requires :
    (raws : List Raw) (states : List State)
    → read_requires raws ≡ ok states
    → length states ≡ length raws
unfolding read_requires
length-read_requires [] states h = ground arith
length-read_requires (raw ∷ rest) states h = elim (Option-cases (to_state raw)) [
  | inl bad ↦ let h' : raise (invalid_requires raw) ≡ ok states = rw bad at h in absurd (cc)
  | inr (s, good) ↦
      let h' : (read_requires rest >>= λ ss. ok (s ∷ ss)) ≡ ok states = rw good at h in
      let (ss, read, e) = >>=-passes (read_requires rest) _ h' in
      let ih = length-read_requires rest ss read in
      let e' : s ∷ ss ≡ states = cc in let l = ap length e' in omega arith
]

abbrev IsPure : StateMarker → Type 0
IsPure m = (m.requires ≡ m.provides ∷ []) × (is_transition m ≡ false)

or_raise-eq-ok :
    {A : Type 0} (o : Option A) (e : MarkerError) {a : A} → or_raise o e ≡ ok a → o ≡ some a
or_raise-eq-ok none e h = absurd (cc)
or_raise-eq-ok (some b) e h = cc

pure_of_seq :
    (seq : List Raw) (requires : List State) (raw : Raw) (m : StateMarker)
    → read_requires seq ≡ ok requires
    → raw_provides none seq requires ≡ ok raw
    → to_state raw ≡ some m.provides
    → m.requires ≡ requires
    → m.requires ≡ m.provides ∷ []
unfolding raw_provides read_requires
pure_of_seq [] requires raw m r p t e = ground arith
pure_of_seq (one ∷ []) requires raw m r p t e = ground arith
pure_of_seq (one ∷ two ∷ rest) requires raw m r p t e =
    let l = length-read_requires (one ∷ two ∷ rest) requires r in ground arith

read_keywords-default :
    (keywords : RawRequires) (bridge_only : Bool) (m : StateMarker)
    → read_keywords keywords none bridge_only ≡ ok m
    → m.requires ≡ m.provides ∷ []
unfolding read_keywords
read_keywords-default keywords bridge_only m h =
    let (requires, r, h₁) = >>=-passes (read_requires (requires_seq keywords)) _ h in
    let (raw, p, h₂) = >>=-passes (raw_provides none (requires_seq keywords) requires) _ h₁ in
    let (state, t, h₃) = >>=-passes (or_raise (to_state raw) (invalid_provides raw)) _ h₂ in
    let whole : record { requires = requires; provides = state; bridge_only = bridge_only } ≡ m =
      cc in
    pure_of_seq (requires_seq keywords) requires raw m r p
      (or_raise-eq-ok (to_state raw) _ t ∙ ap (λ (k : StateMarker). some k.provides) whole)
      (ap (λ (k : StateMarker). k.requires) (sym whole))

-- A marker without `provides` that is accepted requires one state, provides it, and is pure.
pub default_provides :
    (raw : RawMarker) (m : StateMarker)
    → raw.provides ≡ none
    → read_state_marker (some raw) ≡ ok (some m)
    → IsPure m
unfolding read_state_marker is_transition
default_provides raw m absent h = elim (Option-cases raw.requires) [
  | inl none' ↦
      let h' : raise missing_requires ≡ ok (some m) = rw (none', read_marker) at h in absurd (cc)
  | inr (keywords, given) ↦
      let h' : (read_keywords keywords raw.provides raw.bridge_only >>= λ k. ok (some k))
          ≡ ok (some m) =
        rw (given, read_marker) at h in
      let (k, read, e) = >>=-passes (read_keywords keywords raw.provides raw.bridge_only) _ h' in
      let same : k ≡ m = cc in
      let read' : read_keywords keywords none raw.bridge_only ≡ ok m = cc in
      let e = read_keywords-default keywords raw.bridge_only m read' in
      (e, rw (e, state_eq_refl m.provides))
]
