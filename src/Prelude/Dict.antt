-- ===== src/Prelude/Dict.antt =====
-- Python's dicts, as association lists in insertion order, over a Boolean equality of keys.
use mathlib.Core.Path.{◌≡◌, refl, sym, ◌∙◌}
use mathlib.Core.Logic.{◌↔◌, inl, inr}
use mathlib.Core.Bool.{Bool, true}
use mathlib.Core.Option.{Option, none, some}
use mathlib.Core.List.{List, [], ◌∷◌}
use charm_integration_testin.Prelude.Tests.{if◌then◌else◌, Bool-cases}

module _ {K V : Type 0} (eq : K → K → Bool) where
  -- `d.get(k)`
  unfoldable pub get : List (K × V) → K → Option V
  get [] k = none
  get ((j, v) ∷ d) k = if eq j k then some v else get d k

  -- `d[k] = v`
  unfoldable pub put : List (K × V) → K → V → List (K × V)
  put [] k v = (k, v) ∷ []
  put ((j, w) ∷ d) k v = if eq j k then (j, v) ∷ d else (j, w) ∷ put d k v

  module _ (eq_iff : (a b : K) → (eq a b ≡ true) ↔ (a ≡ b)) where
    pub get-put :
        (d : List (K × V)) (k j : K) (v : V)
        → get (put d k v) j ≡ (if eq k j then some v else get d j)
    unfolding get put
    get-put [] k j v = refl
    get-put ((i, w) ∷ d) k j v = elim (Bool-cases (eq i k)) [
      | inl same ↦
          let e = (eq_iff i k).0 same in
          rw (same, e) (elim (Bool-cases (eq k j)) [ inl p ↦ rw p | inr p ↦ rw p ])
      | inr other ↦ rw other (elim (Bool-cases (eq i j)) [
        | inl here ↦
            let e = (eq_iff i j).0 here in
            rw here (elim (Bool-cases (eq k j)) [
              | inl p ↦ let t = (eq_iff i k).1 (e ∙ sym ((eq_iff k j).0 p)) in absurd (cc)
              | inr p ↦ rw p
            ])
        | inr there ↦ rw there (get-put d k j v)
      ])
    ]
