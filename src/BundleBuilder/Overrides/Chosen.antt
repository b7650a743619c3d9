-- ===== src/BundleBuilder/Overrides/Chosen.antt =====
-- overrides.py: the block that applies is the first one whose criteria hold.
use charm_integration_testin.Prelude.{
  ◌≡◌, refl, ap, ◌⊎◌, inl, inr, not, ◌||◌, Option, none, some, List, [], ◌∷◌, ◌++◌, String, str_eq,
  eq_iff, Bool-cases, All, Decides, Decides-and, Decides-or, Decides-not,
}
use charm_integration_testin.BundleBuilder.Overrides.{
  CharmChannel, explicit_track, Criteria, CriteriaList, criteria, nil, cons, is_unset, text_meets,
  meets, all_meet, any_meets, first_block,
}

-- A wanted text is empty, or it is the actual one.
abbrev pub IsWanted : Option String → String → Type 0
IsWanted none actual = Unit
IsWanted (some wanted) actual = (wanted ≡ "") ⊎ (actual ≡ wanted)

abbrev pub IsEmpty : CriteriaList → Type 0
IsEmpty nil = Unit
IsEmpty (cons c cs) = ⊥

-- The criteria hold: all of one list, none of another, one of the third unless it is empty, and the
-- wanted track, risk and base.
abbrev mutual
  pub Holds : Criteria → CharmChannel → String → Type 0
  Holds (criteria any_of all_of none_of track risk version) channel ubuntu =
      AllHold all_of channel ubuntu
      × ((¬ AnyHolds none_of channel ubuntu)
          × ((IsEmpty any_of ⊎ AnyHolds any_of channel ubuntu)
              × (IsWanted track (explicit_track channel)
                  × (IsWanted risk channel.risk × IsWanted version ubuntu))))

  pub AllHold : CriteriaList → CharmChannel → String → Type 0
  AllHold nil channel ubuntu = Unit
  AllHold (cons c cs) channel ubuntu = Holds c channel ubuntu × AllHold cs channel ubuntu

  pub AnyHolds : CriteriaList → CharmChannel → String → Type 0
  AnyHolds nil channel ubuntu = ⊥
  AnyHolds (cons c cs) channel ubuntu = Holds c channel ubuntu ⊎ AnyHolds cs channel ubuntu

Decides-str_eq : (a b : String) → Decides (str_eq a b) (a ≡ b)
Decides-str_eq a b = eq_iff a b

Decides-text_meets :
    (wanted : Option String) (actual : String)
    → Decides (text_meets wanted actual) (IsWanted wanted actual)
Decides-text_meets none actual = (λ p. tt, λ p. refl)
Decides-text_meets (some wanted) actual =
    Decides-or (str_eq wanted "") (str_eq actual wanted) (Decides-str_eq wanted "")
      (Decides-str_eq actual wanted)

Decides-is_unset : (cs : CriteriaList) → Decides (is_unset cs) (IsEmpty cs)
Decides-is_unset nil = (λ p. tt, λ p. refl)
Decides-is_unset (cons c cs) = (λ p. absurd (cc), λ p. absurd p)

mutual
  unfolding meets all_meet any_meets

  Decides-meets :
      (c : Criteria) (channel : CharmChannel) (ubuntu : String)
      → Decides (meets c channel ubuntu) (Holds c channel ubuntu)
  Decides-meets (criteria any_of all_of none_of track risk version) channel ubuntu =
      Decides-and (all_meet all_of channel ubuntu) _ (Decides-all_meet all_of channel ubuntu) (
        Decides-and (not (any_meets none_of channel ubuntu)) _
          (Decides-not (any_meets none_of channel ubuntu)
            (Decides-any_meets none_of channel ubuntu))
          (Decides-and (is_unset any_of || any_meets any_of channel ubuntu) _
            (Decides-or (is_unset any_of) (any_meets any_of channel ubuntu)
              (Decides-is_unset any_of) (Decides-any_meets any_of channel ubuntu))
            (Decides-and (text_meets track (explicit_track channel)) _
              (Decides-text_meets track (explicit_track channel))
              (Decides-and (text_meets risk channel.risk) (text_meets version ubuntu)
                (Decides-text_meets risk channel.risk) (Decides-text_meets version ubuntu)))))

  Decides-all_meet :
      (cs : CriteriaList) (channel : CharmChannel) (ubuntu : String)
      → Decides (all_meet cs channel ubuntu) (AllHold cs channel ubuntu)
  Decides-all_meet nil channel ubuntu = (λ p. tt, λ p. refl)
  Decides-all_meet (cons c cs) channel ubuntu =
      Decides-and (meets c channel ubuntu) (all_meet cs channel ubuntu)
        (Decides-meets c channel ubuntu) (Decides-all_meet cs channel ubuntu)

  Decides-any_meets :
      (cs : CriteriaList) (channel : CharmChannel) (ubuntu : String)
      → Decides (any_meets cs channel ubuntu) (AnyHolds cs channel ubuntu)
  Decides-any_meets nil channel ubuntu = (λ p. absurd (cc), λ p. absurd p)
  Decides-any_meets (cons c cs) channel ubuntu =
      Decides-or (meets c channel ubuntu) (any_meets cs channel ubuntu)
        (Decides-meets c channel ubuntu) (Decides-any_meets cs channel ubuntu)

module _ {B : Type 0} (default : B) (channel : CharmChannel) (ubuntu : String) where
  -- No block of the list applies.
  abbrev pub NoneHolds : List (CriteriaList × B) → Type 0
  NoneHolds blocks = All (λ x. ¬ AllHold (x.0) channel ubuntu) blocks

  -- The block is the first one in the list that applies, or no block does and it is the default one.
  abbrev pub IsFirst : List (CriteriaList × B) → B → Type 0
  IsFirst blocks chosen =
      ((before : List (CriteriaList × B)) × (wanted : CriteriaList) × (after : List
          (CriteriaList × B))
        × (blocks ≡ before ++ (wanted, chosen) ∷ after)
        × (NoneHolds before × AllHold wanted channel ubuntu))
      ⊎ (NoneHolds blocks × (chosen ≡ default))

  -- The block that applies is the first one whose criteria all hold, and the default one when there is
  -- none such.
  pub first_block-IsFirst :
      (blocks : List (CriteriaList × B))
      → IsFirst blocks (first_block default blocks channel ubuntu)
  unfolding first_block
  first_block-IsFirst [] = inr (tt, refl)
  first_block-IsFirst ((wanted, b) ∷ blocks) = elim (Bool-cases (all_meet wanted channel ubuntu)) [
    | inl p ↦
        rw p (inl ([], wanted, blocks, refl, (tt, (Decides-all_meet wanted channel ubuntu).0 p)))
    | inr p ↦
        let other : ¬ AllHold wanted channel ubuntu =
          λ h. absurd (let q = (Decides-all_meet wanted channel ubuntu).1 h in cc) in
        rw p (elim (first_block-IsFirst blocks) [
          | inl (before, found, after, same, (none_before, holds)) ↦ inl (
            (wanted, b) ∷ before,
            found,
            after,
            ap (λ bs. (wanted, b) ∷ bs) same,
            ((other, none_before), holds),
          )
          | inr (none_holds, same) ↦ inr ((other, none_holds), same)
        ])
  ]
