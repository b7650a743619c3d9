-- ===== src/BundleBuilder/Overrides.antt =====
-- overrides.py: which block of a charm's overrides applies to a channel and an Ubuntu base.
pub mod Chosen
mod Samples
use charm_integration_testin.Prelude.{
  Bool, true, false, not, ◌&&◌, ◌||◌, Option, none, some, List, [], ◌∷◌, if◌then◌else◌, String,
  str_eq,
}

pub record CharmChannel : Type 0 where
  pub track : String
  pub risk : String
  pub branch : String

abbrev pub explicit_track : CharmChannel → String
explicit_track channel = if str_eq channel.track "" then "latest" else channel.track

-- None and an empty list are both no condition, and so are None and an empty text.
mutual
  pub data Criteria : Type 0 where
    criteria :
        (any_of all_of none_of : CriteriaList) (track risk ubuntu_version : Option String)
        → Criteria

  pub data CriteriaList : Type 0 where
    nil : CriteriaList
    cons : Criteria → CriteriaList → CriteriaList

abbrev pub is_unset : CriteriaList → Bool
is_unset nil = true
is_unset (cons c cs) = false

-- `actual == wanted if wanted else True`
abbrev pub text_meets : Option String → String → Bool
text_meets none actual = true
text_meets (some wanted) actual = str_eq wanted "" || str_eq actual wanted

-- CharmOverridesCriteria.meets
unfoldable mutual
  pub meets : Criteria → CharmChannel → String → Bool
  meets (criteria any_of all_of none_of track risk version) channel ubuntu =
      all_meet all_of channel ubuntu
      && (not (any_meets none_of channel ubuntu)
          && ((is_unset any_of || any_meets any_of channel ubuntu)
              && (text_meets track (explicit_track channel)
                  && (text_meets risk channel.risk && text_meets version ubuntu))))

  pub all_meet : CriteriaList → CharmChannel → String → Bool
  all_meet nil channel ubuntu = true
  all_meet (cons c cs) channel ubuntu = meets c channel ubuntu && all_meet cs channel ubuntu

  pub any_meets : CriteriaList → CharmChannel → String → Bool
  any_meets nil channel ubuntu = false
  any_meets (cons c cs) channel ubuntu = meets c channel ubuntu || any_meets cs channel ubuntu

-- The first block of the file whose criteria are all met, or the one of the defaults
unfoldable pub first_block : {B : Type 0} → B → List (CriteriaList × B) → CharmChannel → String → B
unfolding all_meet
first_block default [] channel ubuntu = default
first_block default ((wanted, b) ∷ blocks) channel ubuntu =
    let rest = first_block default blocks channel ubuntu in
    if all_meet wanted channel ubuntu then b else rest
