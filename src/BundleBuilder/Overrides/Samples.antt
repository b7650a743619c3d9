-- ===== src/BundleBuilder/Overrides/Samples.antt =====
-- Two blocks of overrides: a test and the theorem at them.
use charm_integration_testin.Prelude.{◌≡◌, refl, none, some, List, [], ◌∷◌, String, str_eq, true}
use charm_integration_testin.BundleBuilder.Overrides.{
  CharmChannel, CriteriaList, criteria, nil, cons, first_block, meets,
}
use charm_integration_testin.BundleBuilder.Overrides.Chosen.{IsFirst, first_block-IsFirst}

abbrev on_track : CriteriaList
on_track = cons (criteria nil nil nil (some "14") none none) nil

-- Any release but one of the risk edge
abbrev not_edge : CriteriaList
not_edge =
    cons (criteria nil nil (cons (criteria nil nil nil none (some "edge") none) nil) none none none)
      nil

abbrev latest : CharmChannel
latest = record { track = ""; risk = "stable"; branch = "" }

abbrev default_block : String
default_block = "default"

abbrev blocks : List (CriteriaList × String)
blocks = (on_track, "first") ∷ (not_edge, "second") ∷ []

second_applies : str_eq (first_block default_block blocks latest "22.04") "second" ≡ true
unfolding first_block meets
second_applies = refl

first_block-IsFirst_example :
    IsFirst default_block latest "22.04" blocks (first_block default_block blocks latest "22.04")
first_block-IsFirst_example = first_block-IsFirst default_block latest "22.04" blocks
