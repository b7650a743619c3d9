-- ===== src/BundleBuilder/Domain/Refresh.antt =====
-- domain.py: `_refresh_application_integration_mappings`.
use charm_integration_testin.Prelude.{
  ℕ, suc, Bool, true, false, not, ◌&&◌, ◌||◌, Option, none, some, List, [], ◌∷◌, ◌==◌,
  if◌then◌else◌, String, str_eq,
}
use charm_integration_testin.Prelude.Dict.{get, put}
use charm_integration_testin.BundleBuilder.Domain.{
  ModelRef, same_model, this_model, text, numeral, model_key, Variable, DomainCharmIntegration,
  DomainApplicationEndpoint, DomainApplicationIntegration, DomainModel, Domain, on_some, model_of,
}

abbrev pub is_linked : ℕ → List (ℕ × Variable) → Bool
is_linked n ids = elim (get ◌==◌ ids n) [ none ↦ false | some v ↦ true ]

-- `app in mc.applications and id in mc.applications[app].charm_ids`
abbrev pub may_be : DomainModel → String → ℕ → Bool
may_be mc app id = elim (get str_eq mc.applications app) [
  | none ↦ false
  | some a ↦ is_linked id a.charm_ids
]

abbrev pub local_variable : DomainApplicationIntegration → DomainCharmIntegration → Variable
local_variable ai i =
    text "app_integration_"
    ∷ text ai.endpoint_1.application
    ∷ text ":"
    ∷ text ai.endpoint_1.endpoint
    ∷ text "__"
    ∷ text ai.endpoint_2.application
    ∷ text ":"
    ∷ text ai.endpoint_2.endpoint
    ∷ text "_maps_to_charm_integration_"
    ∷ numeral i.requires_charm_id
    ∷ text ":"
    ∷ text i.requires_endpoint
    ∷ text "__"
    ∷ numeral i.provides_charm_id
    ∷ text ":"
    ∷ text i.provides_endpoint
    ∷ []

-- One ordering of the two application endpoints
abbrev pub fits :
    DomainModel → DomainCharmIntegration → (req prov : DomainApplicationEndpoint) → Bool
fits mc i req prov =
    (str_eq req.endpoint i.requires_endpoint && str_eq prov.endpoint i.provides_endpoint)
    && (may_be mc req.application i.requires_charm_id
        && may_be mc prov.application i.provides_charm_id)

abbrev pub links_locally :
    DomainModel → DomainApplicationIntegration → DomainCharmIntegration → Bool
links_locally mc ai i =
    fits mc i ai.endpoint_1 ai.endpoint_2 || fits mc i ai.endpoint_2 ai.endpoint_1

abbrev pub is_local : DomainApplicationEndpoint → Bool
is_local e = same_model e.model this_model

abbrev pub local_end : DomainApplicationIntegration → DomainApplicationEndpoint
local_end ai = if is_local ai.endpoint_1 then ai.endpoint_1 else ai.endpoint_2

abbrev pub remote_end : DomainApplicationIntegration → DomainApplicationEndpoint
remote_end ai = if is_local ai.endpoint_1 then ai.endpoint_2 else ai.endpoint_1

abbrev pub cross_variable : (here there : DomainApplicationEndpoint) → ℕ → Variable
cross_variable here there n =
    text "app_integration_"
    ∷ text here.application
    ∷ text ":"
    ∷ text here.endpoint
    ∷ text "__cmr__"
    ∷ model_key there.model
    ∷ text "_"
    ∷ text there.application
    ∷ text ":"
    ∷ text there.endpoint
    ∷ text "__integration_"
    ∷ numeral n
    ∷ []

-- The integration joins the two endpoints across the models: which charm is here, and which there.
abbrev pub crossing :
    (mc_ref : ModelRef) (here there : DomainApplicationEndpoint) (req_model prov_model : ModelRef)
    → DomainCharmIntegration
    → Option (ℕ × ℕ)
crossing mc_ref here there req_model prov_model i =
    if (same_model req_model mc_ref && str_eq i.requires_endpoint here.endpoint)
      && (same_model prov_model there.model && str_eq i.provides_endpoint there.endpoint)
    then some (i.requires_charm_id, i.provides_charm_id)
    else if (same_model prov_model mc_ref && str_eq i.provides_endpoint here.endpoint)
        && (same_model req_model there.model && str_eq i.requires_endpoint there.endpoint)
    then some (i.provides_charm_id, i.requires_charm_id)
    else none

abbrev pub links_across :
    List (ModelRef × DomainModel)
    → ModelRef
    → DomainModel
    → DomainApplicationIntegration
    → (req_model prov_model : ModelRef) → DomainCharmIntegration
    → Bool
links_across models mc_ref mc ai req_model prov_model i =
    elim (get same_model models (remote_end ai).model) [
      | none ↦ false
      | some remote ↦ elim (crossing mc_ref (local_end ai) (remote_end ai) req_model prov_model i) [
        | none ↦ false
        | some (here, there) ↦
            may_be mc (local_end ai).application here
            && may_be remote (remote_end ai).application there
      ]
    ]

abbrev pub link : DomainApplicationIntegration → ℕ → Variable → DomainApplicationIntegration
link ai n v = record {
  endpoint_1 = ai.endpoint_1;
  endpoint_2 = ai.endpoint_2;
  charm_integration_ids = put ◌==◌ ai.charm_integration_ids n v;
}

-- The body of the loop over the charm integrations, at the integration with the index
unfoldable pub link_one :
    Domain
    → ModelRef
    → DomainModel
    → DomainApplicationIntegration
    → ℕ
    → DomainCharmIntegration
    → Option DomainApplicationIntegration
link_one d mc_ref mc ai n i =
    if is_linked n ai.charm_integration_ids
    then some ai
    else on_some (model_of d i.requires_charm_id) (λ r.
      on_some (model_of d i.provides_charm_id) (λ p.
        let is_cmr = not (same_model ai.endpoint_1.model ai.endpoint_2.model) in
        if is_cmr
        then (if not (same_model r p) && links_across d.models mc_ref mc ai r p i
            then some (link ai n (cross_variable (local_end ai) (remote_end ai) n))
            else some ai)
        else (if same_model r p
              && ((same_model r mc_ref && same_model p mc_ref) && links_locally mc ai i)
            then some (link ai n (local_variable ai i))
            else some ai)))

unfoldable pub link_all :
    Domain
    → ModelRef
    → DomainModel
    → ℕ
    → List DomainCharmIntegration
    → DomainApplicationIntegration
    → Option DomainApplicationIntegration
unfolding link_one
link_all d mc_ref mc n [] ai = some ai
link_all d mc_ref mc n (i ∷ is) ai =
    on_some (link_one d mc_ref mc ai n i) (λ linked. link_all d mc_ref mc (suc n) is linked)

unfoldable pub map_some : {A B : Type 0} → (A → Option B) → List A → Option (List B)
map_some f [] = some []
map_some f (a ∷ as') = on_some (f a) (λ b. on_some (map_some f as') (λ bs. some (b ∷ bs)))

-- A model with its application integrations linked. The rest of the domain is as it was.
abbrev pub with_links : DomainModel → List DomainApplicationIntegration → DomainModel
with_links mc ais = record {
  platform = mc.platform;
  applications = mc.applications;
  application_integrations = ais;
}

unfoldable pub refresh_model : Domain → ModelRef × DomainModel → Option (ModelRef × DomainModel)
unfolding map_some link_all
refresh_model d (mc_ref, mc) =
    on_some (map_some (link_all d mc_ref mc 0 d.charm_integrations) mc.application_integrations)
      (λ ais. some (mc_ref, with_links mc ais))

-- `_refresh_application_integration_mappings`
unfoldable pub refresh : Domain → Option Domain
unfolding refresh_model map_some
refresh d = on_some (map_some (refresh_model d) d.models) (λ models.
    some (record { models = models; charms = d.charms; charm_integrations = d.charm_integrations }))
