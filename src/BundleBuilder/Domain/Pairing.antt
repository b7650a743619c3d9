-- ===== src/BundleBuilder/Domain/Pairing.antt =====
-- domain.py: `pair_charms_in_domain`.
use charm_integration_testin.Prelude.{
  ℕ, Bool, true, false, not, ◌&&◌, ◌||◌, Option, none, some, List, [], ◌∷◌, ◌++◌, map, ◌==◌,
  if◌then◌else◌, String, str_eq, get_elem?,
}
use charm_integration_testin.Prelude.Dict.{get}
use charm_integration_testin.BundleBuilder.Domain.{
  ModelRef, same_model, text, numeral, model_key, Variable, EndpointType, requires, provides,
  container, global, CharmEndpoint, DomainCharm, DomainCharmIntegration, Domain, on_some,
}
use charm_integration_testin.BundleBuilder.Domain.Refresh.{refresh}

-- The requiring charm and its endpoint, then the providing one
abbrev pub IntegrationKey : Type 0
IntegrationKey = (ℕ × String) × (ℕ × String)

abbrev pub end_eq : ℕ × String → ℕ × String → Bool
end_eq (a, x) (b, y) = (a == b) && str_eq x y

abbrev pub same_key : IntegrationKey → IntegrationKey → Bool
same_key (a, b) (c, d) = end_eq a c && end_eq b d

unfoldable pub is_existing : IntegrationKey → List IntegrationKey → Bool
is_existing k [] = false
is_existing k (j ∷ js) = same_key k j || is_existing k js

abbrev pub integration_key : DomainCharmIntegration → IntegrationKey
integration_key i =
    ((i.requires_charm_id, i.requires_endpoint), (i.provides_charm_id, i.provides_endpoint))

abbrev pub is_container : CharmEndpoint → Bool
is_container e = elim e.scope [
  | none ↦ false
  | some s ↦ elim s [ container ↦ true | global ↦ false ]
]

-- The platform of the model is "machine".
abbrev pub on_machine : Domain → ModelRef → Bool
on_machine d m = elim (get same_model d.models m) [
  | none ↦ false
  | some mc ↦ str_eq mc.platform "machine"
]

abbrev pub may_contain : (machine : ModelRef → Bool) (a b : ModelRef) → Bool
may_contain machine a b = same_model a b && (machine a && machine b)

abbrev pub directed : (a b : ℕ × String) → EndpointType → EndpointType → Option IntegrationKey
directed a b requires provides = some (a, b)
directed a b provides requires = some (b, a)
directed a b _ _ = none

-- The integration that two endpoints of the charms can have
unfoldable pub possible_key :
    (machine : ModelRef → Bool) (a_id : ℕ) (a : DomainCharm) (b_id : ℕ) (b : DomainCharm)
    → String × CharmEndpoint
    → String × CharmEndpoint
    → Option IntegrationKey
possible_key machine a_id a b_id b (name_a, ep_a) (name_b, ep_b) =
    if not (str_eq ep_a.interface ep_b.interface)
    then none
    else if (is_container ep_a || is_container ep_b) && not (may_contain machine a.model b.model)
    then none
    else directed (a_id, name_a) (b_id, name_b) ep_a.type ep_b.type

abbrev pub local_name : IntegrationKey → Variable
local_name ((r, re), (p, pe)) =
    text "charm_integration_"
    ∷ numeral p
    ∷ text ":"
    ∷ text pe
    ∷ text "__"
    ∷ numeral r
    ∷ text ":"
    ∷ text re
    ∷ text "_exists"
    ∷ []

abbrev pub cross_name : (prov_model req_model : ModelRef) → IntegrationKey → Variable
cross_name prov_model req_model ((r, re), (p, pe)) =
    text "cmr__"
    ∷ model_key prov_model
    ∷ text "__"
    ∷ numeral p
    ∷ text ":"
    ∷ text pe
    ∷ text "__"
    ∷ model_key req_model
    ∷ text "__"
    ∷ numeral r
    ∷ text ":"
    ∷ text re
    ∷ text "__exists"
    ∷ []

abbrev pub integration : Variable → IntegrationKey → DomainCharmIntegration
integration v ((r, re), (p, pe)) = record {
  exists = v;
  requires_charm_id = r;
  requires_endpoint = re;
  provides_charm_id = p;
  provides_endpoint = pe;
}

-- The set of keys, the integrations, and whether one was created.
pub record Pairs : Type 0 where
  pub existing_keys : List IntegrationKey
  pub integrations : List DomainCharmIntegration
  pub created_any : Bool

abbrev pub create : (IntegrationKey → Variable) → Option IntegrationKey → Pairs → Pairs
create name none s = s
create name (some k) s = if is_existing k s.existing_keys then s else record {
  existing_keys = k ∷ s.existing_keys;
  integrations = s.integrations ++ integration (name k) k ∷ [];
  created_any = true;
}

unfoldable pub create_all :
    (IntegrationKey → Variable) → List (Option IntegrationKey) → Pairs → Pairs
create_all name [] s = s
create_all name (c ∷ cs) s = create_all name cs (create name c s)

-- The candidates in the order of the two loops
unfoldable pub row : {A B C : Type 0} → (A → B → C) → A → List B → List C
row f a [] = []
row f a (b ∷ bs) = f a b ∷ row f a bs

unfoldable pub table : {A B C : Type 0} → (A → B → C) → List A → List B → List C
table f [] bs = []
table f (a ∷ as') bs = row f a bs ++ table f as' bs

-- Whose model is the requiring charm's
abbrev pub variable_name : (a_id b_id : ℕ) (a b : DomainCharm) → IntegrationKey → Variable
variable_name a_id b_id a b k =
    if same_model a.model b.model
    then local_name k
    else if k.0.0 == a_id
    then cross_name b.model a.model k
    else cross_name a.model b.model k

abbrev pub refresh_if : Domain → Pairs → Option (Domain × Bool)
refresh_if d s =
    if s.created_any
    then on_some
        (refresh
          (record { models = d.models; charms = d.charms; charm_integrations = s.integrations }))
        (λ e. some (e, true))
    else some (d, false)

-- Before the loops
abbrev pub unchanged_pairs : Domain → Pairs
unchanged_pairs d = record {
  existing_keys = map integration_key d.charm_integrations;
  integrations = d.charm_integrations;
  created_any = false;
}

unfoldable pub pairs_of : Domain → (a_id : ℕ) (a : DomainCharm) (b_id : ℕ) (b : DomainCharm) → Pairs
unfolding possible_key create_all table
pairs_of d a_id a b_id b =
    create_all (variable_name a_id b_id a b)
      (table (possible_key (on_machine d) a_id a b_id b) a.endpoints b.endpoints)
      (unchanged_pairs d)

-- `pair_charms_in_domain`; an id that is out of range raises an IndexError, which is `none`.
unfoldable pub pair_charms_in_domain : Domain → ℕ → ℕ → Option (Domain × Bool)
unfolding pairs_of refresh
pair_charms_in_domain d a_id b_id =
    if a_id == b_id
    then some (d, false)
    else on_some (get_elem? d.charms a_id)
        (λ a. on_some (get_elem? d.charms b_id) (λ b. refresh_if d (pairs_of d a_id a b_id b)))
