-- ===== src/BundleBuilder/Domain.antt =====
-- domain.py: the charms, models and integrations that the solver chooses from.
pub mod Refresh
pub mod Pairing
pub mod Kept
pub mod Keys
pub mod Sound
pub mod Again
pub mod Total
mod Samples
use charm_integration_testin.Prelude.{
  ℕ, ◌≡◌, refl, Bool, true, false, not, ◌&&◌, ◌||◌, Option, none, some, List, [], ◌∷◌, ◌==◌,
  if◌then◌else◌, String, str_eq, get_elem?,
}
use charm_integration_testin.Prelude.Dict.{get}

pub record ModelRef : Type 0 where
  pub name : Option String
  pub controller : Option String

abbrev pub same_text : Option String → Option String → Bool
same_text none none = true
same_text (some a) (some b) = str_eq a b
same_text _ _ = false

abbrev pub same_model : ModelRef → ModelRef → Bool
same_model a b = same_text a.name b.name && same_text a.controller b.controller

-- `ModelRef()`
abbrev pub this_model : ModelRef
this_model = record { name = none; controller = none }

-- A Bool of the solver is the name it is declared with: its pieces of text, numbers and models' keys.
pub data Piece : Type 0 where
  text : String → Piece
  numeral : ℕ → Piece
  model_key : ModelRef → Piece

abbrev pub Variable : Type 0
Variable = List Piece

pub data EndpointType : Type 0 where
  peers requires provides : EndpointType

pub data EndpointScope : Type 0 where
  container global : EndpointScope

pub record CharmEndpoint : Type 0 where
  pub type : EndpointType
  pub interface : String
  pub scope : Option EndpointScope

pub record DomainCharm : Type 0 where
  pub model : ModelRef
  pub endpoints : List (String × CharmEndpoint)

pub record DomainCharmIntegration : Type 0 where
  pub exists : Variable
  pub requires_charm_id : ℕ
  pub requires_endpoint : String
  pub provides_charm_id : ℕ
  pub provides_endpoint : String

pub record DomainApplicationEndpoint : Type 0 where
  pub application : String
  pub endpoint : String
  pub model : ModelRef

pub record DomainApplicationIntegration : Type 0 where
  pub endpoint_1 : DomainApplicationEndpoint
  pub endpoint_2 : DomainApplicationEndpoint
  pub charm_integration_ids : List (ℕ × Variable)

-- The charm ids that an application may map to
pub record DomainApplication : Type 0 where
  pub charm_ids : List (ℕ × Variable)

pub record DomainModel : Type 0 where
  pub platform : String
  pub applications : List (String × DomainApplication)
  pub application_integrations : List DomainApplicationIntegration

pub record Domain : Type 0 where
  pub models : List (ModelRef × DomainModel)
  pub charms : List DomainCharm
  pub charm_integrations : List DomainCharmIntegration

abbrev pub on_some : {A B : Type 0} → Option A → (A → Option B) → Option B
on_some none f = none
on_some (some a) f = f a

-- `domain.charms[id].model`; an id that is out of range raises an IndexError, which is `none`.
abbrev pub model_of : Domain → ℕ → Option ModelRef
model_of d id = on_some (get_elem? d.charms id) (λ c. some c.model)
