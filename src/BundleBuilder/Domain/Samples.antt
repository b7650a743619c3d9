-- ===== src/BundleBuilder/Domain/Samples.antt =====
-- Two charms in one model, as they are paired: tests and theorems at them.
use charm_integration_testin.Prelude.{
  ℕ, ◌≡◌, refl, arith, Bool, true, false, none, some, List, [], ◌∷◌,
}
use charm_integration_testin.Prelude.Dict.{get, put}
use charm_integration_testin.BundleBuilder.Domain.{
  ModelRef, this_model, text, numeral, Variable, EndpointType, EndpointScope, DomainCharm,
  DomainCharmIntegration, DomainApplicationIntegration, DomainModel, Domain,
}
use charm_integration_testin.BundleBuilder.Domain.Pairing.{pair_charms_in_domain, is_existing, row}
use charm_integration_testin.BundleBuilder.Domain.Sound.{IsSound, pair_charms_in_domain-IsSound}
use charm_integration_testin.BundleBuilder.Domain.Again.{pair_charms_in_domain-again}
use charm_integration_testin.BundleBuilder.Domain.Total.{pair_charms_in_domain-returns}

abbrev testing : ModelRef
testing = record { name = some "testing"; controller = none }

abbrev postgresql : DomainCharm
postgresql = record {
  model = testing;
  endpoints =
      (
        "database",
        record { type = EndpointType.provides; interface = "postgresql_client"; scope = none },
      )
      ∷ ("peer", record { type = EndpointType.peers; interface = "postgresql_peers"; scope = none })
      ∷ [];
}

abbrev wiki : DomainCharm
wiki = record {
  model = testing;
  endpoints =
      (
        "db",
        record {
          type = EndpointType.requires;
          interface = "postgresql_client";
          scope = some EndpointScope.global;
        },
      )
      ∷ [];
}

-- The user asks for wiki:db to be integrated with pg:database.
abbrev wish : List (ℕ × Variable) → DomainApplicationIntegration
wish ids = record {
  endpoint_1 = record { application = "pg"; endpoint = "database"; model = this_model };
  endpoint_2 = record { application = "wiki"; endpoint = "db"; model = this_model };
  charm_integration_ids = ids;
}

abbrev machines : List (ℕ × Variable) → DomainModel
machines ids = record {
  platform = "machine";
  applications =
      ("pg", record { charm_ids = (0, []) ∷ [] })
      ∷ ("wiki", record { charm_ids = (1, []) ∷ [] })
      ∷ [];
  application_integrations = wish ids ∷ [];
}

abbrev unpaired : Domain
unpaired = record {
  models = (testing, machines []) ∷ [];
  charms = postgresql ∷ wiki ∷ [];
  charm_integrations = [];
}

abbrev joined : DomainCharmIntegration
joined = record {
  exists =
      text "charm_integration_"
      ∷ numeral 0
      ∷ text ":"
      ∷ text "database"
      ∷ text "__"
      ∷ numeral 1
      ∷ text ":"
      ∷ text "db"
      ∷ text "_exists"
      ∷ [];
  requires_charm_id = 1;
  requires_endpoint = "db";
  provides_charm_id = 0;
  provides_endpoint = "database";
}

abbrev mapped : Variable
mapped =
    text "app_integration_"
    ∷ text "pg"
    ∷ text ":"
    ∷ text "database"
    ∷ text "__"
    ∷ text "wiki"
    ∷ text ":"
    ∷ text "db"
    ∷ text "_maps_to_charm_integration_"
    ∷ numeral 1
    ∷ text ":"
    ∷ text "db"
    ∷ text "__"
    ∷ numeral 0
    ∷ text ":"
    ∷ text "database"
    ∷ []

abbrev paired : Domain
paired = record {
  models = (testing, machines ((0, mapped) ∷ [])) ∷ [];
  charms = postgresql ∷ wiki ∷ [];
  charm_integrations = joined ∷ [];
}

pair_creates : pair_charms_in_domain unpaired 0 1 ≡ some (paired, true)
unfolding pair_charms_in_domain get put is_existing row
pair_creates = refl

pair_charms_in_domain-IsSound_example : IsSound paired
pair_charms_in_domain-IsSound_example =
    pair_charms_in_domain-IsSound unpaired paired 0 1 true (tt, tt) pair_creates

pair_charms_in_domain-again_example : pair_charms_in_domain paired 0 1 ≡ some (paired, false)
pair_charms_in_domain-again_example =
    pair_charms_in_domain-again unpaired paired 0 1 true pair_creates

pair_charms_in_domain-returns_example :
    (e : Domain) × (created : Bool) × (pair_charms_in_domain unpaired 0 1 ≡ some (e, created))
pair_charms_in_domain-returns_example =
    pair_charms_in_domain-returns unpaired 0 1 (tt, tt) (omega arith) (omega arith)
