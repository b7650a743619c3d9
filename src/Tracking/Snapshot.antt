-- ===== src/Tracking/Snapshot.antt =====
-- resource_tracking/snapshot.py: the snapshots of the Kubernetes resources, one record per dataclass.
use charm_integration_testin.Prelude.{String, Bool, true, false, List, [], ◌∷◌}

-- One drift kind that a snapshot type reports.
pub record InconsistencyCheck : Type 0 where
  pub qualifier : String
  pub attribute : String
  pub ignore_empty_transition : Bool

pub record PvcSnapshot : Type 0 where
  pub name : String
  pub namespace : String
  pub storage_class : String
  pub requested_storage : String
  pub phase : String
  pub application : String

pub record StatefulSetSnapshot : Type 0 where
  pub name : String
  pub namespace : String
  pub replicas : String
  pub image : String
  pub application : String

pub record DeploymentSnapshot : Type 0 where
  pub name : String
  pub namespace : String
  pub replicas : String
  pub image : String
  pub application : String

pub record ServiceSnapshot : Type 0 where
  pub name : String
  pub namespace : String
  pub service_type : String
  pub cluster_ip : String
  pub ports : String
  pub application : String

pub record ConfigMapSnapshot : Type 0 where
  pub name : String
  pub namespace : String
  pub data_keys : String
  pub application : String

pub record SecretSnapshot : Type 0 where
  pub name : String
  pub namespace : String
  pub secret_type : String
  pub data_keys : String
  pub application : String

pub record ServiceAccountSnapshot : Type 0 where
  pub name : String
  pub namespace : String
  pub application : String

pub record RoleSnapshot : Type 0 where
  pub name : String
  pub namespace : String
  pub rules : String
  pub application : String

pub record RoleBindingSnapshot : Type 0 where
  pub name : String
  pub namespace : String
  pub role_ref : String
  pub subjects : String
  pub application : String

pub record NetworkPolicySnapshot : Type 0 where
  pub name : String
  pub namespace : String
  pub policy_types : String
  pub application : String

pub record IngressSnapshot : Type 0 where
  pub name : String
  pub namespace : String
  pub ingress_class : String
  pub hosts : String
  pub application : String

-- The classes that fulfil the protocol ResourceSnapshot.
pub data ResourceSnapshot : Type 0 where
  pvc : PvcSnapshot → ResourceSnapshot
  stateful_set : StatefulSetSnapshot → ResourceSnapshot
  deployment : DeploymentSnapshot → ResourceSnapshot
  service : ServiceSnapshot → ResourceSnapshot
  config_map : ConfigMapSnapshot → ResourceSnapshot
  secret : SecretSnapshot → ResourceSnapshot
  service_account : ServiceAccountSnapshot → ResourceSnapshot
  role : RoleSnapshot → ResourceSnapshot
  role_binding : RoleBindingSnapshot → ResourceSnapshot
  network_policy : NetworkPolicySnapshot → ResourceSnapshot
  ingress : IngressSnapshot → ResourceSnapshot

abbrev check : String → String → InconsistencyCheck
check q a = record { qualifier = q; attribute = a; ignore_empty_transition = false }

abbrev pub resource_type : ResourceSnapshot → String
resource_type (pvc s) = "pvc"
resource_type (stateful_set s) = "statefulset"
resource_type (deployment s) = "deployment"
resource_type (service s) = "service"
resource_type (config_map s) = "configmap"
resource_type (secret s) = "secret"
resource_type (service_account s) = "serviceaccount"
resource_type (role s) = "role"
resource_type (role_binding s) = "rolebinding"
resource_type (network_policy s) = "networkpolicy"
resource_type (ingress s) = "ingress"

abbrev pub name_of : ResourceSnapshot → String
name_of (pvc s) = s.name
name_of (stateful_set s) = s.name
name_of (deployment s) = s.name
name_of (service s) = s.name
name_of (config_map s) = s.name
name_of (secret s) = s.name
name_of (service_account s) = s.name
name_of (role s) = s.name
name_of (role_binding s) = s.name
name_of (network_policy s) = s.name
name_of (ingress s) = s.name

abbrev pub namespace_of : ResourceSnapshot → String
namespace_of (pvc s) = s.namespace
namespace_of (stateful_set s) = s.namespace
namespace_of (deployment s) = s.namespace
namespace_of (service s) = s.namespace
namespace_of (config_map s) = s.namespace
namespace_of (secret s) = s.namespace
namespace_of (service_account s) = s.namespace
namespace_of (role s) = s.namespace
namespace_of (role_binding s) = s.namespace
namespace_of (network_policy s) = s.namespace
namespace_of (ingress s) = s.namespace

abbrev pub application_of : ResourceSnapshot → String
application_of (pvc s) = s.application
application_of (stateful_set s) = s.application
application_of (deployment s) = s.application
application_of (service s) = s.application
application_of (config_map s) = s.application
application_of (secret s) = s.application
application_of (service_account s) = s.application
application_of (role s) = s.application
application_of (role_binding s) = s.application
application_of (network_policy s) = s.application
application_of (ingress s) = s.application

abbrev pub identity : ResourceSnapshot → String × String
identity s = (namespace_of s, name_of s)

abbrev pub inconsistency_checks : ResourceSnapshot → List InconsistencyCheck
inconsistency_checks (pvc s) =
    check "resized" "requested_storage" ∷ check "storage_class_changed" "storage_class" ∷ []
inconsistency_checks (stateful_set s) =
    check "scaled" "replicas" ∷ check "image_changed" "image" ∷ []
inconsistency_checks (deployment s) = check "scaled" "replicas" ∷ check "image_changed" "image" ∷ []
inconsistency_checks (service s) =
    check "type_changed" "type"
    ∷ record { qualifier = "ports_changed"; attribute = "ports"; ignore_empty_transition = true }
    ∷ []
inconsistency_checks (config_map s) = check "keys_changed" "data_keys" ∷ []
inconsistency_checks (secret s) =
    check "type_changed" "type" ∷ check "keys_changed" "data_keys" ∷ []
inconsistency_checks (service_account s) = []
inconsistency_checks (role s) = check "rules_changed" "rules" ∷ []
inconsistency_checks (role_binding s) =
    check "role_ref_changed" "role_ref" ∷ check "subjects_changed" "subjects" ∷ []
inconsistency_checks (network_policy s) = check "policy_types_changed" "policy_types" ∷ []
inconsistency_checks (ingress s) =
    check "class_changed" "ingress_class" ∷ check "hosts_changed" "hosts" ∷ []

-- The dict of the report line, in its order.
abbrev pub report_attributes : ResourceSnapshot → List (String × String)
report_attributes (pvc s) =
    ("storage_class", s.storage_class) ∷ ("requested_storage", s.requested_storage) ∷ []
report_attributes (stateful_set s) = ("replicas", s.replicas) ∷ ("image", s.image) ∷ []
report_attributes (deployment s) = ("replicas", s.replicas) ∷ ("image", s.image) ∷ []
report_attributes (service s) = ("type", s.service_type) ∷ ("ports", s.ports) ∷ []
report_attributes (config_map s) = ("data_keys", s.data_keys) ∷ []
report_attributes (secret s) = ("type", s.secret_type) ∷ ("data_keys", s.data_keys) ∷ []
report_attributes (service_account s) = []
report_attributes (role s) = ("rules", s.rules) ∷ []
report_attributes (role_binding s) = ("role_ref", s.role_ref) ∷ ("subjects", s.subjects) ∷ []
report_attributes (network_policy s) = ("policy_types", s.policy_types) ∷ []
report_attributes (ingress s) = ("ingress_class", s.ingress_class) ∷ ("hosts", s.hosts) ∷ []
