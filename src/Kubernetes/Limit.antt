-- ===== src/Kubernetes/Limit.antt =====
-- kubernetes_client/resource_limit.py, and the contexts of cpu_limit.py and memory_limit.py. The API
-- server is a parameter: it reads and patches a StatefulSet in a world `W`, raising exceptions of `E`.
pub mod Values
pub mod Flow
pub mod Server
pub mod Runs
use charm_integration_testin.Prelude.{
  ℕ, zero, suc, Bool, true, false, not, ◌&&◌, ◌||◌, Option, none, some, List, [], ◌∷◌, ◌==◌, leb,
  if◌then◌else◌, String, str_eq, Result, ok, raise, ◌>>=◌,
}
use charm_integration_testin.Prelude.Dict.{get, put}

pub data Resource : Type 0 where
  cpu memory : Resource

abbrev pub resource_key : Resource → String
resource_key cpu = "cpu"
resource_key memory = "memory"

-- The quantities of one field, by resource
abbrev pub Quantities : Type 0
Quantities = List (String × String)

-- A container's `resources`, with what else they hold
pub record Resources : Type 0 where
  pub limits : Option Quantities
  pub requests : Option Quantities
  pub others : Quantities

pub record Container : Type 0 where
  pub name : String
  pub resources : Option Resources

pub record Strategy : Type 0 where
  pub kind : Option String
  pub rolling_partition : Option ℕ

pub record StatefulSet : Type 0 where
  pub uid : String
  pub resource_version : String
  pub update_strategy : Option Strategy
  pub containers : List Container

-- The operations of a patch: two tests, and the new resources of the container at the index.
pub record Patch : Type 0 where
  pub uid : String
  pub resource_version : String
  pub index : ℕ
  pub updated : Resources

pub data Failure (E : Type 0) : Type 0 where
  replaced missing_container partitioned changed not_positive : Failure E
  api_error : E → Failure E

abbrev pub no_resources : Resources
no_resources = record { limits = none; requests = none; others = [] }

abbrev pub or_default : {A : Type 0} → A → Option A → A
or_default a none = a
or_default a (some b) = b

-- `(field or {}).get(key)`
abbrev pub lookup : Option Quantities → String → Option String
lookup none k = none
lookup (some d) k = get str_eq d k

-- `setdefault(field, {})[key] = value`
abbrev pub assign : Option Quantities → String → String → Option Quantities
assign d k v = some (put str_eq (or_default [] d) k v)

-- `d.pop(key, None)`
unfoldable pub pop : Quantities → String → Quantities
pop [] k = []
pop ((j, v) ∷ d) k = let rest = pop d k in if str_eq j k then rest else (j, v) ∷ rest

abbrev pub unless_empty : Quantities → Option Quantities
unless_empty [] = none
unless_empty (q ∷ d) = some (q ∷ d)

-- `setdefault(field, {}).pop(key, None)`, and the field goes if it is empty.
abbrev pub unassign : Option Quantities → String → Option Quantities
unassign d k = unless_empty (pop (or_default [] d) k)

-- `resources`: the first container of the name, and its index
unfoldable pub find_resources :
    {E : Type 0} → ℕ → String → List Container → Result (Failure E) (ℕ × Resources)
find_resources i name [] = raise missing_container
find_resources i name (c ∷ cs) =
    let rest = find_resources (suc i) name cs in
    if str_eq c.name name then ok (i, or_default no_resources c.resources) else rest

abbrev pub is_rolling : Option String → Bool
is_rolling none = true
is_rolling (some kind) = str_eq kind "RollingUpdate"

abbrev pub has_partition : Option ℕ → Bool
has_partition none = false
has_partition (some n) = not (n == 0)

-- The strategy is not one that restarts every pod.
abbrev pub is_partitioned : Option Strategy → Bool
is_partitioned none = false
is_partitioned (some s) = not (is_rolling s.kind) || has_partition s.rolling_partition

-- The previous quantity, or none
abbrev pub put_back : Option Quantities → String → Option String → Option Quantities
put_back field key none = unassign field key
put_back field key (some previous) = assign field key previous

-- `parse_quantity`, as a multiple of the smallest unit
module _ (parse_quantity : String → ℕ) where
  -- The request that is kept below the limit
  unfoldable pub capped : String → String → String
  capped request limit =
      if leb (parse_quantity request) (parse_quantity limit) then request else limit

  -- The resources with the limit
  unfoldable pub limit_resources : (key limit default_request : String) → Resources → Resources
  limit_resources key limit default_request saved = record {
    limits = assign saved.limits key limit;
    requests =
        assign saved.requests key
          (capped (or_default default_request (lookup saved.requests key)) limit);
    others = saved.others;
  }

  -- Two quantities are the same, or both are absent.
  abbrev pub same_quantity : Option String → Option String → Bool
  same_quantity none none = true
  same_quantity (some a) (some b) = parse_quantity a == parse_quantity b
  same_quantity _ _ = false

  -- One field, whose quantity must be the previous one or the one that was set
  unfoldable pub restore_field :
      {E : Type 0} (key : String) (previous expected : Option String) (field : Option Quantities)
      → Result (Failure E) (Option Quantities)
  restore_field key previous expected field =
      if same_quantity (lookup field key) previous || same_quantity (lookup field key) expected
      then ok (put_back field key previous)
      else raise changed

  unfoldable pub restore :
      {E : Type 0} (key : String) (saved limited current : Resources) → Result (Failure E) Resources
  restore key saved limited current =
      restore_field key (lookup saved.limits key) (lookup limited.limits key) current.limits
      >>= λ l.
          restore_field key (lookup saved.requests key) (lookup limited.requests key)
            current.requests
          >>= λ r. ok (record { limits = l; requests = r; others = current.others })
