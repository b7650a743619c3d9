-- ===== src/Registry.antt =====
-- resource_registry/registry.py: the tree of live resources and its teardown. `W` is the state of the
-- world that collectors and destroyers act on, `E` what they raise. The time of the registration and
-- the log lines are left out.
pub mod Teardown
pub mod Presence
pub mod Forest
pub mod Roots
pub mod Removal
mod Samples
use charm_integration_testin.Prelude.{
  ℕ, zero, suc, ◌+◌, String, str_eq, Bool, true, false, not, ◌&&◌, Option, none, some, List, [],
  ◌∷◌, ◌++◌, if◌then◌else◌, length,
}
use charm_integration_testin.Prelude.Dict.{get, put}

pub record ResourceHandle : Type 0 where
  pub resource_id : String
  pub resource_type : String

-- The world after a call, and what the call raised, if it did.
abbrev pub Call : Type 0 → Type 0 → Type 0
Call W E = W → W × Option E

pub record LogCollector (W E : Type 0) : Type 0 where
  pub supports : ResourceHandle → Bool
  pub collect : ResourceHandle → Call W E

pub record ResourceEntry (W E : Type 0) : Type 0 where
  pub handle : ResourceHandle
  pub destroyer : Option (Call W E)
  pub parent_id : Option String
  pub collectors : List (LogCollector W E)
  pub logs_collected : Bool
  pub destroyed : Bool

pub record ResourceRegistry (W E : Type 0) : Type 0 where
  pub global_collectors : List (LogCollector W E)
  pub entries : List (String × ResourceEntry W E)
  pub children : List (String × List String)

pub data Registered (W E : Type 0) : Type 0 where
  registered : ResourceRegistry W E → Registered W E
  already_registered unknown_parent : Registered W E

-- `dict.pop(key, ...)`: no key stands in a dict twice.
unfoldable pub remove : {V : Type 0} → List (String × V) → String → List (String × V)
remove [] k = []
remove ((j, v) ∷ d) k = if str_eq j k then remove d k else (j, v) ∷ remove d k

unfoldable pub without : List String → String → List String
without [] k = []
without (j ∷ js) k = if str_eq j k then without js k else j ∷ without js k

abbrev pub ids_or_none : Option (List String) → List String
ids_or_none none = []
ids_or_none (some ids) = ids

abbrev pub is_present : {V : Type 0} → Option V → Bool
is_present none = false
is_present (some v) = true

abbrev pub id_of : Option ResourceHandle → Option String
id_of none = none
id_of (some p) = some p.resource_id

abbrev pub keep_siblings :
    String → List String → List (String × List String) → List (String × List String)
keep_siblings p [] children = remove children p
keep_siblings p (s ∷ ss) children = put str_eq children p (s ∷ ss)

module _ {W E : Type 0} where
  abbrev pub child_ids : ResourceRegistry W E → String → List String
  child_ids r id = ids_or_none (get str_eq r.children id)

  abbrev pub is_registered : ResourceRegistry W E → ResourceHandle → Bool
  is_registered r h = is_present (get str_eq r.entries h.resource_id)

  unfoldable pub handles : List (String × ResourceEntry W E) → List ResourceHandle
  handles [] = []
  handles ((id, e) ∷ rest) = e.handle ∷ handles rest

  unfoldable pub registered_handles : ResourceRegistry W E → List ResourceHandle
  unfolding handles
  registered_handles r = handles r.entries

  abbrev pub handle_of : Option (ResourceEntry W E) → List ResourceHandle
  handle_of none = []
  handle_of (some e) = e.handle ∷ []

  unfoldable pub handles_among : ResourceRegistry W E → List String → List ResourceHandle
  handles_among r [] = []
  handles_among r (id ∷ ids) = handle_of (get str_eq r.entries id) ++ handles_among r ids

  unfoldable pub children_of : ResourceRegistry W E → ResourceHandle → List ResourceHandle
  unfolding handles_among
  children_of r h = handles_among r (child_ids r h.resource_id)

  abbrev pub set_entry : String → ResourceEntry W E → ResourceRegistry W E → ResourceRegistry W E
  set_entry id e r = record r { entries = put str_eq r.entries id e }

  abbrev new_entry :
      ResourceHandle
      → Option (Call W E)
      → List (LogCollector W E)
      → Option String
      → ResourceEntry W E
  new_entry h destroyer collectors parent_id = record {
    handle = h;
    destroyer = destroyer;
    parent_id = parent_id;
    collectors = collectors;
    logs_collected = false;
    destroyed = false;
  }

  abbrev pub known_parent : ResourceRegistry W E → Option ResourceHandle → Bool
  known_parent r none = true
  known_parent r (some p) = is_registered r p

  abbrev pub add_child :
      Option ResourceHandle → String → ResourceRegistry W E → ResourceRegistry W E
  add_child none id r = r
  add_child (some p) id r = record r {
    children = put str_eq r.children p.resource_id (child_ids r p.resource_id ++ id ∷ []);
  }

  unfoldable pub register :
      ResourceHandle
      → Option (Call W E)
      → List (LogCollector W E)
      → Option ResourceHandle
      → ResourceRegistry W E
      → Registered W E
  register h destroyer collectors parent r =
      if is_registered r h
      then already_registered
      else if not (known_parent r parent)
      then unknown_parent
      else registered (
          add_child parent h.resource_id
            (set_entry h.resource_id (new_entry h destroyer collectors (id_of parent)) r))

  abbrev pub make_root :
      String → Option (ResourceEntry W E) → ResourceRegistry W E → ResourceRegistry W E
  make_root id none r = r
  make_root id (some e) r = set_entry id (record e { parent_id = none }) r

  unfoldable pub make_roots : List String → ResourceRegistry W E → ResourceRegistry W E
  make_roots [] r = r
  make_roots (id ∷ ids) r = make_roots ids (make_root id (get str_eq r.entries id) r)

  abbrev pub forget_child :
      String → String → Option (List String) → ResourceRegistry W E → ResourceRegistry W E
  forget_child p id none r = r
  forget_child p id (some siblings) r = record r {
    children = keep_siblings p (without siblings id) r.children;
  }

  abbrev pub leave_parent : Option String → String → ResourceRegistry W E → ResourceRegistry W E
  leave_parent none id r = r
  leave_parent (some p) id r = forget_child p id (get str_eq r.children p) r

  abbrev pub drop_entry :
      Option (ResourceEntry W E) → String → ResourceRegistry W E → ResourceRegistry W E
  drop_entry none id r = r
  drop_entry (some e) id r =
      let orphans = child_ids r id in
      leave_parent e.parent_id id (
        make_roots orphans
          (record r { entries = remove r.entries id; children = remove r.children id }))

  -- Its children are roots then, which `teardown_all` reaches.
  unfoldable pub deregister : ResourceHandle → ResourceRegistry W E → ResourceRegistry W E
  unfolding make_roots remove without
  deregister h r = drop_entry (get str_eq r.entries h.resource_id) h.resource_id r
