-- ===== src/Registry/Samples.antt =====
-- A machine with a container on it: tests of the registry, and the theorems at concrete inputs.
use charm_integration_testin.Prelude.{
  ℕ, ◌≡◌, ◌⊎◌, refl, inl, inr, eq_iff, arith, In, if◌then◌else◌, Bool-cases, false, String, str_eq,
  Option, none, some, List, [], ◌∷◌, ◌++◌,
}
use charm_integration_testin.Prelude.Dict.{get, put}
use charm_integration_testin.Registry.{
  ResourceHandle, Call, ResourceEntry, ResourceRegistry, Registered, registered, unknown_parent,
  register, is_registered, deregister,
}
use charm_integration_testin.Registry.Teardown.{After, teardown, teardown_all}
use charm_integration_testin.Registry.Removal.{HasLeft, deregister-HasLeft}
use charm_integration_testin.Registry.Forest.{IsForest, teardown-unregisters}

abbrev handle : String → ResourceHandle
handle id = record { resource_id = id; resource_type = "machine" }

-- The world is the list of what was destroyed.
abbrev destroyer : ℕ → Call (List ℕ) ℕ
destroyer n w = (w ++ n ∷ [], none)

abbrev failing : Call (List ℕ) ℕ
failing w = (w, some 7)

abbrev entry : String → Option (Call (List ℕ) ℕ) → Option String → ResourceEntry (List ℕ) ℕ
entry id d parent = record {
  handle = handle id;
  destroyer = d;
  parent_id = parent;
  collectors = [];
  logs_collected = false;
  destroyed = false;
}

abbrev machine : Call (List ℕ) ℕ → ResourceRegistry (List ℕ) ℕ
machine d = record {
  global_collectors = [];
  entries = ("m", entry "m" (some (destroyer 1)) none) ∷ ("c", entry "c" (some d) (some "m")) ∷ [];
  children = ("m", "c" ∷ []) ∷ [];
}

abbrev empty : ResourceRegistry (List ℕ) ℕ
empty = record { global_collectors = []; entries = []; children = [] }

abbrev and_container : Registered (List ℕ) ℕ → Registered (List ℕ) ℕ
and_container (registered r) = register (handle "c") (some (destroyer 2)) [] (some (handle "m")) r
and_container other = other

registry_program : Unit {0}
unfolding register deregister get put teardown teardown_all
registry_program = tt

built :
    and_container (register (handle "m") (some (destroyer 1)) [] none empty)
    ≡ registered (machine (destroyer 2))
unfolding registry_program
built = refl

orphan : register (handle "c") none [] (some (handle "m")) empty ≡ unknown_parent
unfolding registry_program
orphan = refl

-- The container goes first.
depth_first : teardown_all (machine (destroyer 2)) [] ≡ some (empty, 2 ∷ 1 ∷ [])
unfolding registry_program
depth_first = refl

-- The machine is not destroyed when the container's destroyer raises.
child_raises :
    teardown_all (machine failing) []
    ≡ some (
      record {
        global_collectors = [];
        entries = ("m", entry "m" (some (destroyer 1)) none) ∷ [];
        children = [];
      },
      [],
    )
unfolding registry_program
child_raises = refl

deregister-HasLeft_example :
    ((get str_eq (machine failing).entries "m" ≡ none)
      × (deregister (handle "m") (machine failing) ≡ machine failing))
    ⊎ ((e : ResourceEntry (List ℕ) ℕ) × (get str_eq (machine failing).entries "m" ≡ some e)
        × HasLeft (machine failing) (deregister (handle "m") (machine failing)) "m" e)
deregister-HasLeft_example = deregister-HasLeft (handle "m") (machine failing)

abbrev gone : After (List ℕ) ℕ
gone = record { registry = empty; world = 2 ∷ 1 ∷ []; raised = none }

torn_down : teardown 2 (handle "m") (machine (destroyer 2)) [] ≡ some gone
unfolding registry_program
torn_down = refl

abbrev level : String → ℕ
level id = if str_eq id "m" then 1 else 0

machine-IsForest : IsForest level (machine (destroyer 2))
unfolding get
machine-IsForest = record {
  keyed = λ id e h. elim (Bool-cases (str_eq "m" id)) [
    | inl p ↦
        let h' : some (entry "m" (some (destroyer 1)) none) ≡ some e = rw p at h in
        let same : entry "m" (some (destroyer 1)) none ≡ e = cc in rw (← same) ((eq_iff "m" id).0 p)
    | inr p ↦ elim (Bool-cases (str_eq "c" id)) [
      | inl q ↦
          let h' : some (entry "c" (some (destroyer 2)) (some "m")) ≡ some e = rw (p, q) at h in
          let same : entry "c" (some (destroyer 2)) (some "m") ≡ e = cc in
          rw (← same) ((eq_iff "c" id).0 q)
      | inr q ↦ let h' : none ≡ some e = rw (p, q) at h in absurd (cc)
    ]
  ];
  lower = λ p id m. elim (Bool-cases (str_eq "m" p)) [
    | inl q ↦
        let m' : In id ("c" ∷ []) = rw q at m in
        elim m' [
          | inl e ↦ rw (e, ← (eq_iff "m" p).0 q) (omega arith)
          | inr nothing ↦ absurd nothing
        ]
    | inr q ↦ let m' : In id [] = rw q at m in absurd m'
  ];
}

teardown-unregisters_example :
    (a : After (List ℕ) ℕ) × (teardown 2 (handle "m") (machine (destroyer 2)) [] ≡ some a)
    × IsForest level a.registry
    × (a.raised ≡ none → is_registered a.registry (handle "m") ≡ false)
teardown-unregisters_example =
    teardown-unregisters level 2 (handle "m") (machine (destroyer 2)) [] (omega arith)
      machine-IsForest
