-- ===== src/Scheduler/Item.antt =====
-- The pytest items of the scheduler, with what plugin.py reads and writes of them. An object's
-- identity `id(item)` is the number `ident`; a copy takes the next number, which no item has.
use charm_integration_testin.Prelude.{
  ℕ, ◌+◌, Bool, true, false, ◌&&◌, ◌||◌, Option, none, some, List, [], ◌∷◌, ◌++◌, ◌==◌,
  if◌then◌else◌, codes, decimal, ok, raise,
}
use charm_integration_testin.Prelude.Dict.{get, put}
use charm_integration_testin.Scheduler.Marker.{RawMarker, StateMarker, read_state_marker}

pub record Item : Type 0 where
  pub ident : ℕ
  pub name : List ℕ
  pub nodeid : List ℕ
  pub marker : Option RawMarker
  pub injected : Bool

-- `try: read_state_marker(item)`, `except ValueError: None`. The IndexError of an empty list of
-- requires ends the collection, so no item with it is ever run.
unfoldable pub marker_of : Item → Option StateMarker
marker_of item = elim (read_state_marker item.marker) [ ok m ↦ m | raise e ↦ none ]

abbrev pub nat_eq : ℕ → ℕ → Bool
nat_eq a b = a == b

unfoldable pub has_id : List ℕ → ℕ → Bool
has_id [] i = false
has_id (x ∷ xs) i = x == i || has_id xs i

-- What the copies share: the next free identity, the originals of copies, the items marked.
pub record Identities : Type 0 where
  pub next_id : ℕ
  pub duplicate_original_ids : List (ℕ × ℕ)
  pub injected_item_ids : List ℕ

-- `_duplicate_original_ids.get(id(item), id(item))`
unfoldable pub original_id : Identities → ℕ → ℕ
original_id ids i = elim (get nat_eq ids.duplicate_original_ids i) [ none ↦ i | some o ↦ o ]

-- The text up to the last "::", that included; `none` where there is no "::".
unfoldable pub last_prefix : List ℕ → Option (List ℕ)
last_prefix [] = none
last_prefix (a ∷ []) = none
last_prefix (a ∷ b ∷ rest) = elim (last_prefix (b ∷ rest)) [
  | some p ↦ some (a ∷ p)
  | none ↦ if a == 58 && b == 58 then some (58 ∷ 58 ∷ []) else none
]

unfoldable pub module_prefix : List ℕ → List ℕ
unfolding last_prefix
module_prefix nodeid = elim (last_prefix nodeid) [ none ↦ [] | some p ↦ p ]

unfoldable pub mark_as_injected : Item → Identities → Item × Identities
unfolding has_id module_prefix codes
mark_as_injected item ids =
    let marked = record ids { injected_item_ids = item.ident ∷ ids.injected_item_ids } in
    if has_id ids.injected_item_ids item.ident || item.injected then (item, marked) else (
      record item {
        name = codes "[injected] " ++ item.name;
        nodeid = module_prefix item.nodeid ++ (codes "[injected] " ++ item.name);
        injected = true;
      },
      marked,
    )

-- `f"{base}[{occurrence}]"`
unfoldable pub with_occurrence : List ℕ → ℕ → List ℕ
unfolding decimal codes
with_occurrence base occurrence = base ++ (codes "[" ++ (decimal occurrence ++ codes "]"))

unfoldable pub label_occurrence : Item → List ℕ → List ℕ → ℕ → Item
unfolding with_occurrence
label_occurrence item base_name base_nodeid occurrence = record item {
  name = with_occurrence base_name occurrence;
  nodeid = with_occurrence base_nodeid occurrence;
}

unfoldable pub duplicate_item : Item → ℕ → List ℕ → List ℕ → Identities → Item × Identities
unfolding label_occurrence original_id
duplicate_item item occurrence base_name base_nodeid ids = (
  label_occurrence (record item { ident = ids.next_id }) base_name base_nodeid occurrence,
  record ids {
    next_id = ids.next_id + 1;
    duplicate_original_ids =
        put nat_eq ids.duplicate_original_ids ids.next_id (original_id ids item.ident);
  },
)
