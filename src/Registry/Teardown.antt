-- ===== src/Registry/Teardown.antt =====
-- resource_registry/registry.py: `collect_logs`, `teardown` and `teardown_all`, which pass the world
-- through the collectors and the destroyers.
use charm_integration_testin.Prelude.{
  ℕ, zero, suc, String, str_eq, Bool, true, false, Option, none, some, List, [], ◌∷◌, ◌++◌,
  if◌then◌else◌, length,
}
use charm_integration_testin.Prelude.Dict.{get}
use charm_integration_testin.Registry.{
  ResourceHandle, LogCollector, ResourceEntry, ResourceRegistry, child_ids, set_entry, deregister,
}

-- Where a call leaves the registry and the world, and what it raised.
pub record After (W E : Type 0) : Type 0 where
  pub registry : ResourceRegistry W E
  pub world : W
  pub raised : Option E

-- The exception of the destroyer hides that of the collection.
abbrev pub first_of : {E : Type 0} → Option E → Option E → Option E
first_of none log_exc = log_exc
first_of (some x) log_exc = some x

-- A call of `teardown`, or `none` when its recursion exceeds the fuel.
abbrev pub Teardown : Type 0 → Type 0 → Type 0
Teardown W E = ResourceHandle → ResourceRegistry W E → W → Option (After W E)

abbrev pub is_root : Option String → Bool
is_root none = true
is_root (some p) = false

unfoldable pub reversed : List String → List String
reversed [] = []
reversed (x ∷ xs) = reversed xs ++ x ∷ []

module _ {W E : Type 0} where
  unfoldable pub supporting : ResourceHandle → List (LogCollector W E) → List (LogCollector W E)
  supporting h [] = []
  supporting h (c ∷ cs) = if c.supports h then c ∷ supporting h cs else supporting h cs

  -- The first collector that raises ends the loop.
  unfoldable pub run_collectors : ResourceHandle → List (LogCollector W E) → W → W × Option E
  run_collectors h [] w = (w, none)
  run_collectors h (c ∷ cs) w =
      let here = c.collect h w in
      elim here.1 [ none ↦ run_collectors h cs here.0 | some e ↦ (here.0, some e) ]

  abbrev pub all_collectors :
      ResourceRegistry W E → ResourceEntry W E → ResourceHandle → List (LogCollector W E)
  all_collectors r e h = supporting h e.collectors ++ supporting h r.global_collectors

  abbrev pub mark_collected :
      ResourceHandle → ResourceEntry W E → ResourceRegistry W E → W × Option E → After W E
  mark_collected h e r (w, none) = record {
    registry = set_entry h.resource_id (record e { logs_collected = true }) r;
    world = w;
    raised = none;
  }
  mark_collected h e r (w, some x) = record { registry = r; world = w; raised = some x }

  abbrev pub collect_entry :
      Option (ResourceEntry W E) → ResourceHandle → ResourceRegistry W E → W → After W E
  collect_entry none h r w = record { registry = r; world = w; raised = none }
  collect_entry (some e) h r w = mark_collected h e r (run_collectors h (all_collectors r e h) w)

  unfoldable pub collect_logs : ResourceHandle → ResourceRegistry W E → W → After W E
  unfolding supporting run_collectors
  collect_logs h r w = collect_entry (get str_eq r.entries h.resource_id) h r w

  -- The destroyer, unless it has run or there is none.
  abbrev pub destroy : ResourceEntry W E → W → W × Option E
  destroy e w =
      if e.destroyed then (w, none) else elim e.destroyer [ none ↦ (w, none) | some f ↦ f w ]

  -- The part of `teardown` after the children.
  unfoldable pub finish : ResourceHandle → ResourceEntry W E → ResourceRegistry W E → W → After W E
  unfolding collect_logs
  finish h e r w =
      let logs : After W E =
        if e.logs_collected
        then record { registry = r; world = w; raised = none }
        else collect_logs h r w in
      let gone = destroy e logs.world in
      record {
        registry = deregister h logs.registry;
        world = gone.0;
        raised = first_of gone.1 logs.raised;
      }

  abbrev pub teardown_child :
      Teardown W E → Option (ResourceEntry W E) → ResourceRegistry W E → W → Option (After W E)
  teardown_child call none r w = some (record { registry = r; world = w; raised = none })
  teardown_child call (some child) r w = call child.handle r w

  -- What a call raises leaves the caller.
  abbrev pub unless_raised :
      Option (After W E) → (After W E → Option (After W E)) → Option (After W E)
  unless_raised none next = none
  unless_raised (some a) next = elim a.raised [ none ↦ next a | some x ↦ some a ]

  -- What a child raises leaves the loop, and the parent's teardown with it.
  unfoldable pub teardown_children :
      Teardown W E → List String → ResourceRegistry W E → W → Option (After W E)
  teardown_children call [] r w = some (record { registry = r; world = w; raised = none })
  teardown_children call (id ∷ ids) r w =
      unless_raised (teardown_child call (get str_eq r.entries id) r w)
        (λ a. teardown_children call ids a.registry a.world)

  abbrev pub after_children :
      ResourceHandle → ResourceEntry W E → Option (After W E) → Option (After W E)
  after_children h e o = unless_raised o (λ a. some (finish h e a.registry a.world))

  abbrev pub teardown_entry : Teardown W E → Option (ResourceEntry W E) → Teardown W E
  teardown_entry call none h r w = some (record { registry = r; world = w; raised = none })
  teardown_entry call (some e) h r w =
      after_children h e (teardown_children call (child_ids r h.resource_id) r w)

  unfoldable pub teardown : ℕ → Teardown W E
  unfolding teardown_children finish
  teardown zero h r w = none
  teardown (suc fuel) h r w =
      teardown_entry (teardown fuel) (get str_eq r.entries h.resource_id) h r w

  unfoldable pub root_ids : List (String × ResourceEntry W E) → List String
  root_ids [] = []
  root_ids ((id, e) ∷ rest) = if is_root e.parent_id then id ∷ root_ids rest else root_ids rest

  -- What a root raises becomes a warning.
  unfoldable pub teardown_roots :
      ℕ → List String → ResourceRegistry W E → W → Option (ResourceRegistry W E × W)
  teardown_roots fuel [] r w = some (r, w)
  teardown_roots fuel (id ∷ ids) r w =
      elim (teardown_child (teardown fuel) (get str_eq r.entries id) r w) [
        | none ↦ none
        | some a ↦ teardown_roots fuel ids a.registry a.world
      ]

  -- No chain of children is longer than the registry.
  unfoldable pub teardown_all : ResourceRegistry W E → W → Option (ResourceRegistry W E × W)
  unfolding teardown root_ids reversed teardown_roots
  teardown_all r w = teardown_roots (suc (length r.entries)) (reversed (root_ids r.entries)) r w
