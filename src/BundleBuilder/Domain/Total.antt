-- ===== src/BundleBuilder/Domain/Total.antt =====
-- domain.py: `pair_charms_in_domain` raises nothing in a sound domain.
use charm_integration_testin.Prelude.{
  ℕ, suc, length, ◌<◌, get_elem?-In, ◌≡◌, refl, inl, inr, Bool, true, false, Option, none, some,
  List, [], ◌∷◌, map, ◌==◌, if◌then◌else◌, Bool-cases, All,
}
use charm_integration_testin.BundleBuilder.Domain.{
  ModelRef, DomainCharmIntegration, DomainApplicationIntegration, DomainModel, Domain, model_of,
  on_some,
}
use charm_integration_testin.BundleBuilder.Domain.Refresh.{
  is_linked, link_one, link_all, map_some, refresh_model, refresh,
}
use charm_integration_testin.BundleBuilder.Domain.Pairing.{
  integration_key, on_machine, Pairs, refresh_if, pairs_of, pair_charms_in_domain,
}
use charm_integration_testin.BundleBuilder.Domain.Sound.{IsPossible, IsSound, pairs_of-IsSound}

abbrev pub Returns : {A : Type 0} → Option A → Type 0
Returns {A = A} o = (a : A) × (o ≡ some a)

if-Returns :
    {A : Type 0} (b : Bool) (x y : Option A) → Returns x → Returns y → Returns (if b then x else y)
if-Returns true x y h k = h
if-Returns false x y h k = k

on_some-Returns :
    {A B : Type 0} (o : Option A) (f : A → Option B)
    → Returns o
    → ((a : A) → Returns (f a))
    → Returns (on_some o f)
on_some-Returns (some a) f h k = k a
on_some-Returns none f (a, e) k = absurd (cc)

map_some-Returns :
    {A B : Type 0} (f : A → Option B) (as' : List A)
    → ((a : A) → Returns (f a))
    → Returns (map_some f as')
unfolding map_some
map_some-Returns f [] h = ([], refl)
map_some-Returns f (a ∷ as') h =
    on_some-Returns (f a) _ (h a)
      (λ b. on_some-Returns (map_some f as') _ (map_some-Returns f as' h) (λ bs. (b ∷ bs, refl)))

-- Both charms of the integration are there.
abbrev IsFound : Domain → DomainCharmIntegration → Type 0
IsFound d i = Returns (model_of d i.requires_charm_id) × Returns (model_of d i.provides_charm_id)

module _ (d : Domain) (r : ModelRef) (mc : DomainModel) where
  link_one-Returns :
      (ai : DomainApplicationIntegration) (n : ℕ) (i : DomainCharmIntegration)
      → IsFound d i
      → Returns (link_one d r mc ai n i)
  unfolding link_one
  link_one-Returns ai n i (req, prov) =
      if-Returns (is_linked n ai.charm_integration_ids) _ _ (ai, refl)
        (on_some-Returns (model_of d i.requires_charm_id) _ req (λ q.
          on_some-Returns (model_of d i.provides_charm_id) _ prov (λ p.
            if-Returns _ _ _ (if-Returns _ _ _ (_, refl) (ai, refl))
              (if-Returns _ _ _ (_, refl) (ai, refl)))))

  link_all-Returns :
      (n : ℕ) (is : List DomainCharmIntegration) (ai : DomainApplicationIntegration)
      → All (IsFound d) is
      → Returns (link_all d r mc n is ai)
  unfolding link_all
  link_all-Returns n [] ai h = (ai, refl)
  link_all-Returns n (i ∷ is) ai (f, h) =
      on_some-Returns (link_one d r mc ai n i) _ (link_one-Returns ai n i f)
        (λ linked. link_all-Returns (suc n) is linked h)

refresh-Returns : (d : Domain) → All (IsFound d) d.charm_integrations → Returns (refresh d)
unfolding refresh refresh_model
refresh-Returns d h =
    on_some-Returns (map_some (refresh_model d) d.models) _
      (map_some-Returns (refresh_model d) d.models (λ (r, mc).
        on_some-Returns
          (map_some (link_all d r mc 0 d.charm_integrations) mc.application_integrations) _
          (map_some-Returns (link_all d r mc 0 d.charm_integrations) mc.application_integrations
            (λ ai. link_all-Returns d r mc 0 d.charm_integrations ai h))
          (λ ais. (_, refl))))
      (λ models. (_, refl))

-- The charms of a possible integration are there.
IsPossible-IsFound :
    (d : Domain) (machine : ModelRef → Bool) (is : List DomainCharmIntegration)
    → All (IsPossible d.charms machine) (map integration_key is)
    → All (IsFound d) is
IsPossible-IsFound d machine [] h = tt
IsPossible-IsFound d machine (i ∷ is) ((e, c, f, b, (at_c, u), (at_b, v), same, contained), h) =
    (((c.model, rw at_c refl), (b.model, rw at_b refl)), IsPossible-IsFound d machine is h)

refresh_if-Returns :
    (d : Domain) (s : Pairs)
    → All (IsPossible d.charms (on_machine d)) (map integration_key s.integrations)
    → Returns (refresh_if d s)
refresh_if-Returns d s h =
    let mid : Domain = record {
      models = d.models;
      charms = d.charms;
      charm_integrations = s.integrations;
    } in
    if-Returns s.created_any _ _
      (on_some-Returns (refresh mid) _
        (refresh-Returns mid (IsPossible-IsFound mid (on_machine d) s.integrations h))
        (λ e. ((e, true), refl)))
      ((d, false), refl)

-- In a sound domain a call for two of its charms returns.
pub pair_charms_in_domain-returns :
    (d : Domain) (a_id b_id : ℕ)
    → IsSound d
    → a_id < length d.charms
    → b_id < length d.charms
    → (e : Domain) × (created : Bool) × (pair_charms_in_domain d a_id b_id ≡ some (e, created))
unfolding pair_charms_in_domain
pair_charms_in_domain-returns d a_id b_id sound a_in b_in = elim (Bool-cases (a_id == b_id)) [
  | inl p ↦ (d, false, rw p refl)
  | inr p ↦
      let (a, at_a, i) = get_elem?-In d.charms a_id a_in in
      let (b, at_b, j) = get_elem?-In d.charms b_id b_in in
      let ((e, created), h) =
        refresh_if-Returns d (pairs_of d a_id a b_id b)
          ((pairs_of-IsSound d a_id b_id a b at_a at_b sound).0) in
      (e, created, rw (p, at_a, at_b) h)
]
