-- ===== src/BundleBuilder/Domain/Kept.antt =====
-- domain.py: what `_refresh_application_integration_mappings` leaves as it was.
use charm_integration_testin.Prelude.{
  ◌≡◌, refl, sym, ap, ◌∙◌, inl, inr, false, Option, none, some, List, [], ◌∷◌, str_eq, Bool-cases,
}
use charm_integration_testin.Prelude.Dict.{get}
use charm_integration_testin.BundleBuilder.Domain.{
  ModelRef, same_model, DomainModel, Domain, on_some,
}
use charm_integration_testin.BundleBuilder.Domain.Refresh.{
  map_some, link_all, with_links, refresh_model, refresh,
}
use charm_integration_testin.BundleBuilder.Domain.Pairing.{on_machine}

pub on_some-some :
    {A B : Type 0} (o : Option A) (f : A → Option B) (b : B)
    → on_some o f ≡ some b
    → (a : A) × (o ≡ some a) × (f a ≡ some b)
on_some-some none f b h = absurd (cc)
on_some-some (some a) f b h = (a, refl, h)

-- Each model stays under its reference, with its platform.
abbrev HasPlatforms : List (ModelRef × DomainModel) → List (ModelRef × DomainModel) → Type 0
HasPlatforms ms ns =
    (m : ModelRef)
    → (elim (get same_model ms m) [ none ↦ false | some mc ↦ str_eq mc.platform "machine" ])
      ≡ (elim (get same_model ns m) [ none ↦ false | some mc ↦ str_eq mc.platform "machine" ])

refresh_model-platform :
    (d : Domain) (r q : ModelRef) (mc nc : DomainModel)
    → refresh_model d (r, mc) ≡ some (q, nc)
    → (r ≡ q) × (mc.platform ≡ nc.platform)
unfolding refresh_model
refresh_model-platform d r q mc nc h =
    let (ais, p, same) =
      on_some-some (map_some (link_all d r mc 0 d.charm_integrations) mc.application_integrations) _
        (q, nc) h in
    let linked : ModelRef × DomainModel = (r, with_links mc ais) in
    let pair : linked ≡ (q, nc) = cc in (ap (λ x. x.0) pair, ap (λ x. x.1.platform) pair)

models-HasPlatforms :
    (d : Domain) (ms ns : List (ModelRef × DomainModel))
    → map_some (refresh_model d) ms ≡ some ns
    → HasPlatforms ms ns
unfolding map_some get
models-HasPlatforms d [] ns h m = let same : [] ≡ ns = cc in rw (← same) refl
models-HasPlatforms d ((r, mc) ∷ ms) ns h m =
    let ((q, nc), p, h') = on_some-some (refresh_model d (r, mc)) _ ns h in
    let (rest, t, h'') = on_some-some (map_some (refresh_model d) ms) _ ns h' in
    let same : (q, nc) ∷ rest ≡ ns = cc in
    let (ref_same, platform) = refresh_model-platform d r q mc nc p in
    let ih = models-HasPlatforms d ms rest t m in
    rw (← same, ← ref_same)
      (elim (Bool-cases (same_model r m)) [
        | inl here ↦ rw (here, platform) refl
        | inr there ↦ rw there ih
      ])

pub refresh-kept :
    (d e : Domain)
    → refresh d ≡ some e
    → (e.charms ≡ d.charms)
      × ((e.charm_integrations ≡ d.charm_integrations)
          × ((m : ModelRef) → on_machine e m ≡ on_machine d m))
unfolding refresh
refresh-kept d e h =
    let (models, p, same) = on_some-some (map_some (refresh_model d) d.models) _ e h in
    let as_is : record {
      models = models;
      charms = d.charms;
      charm_integrations = d.charm_integrations;
    }
        ≡ e =
      cc in
    (
      sym (ap (λ x. x.charms) as_is),
      (
        sym (ap (λ x. x.charm_integrations) as_is),
        λ m. ap (λ x. on_machine x m) (sym as_is) ∙ sym (models-HasPlatforms d d.models models p m),
      ),
    )
