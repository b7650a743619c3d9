-- ===== src/BundleBuilder/Domain/Again.antt =====
-- domain.py: `pair_charms_in_domain` leaves nothing for a second call to do.
use charm_integration_testin.Prelude.{
  ℕ, ◌≡◌, refl, sym, ap, ◌∙◌, subst, inl, inr, Bool, true, false, some, map, ◌==◌, get_elem?,
  Bool-cases, In, fun_ext,
}
use charm_integration_testin.BundleBuilder.Domain.{DomainCharm, Domain}
use charm_integration_testin.BundleBuilder.Domain.Refresh.{refresh}
use charm_integration_testin.BundleBuilder.Domain.Kept.{on_some-some, refresh-kept}
use charm_integration_testin.BundleBuilder.Domain.Pairing.{
  IntegrationKey, is_existing, integration_key, on_machine, possible_key, Pairs, table,
  variable_name, refresh_if, pairs_of, unchanged_pairs, pair_charms_in_domain,
}
use charm_integration_testin.BundleBuilder.Domain.Keys.{
  create_all-Tracks, create_all-has, create_all-same, create_all-none,
}

-- What a call has done to the domain
refresh_if-kept :
    (d e : Domain) (s : Pairs) (created : Bool)
    → (s.created_any ≡ false → s.integrations ≡ d.charm_integrations)
    → refresh_if d s ≡ some (e, created)
    → (e.charms ≡ d.charms)
      × ((e.charm_integrations ≡ s.integrations) × (on_machine e ≡ on_machine d))
refresh_if-kept d e s created unchanged h = elim (Bool-cases s.created_any) [
  | inl p ↦
      let mid : Domain = record {
        models = d.models;
        charms = d.charms;
        charm_integrations = s.integrations;
      } in
      let (f, q, r) = on_some-some (refresh mid) _ (e, created) (rw p at h) in
      let same : f ≡ e = cc in
      let (charms, (integrations, machines)) = refresh-kept mid e (q ∙ ap some same) in
      (charms, (integrations, fun_ext machines))
  | inr p ↦
      let q = rw p at h in
      let same : d ≡ e = cc in
      (
        ap (λ x. x.charms) (sym same),
        (ap (λ x. x.charm_integrations) (sym same) ∙ sym (unchanged p), ap on_machine (sym same)),
      )
]

-- Where all candidates are there, no integration is created.
pairs_of_complete :
    (d : Domain) (a_id b_id : ℕ) (a b : DomainCharm)
    → ((k : IntegrationKey)
        → In (some k) (table (possible_key (on_machine d) a_id a b_id b) a.endpoints b.endpoints)
        → is_existing k (map integration_key d.charm_integrations) ≡ true)
    → refresh_if d (pairs_of d a_id a b_id b) ≡ some (d, false)
unfolding pairs_of
pairs_of_complete d a_id b_id a b h =
    let same =
      create_all-same (variable_name a_id b_id a b)
        (table (possible_key (on_machine d) a_id a b_id b) a.endpoints b.endpoints)
        (unchanged_pairs d) h in
    ap (refresh_if d) same

-- The candidates of the call are there behind it.
pairs_of-has :
    (d : Domain) (a_id b_id : ℕ) (a b : DomainCharm) (k : IntegrationKey)
    → In (some k) (table (possible_key (on_machine d) a_id a b_id b) a.endpoints b.endpoints)
    → is_existing k (map integration_key (pairs_of d a_id a b_id b).integrations) ≡ true
unfolding pairs_of
pairs_of-has d a_id b_id a b k i =
    let name = variable_name a_id b_id a b in
    let cs = table (possible_key (on_machine d) a_id a b_id b) a.endpoints b.endpoints in
    sym (create_all-Tracks name cs (unchanged_pairs d) (λ j. refl) k)
    ∙ create_all-has name k cs (unchanged_pairs d) i

pairs_of-unchanged :
    (d : Domain) (a_id b_id : ℕ) (a b : DomainCharm)
    → (pairs_of d a_id a b_id b).created_any ≡ false
    → (pairs_of d a_id a b_id b).integrations ≡ d.charm_integrations
unfolding pairs_of
pairs_of-unchanged d a_id b_id a b h =
    let (_, same) =
      create_all-none (variable_name a_id b_id a b)
        (table (possible_key (on_machine d) a_id a b_id b) a.endpoints b.endpoints)
        (unchanged_pairs d) h in
    ap (λ s. s.integrations) same

-- Behind a call a second one with the same charms finds every integration that they can have: it
-- creates none and leaves the domain as it is.
pub pair_charms_in_domain-again :
    (d e : Domain) (a_id b_id : ℕ) (created : Bool)
    → pair_charms_in_domain d a_id b_id ≡ some (e, created)
    → pair_charms_in_domain e a_id b_id ≡ some (e, false)
unfolding pair_charms_in_domain
pair_charms_in_domain-again d e a_id b_id created h = elim (Bool-cases (a_id == b_id)) [
  | inl p ↦ rw p refl
  | inr p ↦
      let (a, at_a, h') = on_some-some (get_elem? d.charms a_id) _ (e, created) (rw p at h) in
      let (b, at_b, h'') = on_some-some (get_elem? d.charms b_id) _ (e, created) h' in
      let (charms, (integrations, machines)) =
        refresh_if-kept d e (pairs_of d a_id a b_id b) created (pairs_of-unchanged d a_id b_id a b)
          h'' in
      let read_a : get_elem? e.charms a_id ≡ some a = ap (λ cs. get_elem? cs a_id) charms ∙ at_a in
      let read_b : get_elem? e.charms b_id ≡ some b = ap (λ cs. get_elem? cs b_id) charms ∙ at_b in
      rw (p, read_a, read_b)
        (pairs_of_complete e a_id b_id a b (λ k i.
          ap (λ is. is_existing k (map integration_key is)) integrations
          ∙ pairs_of-has d a_id b_id a b k (
              subst
                (λ m. In (some k) (table (possible_key m a_id a b_id b) a.endpoints b.endpoints))
                machines i)))
]
