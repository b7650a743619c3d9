-- ===== src/BundleBuilder/Domain/Sound.antt =====
-- domain.py: `pair_charms_in_domain` creates integrations that charms can have, each once.
use charm_integration_testin.Prelude.{
  ℕ, ◌≡◌, refl, sym, ap, ◌∙◌, subst, inl, inr, Bool, true, false, ◌&&◌, ◌||◌, Option, none, some,
  List, map, ◌==◌, String, str_eq, eq_iff, get_elem?, Bool-cases, In, All, fun_ext,
}
use charm_integration_testin.BundleBuilder.Domain.{
  ModelRef, same_model, same_text, EndpointType, peers, requires, provides, CharmEndpoint,
  DomainCharm, Domain,
}
use charm_integration_testin.BundleBuilder.Domain.Refresh.{refresh}
use charm_integration_testin.BundleBuilder.Domain.Kept.{on_some-some, refresh-kept}
use charm_integration_testin.BundleBuilder.Domain.Pairing.{
  IntegrationKey, integration_key, is_container, on_machine, may_contain, directed, possible_key,
  Pairs, table, variable_name, refresh_if, pairs_of, unchanged_pairs, pair_charms_in_domain,
}
use charm_integration_testin.BundleBuilder.Domain.Keys.{
  both, IsDistinct, create_all-IsDistinct, create_all-All, In-table,
}

-- The charm with the id has the endpoint, which is of the type.
abbrev pub IsEnd :
    List DomainCharm → EndpointType → ℕ × String → CharmEndpoint → DomainCharm → Type 0
IsEnd charms type (id, name) e c =
    (get_elem? charms id ≡ some c) × (In (name, e) c.endpoints × (e.type ≡ type))

-- Two charms have endpoints of one interface, the first requires it, the second provides it, and an
-- endpoint in the scope of a container joins only charms of one model on machines.
abbrev pub IsPossible :
    (charms : List DomainCharm) (machine : ModelRef → Bool) → IntegrationKey → Type 0
IsPossible charms machine (r, p) =
    (e : CharmEndpoint) × (c : DomainCharm) × (f : CharmEndpoint) × (b : DomainCharm) × IsEnd charms
      requires r e c
    × IsEnd charms provides p f b
    × (e.interface ≡ f.interface)
    × ((is_container e || is_container f) ≡ true
        → (c.model ≡ b.model) × ((machine c.model ≡ true) × (machine b.model ≡ true)))

-- Every integration is one that its charms can have, and none is there twice.
abbrev pub IsSound : Domain → Type 0
IsSound d =
    All (IsPossible d.charms (on_machine d)) (map integration_key d.charm_integrations)
    × IsDistinct (map integration_key d.charm_integrations)

same_text-≡ : (a b : Option String) → same_text a b ≡ true → a ≡ b
same_text-≡ none none h = refl
same_text-≡ (some a) (some b) h = ap some ((eq_iff a b).0 h)
same_text-≡ none (some b) h = absurd (cc)
same_text-≡ (some a) none h = absurd (cc)

same_model-≡ : (a b : ModelRef) → same_model a b ≡ true → a ≡ b
same_model-≡ a b h =
    let (p, q) = both (same_text a.name b.name) (same_text a.controller b.controller) h in
    ap (λ n. record { name = n; controller = a.controller }) (same_text-≡ a.name b.name p)
    ∙ ap (λ c. record { name = b.name; controller = c }) (same_text-≡ a.controller b.controller q)

may_contain_lem :
    (machine : ModelRef → Bool) (a b : ModelRef)
    → may_contain machine a b ≡ true
    → (a ≡ b) × ((machine a ≡ true) × (machine b ≡ true))
may_contain_lem machine a b h =
    let (p, q) = both (same_model a b) (machine a && machine b) h in
    (same_model-≡ a b p, both (machine a) (machine b) q)

or_comm : (x y : Bool) → (x || y) ≡ true → (y || x) ≡ true
or_comm true true h = refl
or_comm true false h = refl
or_comm false true h = refl
or_comm false false h = h

module _ (d : Domain) (a_id b_id : ℕ) (a b : DomainCharm) (at_a : get_elem? d.charms a_id ≡ some a)
    (at_b : get_elem? d.charms b_id ≡ some b) where
  directed-IsPossible :
      (x y : String) (e f : CharmEndpoint) (k : IntegrationKey)
      → In (x, e) a.endpoints
      → In (y, f) b.endpoints
      → e.interface ≡ f.interface
      → ((is_container e || is_container f) ≡ true
          → may_contain (on_machine d) a.model b.model ≡ true)
      → directed (a_id, x) (b_id, y) e.type f.type ≡ some k
      → IsPossible d.charms (on_machine d) k
  directed-IsPossible x y e f k in_a in_b same contained h = by_types e.type f.type refl refl h
    where
      by_types :
          (s t : EndpointType)
          → e.type ≡ s
          → f.type ≡ t
          → directed (a_id, x) (b_id, y) s t ≡ some k
          → IsPossible d.charms (on_machine d) k
      by_types requires provides p q eq =
          let at : ((a_id, x), (b_id, y)) ≡ k = cc in
          subst (IsPossible d.charms (on_machine d)) at (
            e,
            a,
            f,
            b,
            (at_a, (in_a, p)),
            (at_b, (in_b, q)),
            same,
            λ c. may_contain_lem (on_machine d) a.model b.model (contained c),
          )
      by_types provides requires p q eq =
          let at : ((b_id, y), (a_id, x)) ≡ k = cc in
          subst (IsPossible d.charms (on_machine d)) at (
            f,
            b,
            e,
            a,
            (at_b, (in_b, q)),
            (at_a, (in_a, p)),
            sym same,
            λ c.
                let (m, (u, v)) =
                  may_contain_lem (on_machine d) a.model b.model
                    (contained (or_comm (is_container f) (is_container e) c)) in
                (sym m, (v, u)),
          )
      by_types peers t p q eq = absurd (cc)
      by_types requires peers p q eq = absurd (cc)
      by_types requires requires p q eq = absurd (cc)
      by_types provides peers p q eq = absurd (cc)
      by_types provides provides p q eq = absurd (cc)

  possible_key-IsPossible :
      (ea eb : String × CharmEndpoint) (k : IntegrationKey)
      → In ea a.endpoints
      → In eb b.endpoints
      → possible_key (on_machine d) a_id a b_id b ea eb ≡ some k
      → IsPossible d.charms (on_machine d) k
  unfolding possible_key
  possible_key-IsPossible (x, e) (y, f) k in_a in_b h =
      elim (Bool-cases (str_eq e.interface f.interface)) [
        | inr p ↦ absurd (let q = rw p at h in cc)
        | inl p ↦ elim (Bool-cases (is_container e || is_container f)) [
          | inr c ↦
              directed-IsPossible x y e f k in_a in_b ((eq_iff e.interface f.interface).0 p)
                (λ r. absurd (cc)) (rw (p, c) at h)
          | inl c ↦ elim (Bool-cases (may_contain (on_machine d) a.model b.model)) [
            | inr m ↦ absurd (let q = rw (p, c, m) at h in cc)
            | inl m ↦
                directed-IsPossible x y e f k in_a in_b ((eq_iff e.interface f.interface).0 p)
                  (λ r. m) (rw (p, c, m) at h)
          ]
        ]
      ]

  pub pairs_of-IsSound :
      IsSound d
      → let s = pairs_of d a_id a b_id b in
        All (IsPossible d.charms (on_machine d)) (map integration_key s.integrations)
        × IsDistinct (map integration_key s.integrations)
  unfolding pairs_of
  pairs_of-IsSound (possible, distinct) =
      let name = variable_name a_id b_id a b in
      let cs = table (possible_key (on_machine d) a_id a b_id b) a.endpoints b.endpoints in
      (
        create_all-All name (IsPossible d.charms (on_machine d)) cs (unchanged_pairs d) possible
            (λ k i.
              let (ea, eb, in_a, in_b, e) =
                In-table (possible_key (on_machine d) a_id a b_id b) a.endpoints b.endpoints
                  (some k) i in
              possible_key-IsPossible ea eb k in_a in_b (sym e)),
        create_all-IsDistinct name cs (unchanged_pairs d) (λ j. refl) distinct,
      )

-- The machines are the same ones.
IsPossible-kept :
    (charms : List DomainCharm) (m n : ModelRef → Bool)
    → ((r : ModelRef) → m r ≡ n r)
    → (ks : List IntegrationKey) → All (IsPossible charms m) ks
    → All (IsPossible charms n) ks
IsPossible-kept charms m n same ks h = subst (λ f. All (IsPossible charms f) ks) (fun_ext same) h

refresh-IsSound : (d e : Domain) → refresh d ≡ some e → IsSound d → IsSound e
refresh-IsSound d e h (possible, distinct) =
    let (charms, (integrations, machines)) = refresh-kept d e h in
    (
      subst (λ c. All (IsPossible c (on_machine e)) (map integration_key e.charm_integrations))
          (sym charms)
          (subst (λ is. All (IsPossible d.charms (on_machine e)) (map integration_key is))
            (sym integrations)
            (IsPossible-kept d.charms (on_machine d) (on_machine e) (λ r. sym (machines r))
              (map integration_key d.charm_integrations) possible)),
      subst (λ is. IsDistinct (map integration_key is)) (sym integrations) distinct,
    )

refresh_if-IsSound :
    (d e : Domain) (s : Pairs) (created : Bool)
    → IsSound d
    → All (IsPossible d.charms (on_machine d)) (map integration_key s.integrations)
      × IsDistinct (map integration_key s.integrations)
    → refresh_if d s ≡ some (e, created)
    → IsSound e
refresh_if-IsSound d e s created sound paired h = elim (Bool-cases s.created_any) [
  | inl p ↦
      let mid : Domain = record {
        models = d.models;
        charms = d.charms;
        charm_integrations = s.integrations;
      } in
      let (f, q, r) = on_some-some (refresh mid) _ (e, created) (rw p at h) in
      let same : f ≡ e = cc in subst IsSound same (refresh-IsSound mid f q paired)
  | inr p ↦ let q = rw p at h in let same : d ≡ e = cc in subst IsSound same sound
]

-- Whatever charms are paired, a sound domain stays one: each integration joins an endpoint that
-- requires an interface to one that provides it, across the scope of a container only between charms
-- of one model on machines, and no integration is there twice.
pub pair_charms_in_domain-IsSound :
    (d e : Domain) (a_id b_id : ℕ) (created : Bool)
    → IsSound d
    → pair_charms_in_domain d a_id b_id ≡ some (e, created)
    → IsSound e
unfolding pair_charms_in_domain
pair_charms_in_domain-IsSound d e a_id b_id created sound h = elim (Bool-cases (a_id == b_id)) [
  | inl p ↦ let q = rw p at h in let same : d ≡ e = cc in subst IsSound same sound
  | inr p ↦
      let (a, at_a, h') = on_some-some (get_elem? d.charms a_id) _ (e, created) (rw p at h) in
      let (b, at_b, h'') = on_some-some (get_elem? d.charms b_id) _ (e, created) h' in
      refresh_if-IsSound d e (pairs_of d a_id a b_id b) created sound
        (pairs_of-IsSound d a_id b_id a b at_a at_b sound) h''
]
