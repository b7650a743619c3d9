-- ===== src/Kubernetes/Limit/Server.antt =====
-- kubernetes_client/resource_limit.py: a clean-up that raises nothing has restored the container.
use charm_integration_testin.Prelude.{
  ℕ, zero, suc, ◌+◌, ◌≡◌, refl, sym, ap, subst, ◌∙◌, inl, inr, some, List, [], ◌∷◌, if◌then◌else◌,
  String, str_eq, eq_iff, Result, ok, raise, ◌>>=◌, Bool-cases, >>=-passes, arith,
}
use charm_integration_testin.Kubernetes.Limit.{
  Resources, Container, StatefulSet, Patch, replaced, api_error, find_resources, restore,
}
use charm_integration_testin.Kubernetes.Limit.Flow.{
  Step, Api, of_api, failing_step, and_then, on_ok, read, put_back_at, clean_up,
}
use charm_integration_testin.Kubernetes.Limit.Values.{Restores, restore-Restores}

-- The containers when the one at the index has new resources.
abbrev pub put_resources : List Container → ℕ → Resources → List Container
put_resources [] i r = []
put_resources (c ∷ cs) zero r = record { name = c.name; resources = some r } ∷ cs
put_resources (c ∷ cs) (suc i) r = c ∷ put_resources cs i r

find_resources-put :
    {E : Type 0} (name : String) (r now : Resources) (cs : List Container) (k i : ℕ)
    → find_resources {E = E} k name cs ≡ ok (i, now)
    → (j : ℕ) × ((i ≡ k + j) × (find_resources {E = E} k name (put_resources cs j r) ≡ ok (i, r)))
unfolding find_resources
find_resources-put name r now [] k i h = absurd (cc)
find_resources-put name r now (c ∷ cs) k i h = elim (Bool-cases (str_eq c.name name)) [
  | inl p ↦ let q = rw p at h in let same : i ≡ k = cc in (0, (omega arith, rw (p, same) refl))
  | inr p ↦
      let (j, (same, found)) = find_resources-put name r now cs (suc k) i (rw p at h) in
      (suc j, (omega arith, rw p found))
]

failing_step-ok :
    {W E : Type 0} (step : W × Result E Unit) (v : W)
    → failing_step step ≡ (v, ok tt)
    → step ≡ (v, ok tt)
failing_step-ok (w, ok u) v h = let same : w ≡ v = cc in ap (λ x. (x, ok tt)) same
failing_step-ok (w, raise e) v h =
    absurd (let q : raise (api_error e) ≡ ok tt = ap (λ x. x.1) h in cc)

and_then-ok :
    {W E : Type 0} (step : W × Result E Unit) (next : Step W E) (v : W)
    → and_then step next ≡ (v, ok tt)
    → (x : W) × (step ≡ (x, ok tt)) × (next x ≡ (v, ok tt))
and_then-ok (w, ok u) next v h = (w, refl, h)
and_then-ok (w, raise e) next v h = absurd (let q : raise e ≡ ok tt = ap (λ x. x.1) h in cc)

on_ok-ok :
    {W E A : Type 0} (w v : W) (r : Result E A) (next : A → W × Result E Unit)
    → on_ok w r next ≡ (v, ok tt)
    → (a : A) × (r ≡ ok a) × (next a ≡ (v, ok tt))
on_ok-ok w v (ok a) next h = (a, refl, h)
on_ok-ok w v (raise e) next h = absurd (let q : raise e ≡ ok tt = ap (λ x. x.1) h in cc)

module _ {W E : Type 0} (api : Api W E) where
  -- A patch that the server accepts. While the call lasts, the world may go on by itself from `w` to `m`,
  -- where both tests of the patch hold and the container has the new resources at once, and on to `v`.
  abbrev pub IsAccepted : (Drifts : W → W → Type 0) → Patch → W → W → Type 0
  IsAccepted Drifts p w v =
      (m : W) × (n : W) × (s : StatefulSet) × (t : StatefulSet) × (Drifts w m × Drifts n v)
      × ((api.read_stateful_set m ≡ ok s) × (api.read_stateful_set n ≡ ok t))
      × ((s.uid ≡ p.uid) × (s.resource_version ≡ p.resource_version))
      × (t.containers ≡ put_resources s.containers p.index p.updated)

  -- The server answers a patch only when it has accepted it, and an object that drifts keeps its
  -- containers for as long as it keeps its identity and version.
  abbrev pub IsServer : (Drifts : W → W → Type 0) → Type 0
  IsServer Drifts =
      ((p : Patch) (w v : W) → api.patch_template p w ≡ (v, ok tt) → IsAccepted Drifts p w v)
      × ((w m : W) (s t : StatefulSet)
          → Drifts w m
          → api.read_stateful_set w ≡ ok s
          → api.read_stateful_set m ≡ ok t
          → s.uid ≡ t.uid
          → s.resource_version ≡ t.resource_version
          → s.containers ≡ t.containers)

  module _ (Drifts : W → W → Type 0) (server : IsServer Drifts) (parse_quantity : String → ℕ)
      (uid container key : String) where
    -- From `u` on, the patch is accepted at a moment when the container has the resources `now`. It
    -- gives the container what was saved beside them, and nothing else of the containers changes. The
    -- wait for the restart of the pods ends at `v`.
    abbrev pub IsRestored : (before : Resources) (u v : W) → Type 0
    IsRestored before u v =
        (m : W) × (n : W) × (s : StatefulSet) × (t : StatefulSet) × (index : ℕ) × (now : Resources)
        × (restored : Resources) × (x : W) × ((Drifts u m × (api.read_stateful_set m ≡ ok s))
            × (s.uid ≡ uid))
        × (find_resources {E = E} 0 container s.containers ≡ ok (index, now))
        × (api.read_stateful_set n ≡ ok t)
        × (find_resources {E = E} 0 container t.containers ≡ ok (index, restored))
        × (Restores key before now restored
            × (t.containers ≡ put_resources s.containers index restored))
        × (Drifts n x × (api.wait_for_restart x ≡ (v, ok tt)))

    read-ok :
        (w : W) (s : StatefulSet)
        → read api parse_quantity uid container w ≡ ok s
        → (api.read_stateful_set w ≡ ok s) × (s.uid ≡ uid)
    unfolding read
    read-ok w s h = answered (api.read_stateful_set w) h
      where
        answered :
            (r : Result E StatefulSet)
            → (of_api r >>= λ a. if str_eq a.uid uid then ok a else raise replaced) ≡ ok s
            → (r ≡ ok s) × (s.uid ≡ uid)
        answered (raise e) k = absurd (cc)
        answered (ok a) k = elim (Bool-cases (str_eq a.uid uid)) [
          | inl p ↦
              let q = rw p at k in
              let same : a ≡ s = cc in
              (ap ok same, subst (λ b. b.uid ≡ uid) same ((eq_iff a.uid uid).0 p))
          | inr p ↦ let q = rw p at k in absurd (cc)
        ]

    put_back_at-ok :
        (before limited : Resources) (w : W) (current : StatefulSet) (index : ℕ)
        (updated : Resources)
        → put_back_at api parse_quantity uid container key before limited w
          ≡ ok (current, (index, updated))
        → (now : Resources) × ((api.read_stateful_set w ≡ ok current) × (current.uid ≡ uid))
          × (find_resources {E = E} 0 container current.containers ≡ ok (index, now))
          × Restores key before now updated
    unfolding put_back_at
    put_back_at-ok before limited w current index updated h =
        let (a, p, h') = >>=-passes (read api parse_quantity uid container w) _ h in
        let ((i, now), q, h'') = >>=-passes (find_resources 0 container a.containers) _ h' in
        let (r, u, h''') = >>=-passes (restore parse_quantity key before limited now) _ h'' in
        let same : a ≡ current = cc in
        let index_same : i ≡ index = cc in
        let updated_same : r ≡ updated = cc in
        (
          now,
          read-ok w current (p ∙ ap ok same),
          (ap (λ b. find_resources {E = E} 0 container b.containers) (sym same) ∙ q)
              ∙ ap (λ j. ok (j, now)) index_same,
          restore-Restores parse_quantity key before limited now updated (u ∙ ap ok updated_same),
        )

    -- A clean-up that raises nothing has restored the container.
    pub clean_up-IsRestored :
        (before limited : Resources) (u v : W)
        → clean_up api parse_quantity uid container key before limited u ≡ (v, ok tt)
        → IsRestored before u v
    unfolding clean_up
    clean_up-IsRestored before limited u v h =
        let ((current, (index, updated)), p, h') =
          on_ok-ok u v (put_back_at api parse_quantity uid container key before limited u) _ h in
        let (now, (read_u, identity), found, restores) =
          put_back_at-ok before limited u current index updated p in
        let change : Patch = record {
          uid = uid;
          resource_version = current.resource_version;
          index = index;
          updated = updated;
        } in
        let (x, patched, waited) =
          and_then-ok (failing_step (api.patch_template change u)) _ v h' in
        let (m, n, s, t, (to_m, to_x), (read_m, read_n), (same_uid, same_version), put) =
          server.0 change u x (failing_step-ok (api.patch_template change u) x patched) in
        let unchanged =
          server.1 u m current s to_m read_u read_m (identity ∙ sym same_uid) (sym same_version) in
        let found_m = ap (find_resources {E = E} 0 container) (sym unchanged) ∙ found in
        let (j, (index_j, found_n)) =
          find_resources-put container updated now s.containers 0 index found_m in
        let same_index : index ≡ j = omega arith in
        let put_j = put ∙ ap (λ k. put_resources s.containers k updated) same_index in
        (
          m,
          n,
          s,
          t,
          index,
          now,
          updated,
          x,
          ((to_m, read_m), same_uid),
          found_m,
          read_n,
          ap (find_resources {E = E} 0 container) put_j ∙ found_n,
          (restores, put),
          (to_x, failing_step-ok (api.wait_for_restart x) v waited),
        )
