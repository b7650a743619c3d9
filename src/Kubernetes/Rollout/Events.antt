-- ===== src/Kubernetes/Rollout/Events.antt =====
-- kubernetes_client/client.py: what the loop over the events of a watch finds.
use charm_integration_testin.Prelude.{
  ℕ, ◌≤◌, ◌<◌, ◌≡◌, ◌⊎◌, ◌∙◌, refl, sym, ap, subst, inl, inr, Option, none, some, List, [], ◌∷◌,
  ◌++◌, ltb, arith, In, Bool-cases,
}
use charm_integration_testin.Kubernetes.Rollout.{
  WatchEvent, or_number, total, Scan, returns, continues, incomparable, is_ready,
  compare_generations, is_rolled_out, or_continue, any_rolled_out,
}

-- The controller has seen the generation, and all pods are updated and ready.
abbrev pub IsRolledOut : Option ℕ → WatchEvent → Type 0
IsRolledOut target e =
    (t : ℕ) × (o : ℕ) × (target ≡ some t)
    × (e.observed_generation ≡ some o)
    × (t ≤ o)
    × (total e ≤ or_number 0 e.updated_replicas)
    × (total e ≤ or_number 0 e.ready_replicas)

-- One of the two generations is None.
abbrev pub IsIncomparable : Option ℕ → WatchEvent → Type 0
IsIncomparable target e = (e.observed_generation ≡ none) ⊎ (target ≡ none)

-- The loop goes on behind each of the events.
abbrev pub ArePassed : Option ℕ → List WatchEvent → Type 0
ArePassed target events =
    (e : WatchEvent) → In e events → (¬ IsRolledOut target e) × (¬ IsIncomparable target e)

-- The first event that is not passed shows the end of the rollout.
abbrev pub IsSeen : Option ℕ → List WatchEvent → Type 0
IsSeen target events =
    (before : List WatchEvent) × (e : WatchEvent) × (after : List WatchEvent) × (events
      ≡ before ++ e ∷ after)
    × ArePassed target before
    × IsRolledOut target e

-- The first event that is not passed cannot be compared.
abbrev pub IsUnreadable : Option ℕ → List WatchEvent → Type 0
IsUnreadable target events =
    (before : List WatchEvent) × (e : WatchEvent) × (after : List WatchEvent) × (events
      ≡ before ++ e ∷ after)
    × ArePassed target before
    × IsIncomparable target e

abbrev Shows : Option ℕ → WatchEvent → Scan → Type 0
Shows target e returns = IsRolledOut target e
Shows target e incomparable = IsIncomparable target e
Shows target e continues = (¬ IsRolledOut target e) × (¬ IsIncomparable target e)

comparable :
    (o t : ℕ) (e : WatchEvent) → e.observed_generation ≡ some o → ¬ IsIncomparable (some t) e
comparable o t e p (inl a) = let a' : some o ≡ none = sym p ∙ a in absurd (cc)
comparable o t e p (inr a) = absurd (cc)

is_older :
    (o t : ℕ) (e : WatchEvent) → e.observed_generation ≡ some o → o < t → ¬ IsRolledOut (some t) e
is_older o t e p less (t', o', a, b, le, u, v) =
    let b' : some o ≡ some o' = sym p ∙ b in
    let same : t ≡ t' = cc in let same' : o ≡ o' = cc in omega arith

compare_generations-Shows :
    (observed target : Option ℕ) (e : WatchEvent)
    → e.observed_generation ≡ observed
    → Shows target e (compare_generations observed target (is_ready e))
compare_generations-Shows none target e p = inl p
compare_generations-Shows (some o) none e p = inr refl
compare_generations-Shows (some o) (some t) e p = elim (Bool-cases (ltb o t)) [
  | inl q ↦ rw q (is_older o t e p (ground arith), comparable o t e p)
  | inr q ↦ elim (Bool-cases (is_ready e)) [
    | inl r ↦ rw (q, r) (t, o, refl, p, ground arith, ground arith, ground arith)
    | inr r ↦ rw (q, r) (λ (t', o', a, b, le, u, v). ground arith, comparable o t e p)
  ]
]

is_rolled_out-Shows : (target : Option ℕ) (e : WatchEvent) → Shows target e (is_rolled_out target e)
is_rolled_out-Shows target e = compare_generations-Shows e.observed_generation target e refl

abbrev pub Reads : Option ℕ → List WatchEvent → Scan → Type 0
Reads target events returns = IsSeen target events
Reads target events incomparable = IsUnreadable target events
Reads target events continues = ArePassed target events

one_more :
    (target : Option ℕ) (e : WatchEvent) (es : List WatchEvent)
    → Shows target e continues
    → ArePassed target es
    → ArePassed target (e ∷ es)
one_more target e es h k x (inl same) = subst (λ y. Shows target y continues) (sym same) h
one_more target e es h k x (inr m) = k x m

later :
    (target : Option ℕ) (e : WatchEvent) (es : List WatchEvent) (rest : Scan)
    → Shows target e continues
    → Reads target es rest
    → Reads target (e ∷ es) rest
later target e es returns h (before, x, after, eq, passed, r) =
    (e ∷ before, x, after, ap (λ l. e ∷ l) eq, one_more target e before h passed, r)
later target e es incomparable h (before, x, after, eq, passed, r) =
    (e ∷ before, x, after, ap (λ l. e ∷ l) eq, one_more target e before h passed, r)
later target e es continues h k = one_more target e es h k

or_continue-Reads :
    (target : Option ℕ) (e : WatchEvent) (es : List WatchEvent) (here rest : Scan)
    → Shows target e here
    → Reads target es rest
    → Reads target (e ∷ es) (or_continue here rest)
or_continue-Reads target e es returns rest h k = ([], e, es, refl, λ x m. absurd m, h)
or_continue-Reads target e es incomparable rest h k = ([], e, es, refl, λ x m. absurd m, h)
or_continue-Reads target e es continues rest h k = later target e es rest h k

pub any_rolled_out-Reads :
    (target : Option ℕ) (es : List WatchEvent) → Reads target es (any_rolled_out target es)
unfolding any_rolled_out
any_rolled_out-Reads target [] = λ x m. absurd m
any_rolled_out-Reads target (e ∷ es) =
    or_continue-Reads target e es _ _ (is_rolled_out-Shows target e)
      (any_rolled_out-Reads target es)
