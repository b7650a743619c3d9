-- ===== src/BundleBuilder/Dsl/Types/Decided.antt =====
-- constraints_dsl.py: each test of `_check_types` decides its typing rule.
use charm_integration_testin.Prelude.{
  Decides, Decides-and, Decides-or, Decides-iff, Decides-not, ℕ, ◌≡◌, refl, sym, ap, ◌∙◌, subst,
  ◌⊎◌, inl, inr, Bool, true, false, not, ◌&&◌, ◌||◌, List, ◌==◌, arith, if◌then◌else◌,
}
use charm_integration_testin.BundleBuilder.Dsl.Syntax.{
  DslType, int, bool, str, relation_set, charm_set, unit_set, set_str, set_int, runtime, pending,
  type_rank, type_eq, Func, len, bool_func, charms, features, reachable, cross_model, tracks, risks,
  channels, revisions, units, CompareOp, eq, ne, lt, le, gt, ge, Expr, endpoint, dsl_type,
}
use charm_integration_testin.BundleBuilder.Dsl.Types.{
  is_type, is_set_type, is_endpoint, accepts, both_int, comparable, contains_type,
}
use charm_integration_testin.BundleBuilder.Dsl.Types.Rules.{
  IsSetType, Takes, BothInt, Ordered, Equated, Compares, Contains,
}

of_rank : ℕ → DslType
of_rank n =
    if n == 0
    then int
    else if n == 1
    then bool
    else if n == 2
    then str
    else if n == 3
    then relation_set
    else if n == 4
    then charm_set
    else if n == 5
    then unit_set
    else if n == 6
    then set_str
    else if n == 7
    then set_int
    else if n == 8
    then runtime
    else pending

of_rank-type_rank : (t : DslType) → of_rank (type_rank t) ≡ t
unfolding of_rank
of_rank-type_rank int = refl
of_rank-type_rank bool = refl
of_rank-type_rank str = refl
of_rank-type_rank relation_set = refl
of_rank-type_rank charm_set = refl
of_rank-type_rank unit_set = refl
of_rank-type_rank set_str = refl
of_rank-type_rank set_int = refl
of_rank-type_rank runtime = refl
of_rank-type_rank pending = refl

pub Decides-type_eq : (s t : DslType) → Decides (type_eq s t) (s ≡ t)
Decides-type_eq s t = (
  λ p.
      let same : type_rank s ≡ type_rank t = ground arith in
      sym (of_rank-type_rank s) ∙ (ap of_rank same ∙ of_rank-type_rank t),
  λ q. let same : type_rank s ≡ type_rank t = ap type_rank q in ground arith,
)

Decides-is_endpoint : (e : Expr) → Decides (is_endpoint e) ((name : List ℕ) × (e ≡ endpoint name))
Decides-is_endpoint (endpoint name) = (λ p. (name, refl), λ q. refl)
Decides-is_endpoint e = (λ p. absurd (cc), λ (name, q). ap is_endpoint q)

pub Decides-accepts : (f : Func) (e : Expr) → Decides (accepts f e) (Takes f e)
unfolding accepts
Decides-accepts len e =
    Decides-or (is_type relation_set e) (is_type unit_set e)
      (Decides-type_eq (dsl_type e) relation_set) (Decides-type_eq (dsl_type e) unit_set)
Decides-accepts bool_func e = Decides-type_eq (dsl_type e) relation_set
Decides-accepts charms e = Decides-type_eq (dsl_type e) relation_set
Decides-accepts features e = Decides-type_eq (dsl_type e) relation_set
Decides-accepts reachable e = Decides-is_endpoint e
Decides-accepts cross_model e = Decides-type_eq (dsl_type e) relation_set
Decides-accepts tracks e = Decides-type_eq (dsl_type e) charm_set
Decides-accepts risks e = Decides-type_eq (dsl_type e) charm_set
Decides-accepts channels e = Decides-type_eq (dsl_type e) charm_set
Decides-accepts revisions e = Decides-type_eq (dsl_type e) charm_set
Decides-accepts units e = Decides-type_eq (dsl_type e) charm_set

pub Decides-both_int : (s t : DslType) → Decides (both_int s t) (BothInt s t)
Decides-both_int s t =
    Decides-and (type_eq s int) (type_eq t int) (Decides-type_eq s int) (Decides-type_eq t int)

pub Decides-is_set_type : (t : DslType) → Decides (is_set_type t) (IsSetType t)
Decides-is_set_type t = (λ p. p, λ p. p)

-- Sets of two types are refused first.
ordered_test :
    (u v e b : Bool)
    → (e ≡ true → u ≡ v)
    → (b ≡ true → e ≡ true)
    → (if (u && v) && not e then false else b || (u && v)) ≡ (b || (u && e))
ordered_test true true true b h k = refl
ordered_test true true false true h k = absurd (let q = k refl in cc)
ordered_test true true false false h k = refl
ordered_test true false true b h k = absurd (let q = h refl in cc)
ordered_test true false false b h k = refl
ordered_test false v e b h k = refl

Decides-ordered :
    (s t : DslType)
    → Decides
        (if (is_set_type s && is_set_type t) && not (type_eq s t)
          then false
          else both_int s t || (is_set_type s && is_set_type t))
        (Ordered s t)
Decides-ordered s t =
    let (f, g) = Decides-type_eq s t in
    rw
      (ordered_test (is_set_type s) (is_set_type t) (type_eq s t) (both_int s t)
        (λ e. ap is_set_type (f e)) (λ b. ground arith))
      (Decides-or (both_int s t) (is_set_type s && type_eq s t) (Decides-both_int s t)
        (Decides-and (is_set_type s) (type_eq s t) (Decides-is_set_type s) (Decides-type_eq s t)))

equated_test :
    (e a b u : Bool)
    → ((e || (a || b)) && not u) ≡ (if not e && (not a && not b) then false else not u)
equated_test true a b u = refl
equated_test false true b u = refl
equated_test false false true u = refl
equated_test false false false u = refl

Decides-equated :
    (s t : DslType)
    → Decides
        (if not (type_eq s t) && (not (type_eq s runtime) && not (type_eq t runtime))
          then false
          else not (type_eq s unit_set || type_eq t unit_set))
        (Equated s t)
Decides-equated s t =
    Decides-iff _ (λ r. (r.0, (λ q. r.1 (inl q), λ q. r.1 (inr q))))
      (λ (p, (m, n)). (p, λ r. elim r [ inl u ↦ m u | inr v ↦ n v ]))
      (subst
        (λ b.
          Decides b
            (((s ≡ t) ⊎ ((s ≡ runtime) ⊎ (t ≡ runtime))) × (¬ ((s ≡ unit_set) ⊎ (t ≡ unit_set)))))
        (equated_test (type_eq s t) (type_eq s runtime) (type_eq t runtime)
          (type_eq s unit_set || type_eq t unit_set))
        (Decides-and (type_eq s t || (type_eq s runtime || type_eq t runtime))
          (not (type_eq s unit_set || type_eq t unit_set))
          (Decides-or (type_eq s t) _ (Decides-type_eq s t) (
            Decides-or (type_eq s runtime) (type_eq t runtime) (Decides-type_eq s runtime)
              (Decides-type_eq t runtime)))
          (Decides-not (type_eq s unit_set || type_eq t unit_set) (
            Decides-or (type_eq s unit_set) (type_eq t unit_set) (Decides-type_eq s unit_set)
              (Decides-type_eq t unit_set)))))

pub Decides-comparable :
    (op : CompareOp) (s t : DslType) → Decides (comparable op s t) (Compares op s t)
unfolding comparable
Decides-comparable eq s t = Decides-equated s t
Decides-comparable ne s t = Decides-equated s t
Decides-comparable lt s t = Decides-both_int s t
Decides-comparable gt s t = Decides-both_int s t
Decides-comparable le s t = Decides-ordered s t
Decides-comparable ge s t = Decides-ordered s t

-- A collection of another type is refused at the end.
contains_test :
    (a b c x y : Bool)
    → (b ≡ true → c ≡ false)
    → (a || ((b && x) || (c && y))) ≡ (if a then true else if b then x else if c then y else false)
contains_test true b c x y h = refl
contains_test false true true x y h = absurd (let q = h refl in cc)
contains_test false true false true y h = refl
contains_test false true false false y h = refl
contains_test false false true x true h = refl
contains_test false false true x false h = refl
contains_test false false false x y h = refl

pub Decides-contains_type : (s t : DslType) → Decides (contains_type s t) (Contains s t)
unfolding contains_type
Decides-contains_type s t =
    subst (λ b. Decides b (Contains s t))
      (contains_test (type_eq s str && type_eq t str) (type_eq t set_int) (type_eq t set_str)
        (type_eq s int || type_eq s runtime) (type_eq s str || type_eq s runtime)
        (λ p. ground arith))
      (Decides-or (type_eq s str && type_eq t str) _
        (Decides-and (type_eq s str) (type_eq t str) (Decides-type_eq s str)
          (Decides-type_eq t str))
        (Decides-or (type_eq t set_int && (type_eq s int || type_eq s runtime)) _
          (collection set_int int) (collection set_str str)))
  where
    collection :
        (c e : DslType)
        → Decides
            (type_eq t c && (type_eq s e || type_eq s runtime))
            ((t ≡ c) × ((s ≡ e) ⊎ (s ≡ runtime)))
    collection c e = Decides-and (type_eq t c) _ (Decides-type_eq t c) (
        Decides-or (type_eq s e) (type_eq s runtime) (Decides-type_eq s e)
          (Decides-type_eq s runtime))
