-- ===== src/BundleBuilder/Dsl/Types/Rules.antt =====
-- constraints_dsl.py: the typing rules, stated apart from the checker.
use charm_integration_testin.Prelude.{◌≡◌, ◌≢◌, ◌⊎◌, true, List, ℕ, if◌then◌else◌}
use charm_integration_testin.BundleBuilder.Dsl.Syntax.{
  DslType, int, bool, str, relation_set, charm_set, unit_set, set_str, set_int, runtime, Func, len,
  bool_func, charms, features, reachable, cross_model, tracks, risks, channels, revisions, units,
  minus, CompareOp, eq, ne, lt, le, gt, ge, Expr, endpoint, call, arith_op, compare_op, set_op,
  in_set, not_op, and_op, or_op, implies_op, dsl_type, SetOp, diff,
}
use charm_integration_testin.BundleBuilder.Dsl.Types.{is_set_type, both_int}

abbrev pub HasType : Expr → DslType → Type 0
HasType e t = dsl_type e ≡ t

abbrev pub IsSetType : DslType → Type 0
IsSetType t = is_set_type t ≡ true

-- The argument of each call.
abbrev pub Takes : Func → Expr → Type 0
Takes len e = HasType e relation_set ⊎ HasType e unit_set
Takes bool_func e = HasType e relation_set
Takes charms e = HasType e relation_set
Takes features e = HasType e relation_set
Takes reachable e = (name : List ℕ) × (e ≡ endpoint name)
Takes cross_model e = HasType e relation_set
Takes tracks e = HasType e charm_set
Takes risks e = HasType e charm_set
Takes channels e = HasType e charm_set
Takes revisions e = HasType e charm_set
Takes units e = HasType e charm_set

abbrev pub BothInt : DslType → DslType → Type 0
BothInt s t = (s ≡ int) × (t ≡ int)

-- Two sets of the same type, or two integers.
abbrev pub Ordered : DslType → DslType → Type 0
Ordered s t = BothInt s t ⊎ (IsSetType s × (s ≡ t))

-- The same type, or a value known when the bundle is deployed; units are not compared.
abbrev pub Equated : DslType → DslType → Type 0
Equated s t = ((s ≡ t) ⊎ ((s ≡ runtime) ⊎ (t ≡ runtime))) × ((s ≢ unit_set) × (t ≢ unit_set))

abbrev pub Compares : CompareOp → DslType → DslType → Type 0
Compares eq = Equated
Compares ne = Equated
Compares lt = BothInt
Compares gt = BothInt
Compares le = Ordered
Compares ge = Ordered

-- The element and the collection of `in`.
abbrev pub Contains : DslType → DslType → Type 0
Contains s t =
    ((s ≡ str) × (t ≡ str))
    ⊎ (((t ≡ set_int) × ((s ≡ int) ⊎ (s ≡ runtime)))
        ⊎ ((t ≡ set_str) × ((s ≡ str) ⊎ (s ≡ runtime))))

-- Each node of the tree keeps its rule; a set operator carries the type of both its operands.
abbrev pub IsTyped : Expr → Type 0
IsTyped (call f a) = IsTyped a × Takes f a
IsTyped (arith_op op a b) = IsTyped a × (IsTyped b × BothInt (dsl_type a) (dsl_type b))
IsTyped (compare_op op a b) = IsTyped a × (IsTyped b × Compares op (dsl_type a) (dsl_type b))
IsTyped (set_op op t a b) = IsTyped a × (IsTyped b × (IsSetType t × (HasType a t × HasType b t)))
IsTyped (in_set negated a b) = IsTyped a × (IsTyped b × Contains (dsl_type a) (dsl_type b))
IsTyped (not_op a) = IsTyped a × (HasType a bool ⊎ HasType a runtime)
IsTyped (and_op a b) = IsTyped a × (IsTyped b × (HasType a bool × HasType b bool))
IsTyped (or_op a b) = IsTyped a × (IsTyped b × (HasType a bool × HasType b bool))
IsTyped (implies_op a b) = IsTyped a × (IsTyped b × (HasType a bool × HasType b bool))
IsTyped _ = Unit

-- A minus sign between two integers is a subtraction. Any other set operator gets its type.
abbrev pub resolved : SetOp → Expr → Expr → Expr
resolved diff a b =
    if both_int (dsl_type a) (dsl_type b) then arith_op minus a b else set_op diff (dsl_type a) a b
resolved op a b = set_op op (dsl_type a) a b

-- The tree with the type of each set operator filled in.
unfoldable pub resolve : Expr → Expr
resolve (call f a) = call f (resolve a)
resolve (arith_op op a b) = arith_op op (resolve a) (resolve b)
resolve (compare_op op a b) = compare_op op (resolve a) (resolve b)
resolve (set_op op t a b) = resolved op (resolve a) (resolve b)
resolve (in_set negated a b) = in_set negated (resolve a) (resolve b)
resolve (not_op a) = not_op (resolve a)
resolve (and_op a b) = and_op (resolve a) (resolve b)
resolve (or_op a b) = or_op (resolve a) (resolve b)
resolve (implies_op a b) = implies_op (resolve a) (resolve b)
resolve e = e

-- No `&` and no `|` stands between two integers.
unfoldable pub IsDocumented : Expr → Type 0
unfolding resolve
IsDocumented (call f a) = IsDocumented a
IsDocumented (arith_op op a b) = IsDocumented a × IsDocumented b
IsDocumented (compare_op op a b) = IsDocumented a × IsDocumented b
IsDocumented (set_op op t a b) =
    IsDocumented a
    × (IsDocumented b × ((op ≡ diff) ⊎ (¬ BothInt (dsl_type (resolve a)) (dsl_type (resolve b)))))
IsDocumented (in_set negated a b) = IsDocumented a × IsDocumented b
IsDocumented (not_op a) = IsDocumented a
IsDocumented (and_op a b) = IsDocumented a × IsDocumented b
IsDocumented (or_op a b) = IsDocumented a × IsDocumented b
IsDocumented (implies_op a b) = IsDocumented a × IsDocumented b
IsDocumented _ = Unit
