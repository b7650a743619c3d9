-- ===== src/BundleBuilder/Dsl/Types.antt =====
-- constraints_dsl.py: `_check_types` and `parse_constraint`.
pub mod Rules
pub mod Decided
pub mod Rewritten
pub mod Checked
use charm_integration_testin.Prelude.{
  ℕ, Bool, true, false, not, ◌&&◌, ◌||◌, List, [], ◌∷◌, ◌==◌, if◌then◌else◌, Result, ok, raise,
  ◌>>=◌,
}
use charm_integration_testin.BundleBuilder.Dsl.Syntax.{
  DslError, type_error, DslType, int, bool, str, relation_set, charm_set, unit_set, set_str,
  set_int, runtime, type_eq, Func, len, bool_func, charms, features, reachable, cross_model, tracks,
  risks, channels, revisions, units, ArithOp, minus, CompareOp, eq, ne, lt, le, gt, ge, SetOp, Expr,
  int_lit, str_lit, int_set, str_set, self_set, endpoint, config, set_config, resource,
  set_resource, call, arith_op, compare_op, set_op, in_set, not_op, and_op, or_op, implies_op,
  dsl_type,
}
use charm_integration_testin.BundleBuilder.Dsl.Token.{tokenize}
use charm_integration_testin.BundleBuilder.Dsl.Parser.{parse}

abbrev pub is_type : DslType → Expr → Bool
is_type t e = type_eq (dsl_type e) t

-- `_SET_TYPES`
abbrev pub is_set_type : DslType → Bool
is_set_type relation_set = true
is_set_type charm_set = true
is_set_type set_str = true
is_set_type set_int = true
is_set_type _ = false

abbrev pub is_endpoint : Expr → Bool
is_endpoint (endpoint name) = true
is_endpoint _ = false

-- The arguments that a call accepts.
unfoldable pub accepts : Func → Expr → Bool
accepts len e = is_type relation_set e || is_type unit_set e
accepts bool_func e = is_type relation_set e
accepts charms e = is_type relation_set e
accepts features e = is_type relation_set e
accepts reachable e = is_endpoint e
accepts cross_model e = is_type relation_set e
accepts tracks e = is_type charm_set e
accepts risks e = is_type charm_set e
accepts channels e = is_type charm_set e
accepts revisions e = is_type charm_set e
accepts units e = is_type charm_set e

abbrev pub both_int : DslType → DslType → Bool
both_int a b = type_eq a int && type_eq b int

-- `<` and `>`, then `<=` and `>=`, then `==` and `!=`
unfoldable pub comparable : CompareOp → DslType → DslType → Bool
comparable lt a b = both_int a b
comparable gt a b = both_int a b
comparable le a b =
    if (is_set_type a && is_set_type b) && not (type_eq a b)
    then false
    else both_int a b || (is_set_type a && is_set_type b)
comparable ge a b =
    if (is_set_type a && is_set_type b) && not (type_eq a b)
    then false
    else both_int a b || (is_set_type a && is_set_type b)
comparable eq a b =
    if not (type_eq a b) && (not (type_eq a runtime) && not (type_eq b runtime))
    then false
    else not (type_eq a unit_set || type_eq b unit_set)
comparable ne a b =
    if not (type_eq a b) && (not (type_eq a runtime) && not (type_eq b runtime))
    then false
    else not (type_eq a unit_set || type_eq b unit_set)

-- The types of an element and a collection that `in` accepts.
unfoldable pub contains_type : DslType → DslType → Bool
contains_type e c =
    if type_eq e str && type_eq c str
    then true
    else if type_eq c set_int
    then type_eq e int || type_eq e runtime
    else if type_eq c set_str
    then type_eq e str || type_eq e runtime
    else false

abbrev pub guard : Bool → Expr → Result DslError Expr
guard true e = ok e
guard false e = raise type_error

-- Two Int operands make a subtraction, whatever the operator.
unfoldable pub check_set_op : SetOp → Expr → Expr → Result DslError Expr
check_set_op op a b =
    let s = dsl_type a in
    let t = dsl_type b in
    if both_int s t
    then ok (arith_op minus a b)
    else guard ((is_set_type s && is_set_type t) && type_eq s t) (set_op op s a b)

-- `_check_types`
unfoldable pub check_types : Expr → Result DslError Expr
unfolding accepts comparable contains_type check_set_op
check_types (call f a) = check_types a >>= λ a'. guard (accepts f a') (call f a')
check_types (arith_op op a b) = check_types a >>= λ a'.
    check_types b >>= λ b'. guard (is_type int a' && is_type int b') (arith_op op a' b')
check_types (compare_op op a b) = check_types a >>= λ a'.
    check_types b >>= λ b'. guard (comparable op (dsl_type a') (dsl_type b')) (compare_op op a' b')
check_types (set_op op t a b) =
    check_types a >>= λ a'. check_types b >>= λ b'. check_set_op op a' b'
check_types (in_set negated a b) = check_types a >>= λ a'.
    check_types b >>= λ b'. guard (contains_type (dsl_type a') (dsl_type b')) (in_set negated a' b')
check_types (not_op a) =
    check_types a >>= λ a'. guard (is_type bool a' || is_type runtime a') (not_op a')
check_types (and_op a b) = check_types a >>= λ a'.
    check_types b >>= λ b'. guard (is_type bool a' && is_type bool b') (and_op a' b')
check_types (or_op a b) = check_types a >>= λ a'.
    check_types b >>= λ b'. guard (is_type bool a' && is_type bool b') (or_op a' b')
check_types (implies_op a b) = check_types a >>= λ a'.
    check_types b >>= λ b'. guard (is_type bool a' && is_type bool b') (implies_op a' b')
check_types e = ok e

-- `parse_constraint`
unfoldable pub parse_constraint : List ℕ → Result DslError Expr
unfolding tokenize parse check_types
parse_constraint text = tokenize text >>= λ tokens. parse tokens >>= λ tree. check_types tree
