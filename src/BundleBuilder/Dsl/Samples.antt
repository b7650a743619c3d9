-- ===== src/BundleBuilder/Dsl/Samples.antt =====
-- Constraints as they are written: tests of the tokens, the trees and the types.
use charm_integration_testin.Prelude.{
  ◌≡◌, ◌⊎◌, inr, refl, false, [], ◌∷◌, ok, raise, codes, text_eq,
}
use charm_integration_testin.BundleBuilder.Dsl.Syntax.{
  syntax_error, type_error, pos, Expr, int_lit, str_set, endpoint, config, call, len, compare_op,
  ge, arith_op, minus, in_set, and_op, not_op, set_op, union, relation_set, eq, pending,
}
use charm_integration_testin.BundleBuilder.Dsl.Token
use charm_integration_testin.BundleBuilder.Dsl.Token.{tokenize}
use charm_integration_testin.BundleBuilder.Dsl.Parser.{parse}
use charm_integration_testin.BundleBuilder.Dsl.Types.{parse_constraint, check_types}
use charm_integration_testin.BundleBuilder.Dsl.Types.Rules.{IsTyped, IsDocumented, resolve}
use charm_integration_testin.BundleBuilder.Dsl.Types.Checked.{
  check_types-resolve, check_types-check_types,
}
use charm_integration_testin.BundleBuilder.Dsl.Whole.{parse_constraint-IsTyped}
use charm_integration_testin.BundleBuilder.Dsl.Parser.Printed.{mark, print}
use charm_integration_testin.BundleBuilder.Dsl.Parser.RoundTrip.{parse-print}

conjoined :
    parse_constraint (codes "len(endpoint[db]) >= 1 and not config[tls-mode] in {\"on\", \"off\",}")
    ≡ ok (
        and_op (compare_op ge (call len (endpoint (codes "db"))) (int_lit (pos 1))) (
          not_op
            (in_set false (config (codes "tls-mode")) (str_set (codes "on" ∷ codes "off" ∷ [])))))
unfolding parse_constraint codes text_eq
conjoined = refl

-- A set operator on two integers is read as a subtraction, also `&`.
subtracted :
    parse_constraint (codes "len(endpoint[a]) & len(endpoint[b]) >= 0")
    ≡ ok (
        compare_op ge
          (arith_op minus (call len (endpoint (codes "a"))) (call len (endpoint (codes "b"))))
          (int_lit (pos 0)))
unfolding parse_constraint codes text_eq
subtracted = refl

-- A negative integer is two tokens, and no literal.
negative : parse_constraint (codes "-1 == 1") ≡ raise syntax_error
unfolding parse_constraint codes text_eq
negative = refl

-- A constraint need not be a Bool.
no_bool :
    parse_constraint (codes "endpoint[a] | endpoint[b]")
    ≡ ok (set_op union relation_set (endpoint (codes "a")) (endpoint (codes "b")))
unfolding parse_constraint codes text_eq
no_bool = refl

ill_typed : parse_constraint (codes "bool(1)") ≡ raise type_error
unfolding parse_constraint codes text_eq
ill_typed = refl

parse_constraint-IsTyped_example :
    ((e : Expr) × ((parse_constraint (codes "-1 == 1") ≡ ok e) × IsTyped e))
    ⊎ ((parse_constraint (codes "-1 == 1") ≡ raise syntax_error)
        ⊎ (parse_constraint (codes "-1 == 1") ≡ raise type_error))
parse_constraint-IsTyped_example = parse_constraint-IsTyped (codes "-1 == 1")

-- (endpoint[a] | endpoint[b]) == endpoint[a], before and behind the check
abbrev untyped : Expr
untyped =
    compare_op eq (set_op union pending (endpoint (codes "a")) (endpoint (codes "b")))
      (endpoint (codes "a"))

abbrev typed : Expr
typed =
    compare_op eq (set_op union relation_set (endpoint (codes "a")) (endpoint (codes "b")))
      (endpoint (codes "a"))

parse-print_example : parse (print untyped (mark Token.eof ∷ [])) ≡ ok untyped
parse-print_example = parse-print untyped ((refl, (tt, tt)), tt)

untyped-IsDocumented : IsDocumented untyped
unfolding IsDocumented resolve
untyped-IsDocumented = ((tt, (tt, inr (λ (p, q). absurd (cc)))), tt)

check_types-resolve_example :
    ((check_types untyped ≡ ok (resolve untyped)) × IsTyped (resolve untyped))
    ⊎ ((check_types untyped ≡ raise type_error) × (¬ IsTyped (resolve untyped)))
check_types-resolve_example = check_types-resolve untyped untyped-IsDocumented

typed_union : check_types untyped ≡ ok typed
unfolding check_types
typed_union = refl

check_types-check_types_example : IsTyped typed × (check_types typed ≡ ok typed)
check_types-check_types_example = check_types-check_types untyped typed typed_union
