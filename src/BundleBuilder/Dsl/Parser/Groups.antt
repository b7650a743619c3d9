-- ===== src/BundleBuilder/Dsl/Parser/Groups.antt =====
-- constraints_dsl.py: `_Parser`, a group in parentheses with each of the operators.
use charm_integration_testin.Prelude.{
  ℕ, ◌≡◌, refl, true, false, none, some, List, [], ◌∷◌, ◌++◌, ok, codes, text_eq,
}
use charm_integration_testin.BundleBuilder.Dsl.Syntax.{
  pending, plus, times, CompareOp, eq, ne, lt, le, gt, ge, SetOp, union, inter, diff, Expr,
  arith_op, compare_op, set_op, in_set, not_op, and_op, or_op,
}
use charm_integration_testin.BundleBuilder.Dsl.Token
use charm_integration_testin.BundleBuilder.Dsl.Token.{Token, is_ident}
use charm_integration_testin.BundleBuilder.Dsl.Parser
use charm_integration_testin.BundleBuilder.Dsl.Parser.{
  starts_in, expect, left_level, comparison, in_parens, func_named, set_of, set_call, indexed,
  named, literal, more_literals, int_literal, str_literal, all_ints, all_strs, literal_set, braces,
  atom, or_level, set_level, implies_rest, implies_expr, parse, int_of, set_operator, conjunction,
  disjunction,
}
use charm_integration_testin.BundleBuilder.Dsl.Parser.Printed.{
  mark, word, compare_kind, set_kind, close, print,
}
use charm_integration_testin.BundleBuilder.Dsl.Parser.Levels.{
  left_level-stop, left_level-once, compare_expr-once, in_expr-in, in_expr-not_in, IsPlain,
  not_expr-once,
}
use charm_integration_testin.BundleBuilder.Dsl.Parser.Climb.{
  EndsSet, EndsOr, compare_level, not_level, and_level, in_level, atom-times_level, atom-in_level,
  atom-plus_level, atom-set_level, atom-compare_level, atom-not_level, plus_level-not_level,
  times_level-not_level, set_level-not_level, compare_level-not_level, in_level-not_level,
  not_level-or_level, and_level-or_level, rparen-EndsOr,
}

-- The parser reads the operand behind any tokens, which starts with no `not` and no `in`.
abbrev pub Operand : ℕ → Expr → Type 0
Operand f a =
    ((us : List Token) → atom (implies_expr f) (print a us) ≡ ok (a, us))
    × ((us : List Token) → IsPlain (print a us) × (starts_in (print a us) ≡ false))

set_kind-operator :
    (op : SetOp)
    → ((Parser.times (mark (set_kind op)) ≡ none) × (Parser.plus (mark (set_kind op)) ≡ none))
      × (set_operator (mark (set_kind op)) ≡ some (set_op op pending))
set_kind-operator union = ((refl, refl), refl)
set_kind-operator inter = ((refl, refl), refl)
set_kind-operator diff = ((refl, refl), refl)

compare_kind-operator :
    (op : CompareOp)
    → EndsSet (mark (compare_kind op)) × (comparison (mark (compare_kind op)) ≡ some op)
compare_kind-operator eq = ((refl, (refl, refl)), refl)
compare_kind-operator ne = ((refl, (refl, refl)), refl)
compare_kind-operator lt = ((refl, (refl, refl)), refl)
compare_kind-operator le = ((refl, (refl, refl)), refl)
compare_kind-operator gt = ((refl, (refl, refl)), refl)
compare_kind-operator ge = ((refl, (refl, refl)), refl)

module _ (f : ℕ) (rest : List Token) (a b : Expr) (ra : Operand f a) (rb : Operand f b) where
  -- The operator, and the right operand in front of a closing parenthesis
  abbrev pub behind : List Token → List Token
  behind ops = print a (ops ++ print b (close rest))

  -- The group is read as the tree.
  abbrev pub Grouped : List Token → Expr → Type 0
  Grouped ops e = or_level (implies_expr f) (behind ops) ≡ ok (e, close rest)

  -- From a level that has read the group up to `or`
  up :
      (ops : List Token) (e : Expr)
      → not_level (implies_expr f) (behind ops) ≡ ok (e, close rest)
      → Grouped ops e
  up ops e h = not_level-or_level (implies_expr f) (behind ops) e _ rest rparen-EndsOr h

  plain : (ops : List Token) → IsPlain (behind ops)
  plain ops = (ra.1 (ops ++ print b (close rest))).0

  right : atom (implies_expr f) (print b (close rest)) ≡ ok (b, close rest)
  right = rb.0 (close rest)

  pub times-reads : Grouped (mark Token.star ∷ []) (arith_op times a b)
  times-reads =
      let ops = mark Token.star ∷ [] in
      up ops _ (
        times_level-not_level _ (behind ops) _ _ rest (rparen-EndsOr.0) (plain ops) (
          left_level-once Parser.times _ (behind ops) a _ _ (ra.0 _) (arith_op times) b _ rest refl
            right refl))

  pub plus-reads : Grouped (mark Token.plus ∷ []) (arith_op plus a b)
  plus-reads =
      let ops = mark Token.plus ∷ [] in
      up ops _ (
        plus_level-not_level _ (behind ops) _ _ rest (rparen-EndsOr.0) (plain ops) (
          left_level-once Parser.plus _ (behind ops) a _ _
            (atom-times_level _ (behind ops) a _ _ refl (ra.0 _)) (arith_op plus) b _ rest refl
            (atom-times_level _ _ b _ rest refl right) refl))

  pub set_op-reads : (op : SetOp) → Grouped (mark (set_kind op) ∷ []) (set_op op pending a b)
  set_op-reads op =
      let ops = mark (set_kind op) ∷ [] in
      let ((p, q), r) = set_kind-operator op in
      up ops _ (
        set_level-not_level _ (behind ops) _ _ rest (rparen-EndsOr.0) (plain ops) (
          left_level-once set_operator _ (behind ops) a _ _
            (atom-plus_level _ (behind ops) a _ _ p q (ra.0 _)) (set_op op pending) b _ rest r
            (atom-plus_level _ _ b _ rest refl refl right) refl))

  pub compare_op-reads :
      (op : CompareOp) → Grouped (mark (compare_kind op) ∷ []) (compare_op op a b)
  compare_op-reads op =
      let ops = mark (compare_kind op) ∷ [] in
      let (p, q) = compare_kind-operator op in
      up ops _ (
        compare_level-not_level _ (behind ops) _ _ rest (rparen-EndsOr.0) (plain ops) (
          compare_expr-once _ (behind ops) a _ _ (atom-set_level _ (behind ops) a _ _ p (ra.0 _)) op
            b (close rest) q (atom-set_level _ _ b _ rest (rparen-EndsOr.0.0) right)))

  pub in_set-reads : Grouped (word (codes "in") ∷ []) (in_set false a b)
  in_set-reads =
      let ops = word (codes "in") ∷ [] in
      up ops _ (
        in_level-not_level _ (behind ops) _ _ rest (plain ops) (
          in_expr-in (compare_level (implies_expr f)) (behind ops) a _ b (close rest)
            (atom-compare_level _ _ b _ rest (rparen-EndsOr.0.0) refl right)
            (atom-compare_level _ (behind ops) a _ _ (refl, (refl, refl)) refl (ra.0 _))))

  pub not_in_set-reads : Grouped (word (codes "not") ∷ word (codes "in") ∷ []) (in_set true a b)
  not_in_set-reads =
      let ops = word (codes "not") ∷ word (codes "in") ∷ [] in
      up ops _ (
        in_level-not_level _ (behind ops) _ _ rest (plain ops) (
          in_expr-not_in (compare_level (implies_expr f)) (behind ops) a _ b (close rest)
            (atom-compare_level _ _ b _ rest (rparen-EndsOr.0.0) refl right)
            (atom-compare_level _ (behind ops) a _ _ (refl, (refl, refl)) refl (ra.0 _))))

  pub and_op-reads : Grouped (word (codes "and") ∷ []) (and_op a b)
  unfolding codes text_eq
  and_op-reads =
      let ops = word (codes "and") ∷ [] in
      and_level-or_level _ (behind ops) _ _ rest rparen-EndsOr (
        left_level-once conjunction _ (behind ops) a _ _
          (atom-not_level _ (behind ops) a _ _ ((refl, (refl, refl)), (refl, refl)) (plain ops)
            (ra.0 _))
          and_op b _ rest refl (atom-not_level _ _ b _ rest (rparen-EndsOr.0) ((rb.1 _).0) right)
          refl)

  pub or_op-reads : Grouped (word (codes "or") ∷ []) (or_op a b)
  unfolding codes text_eq
  or_op-reads =
      let ops = word (codes "or") ∷ [] in
      left_level-once disjunction (and_level (implies_expr f)) (behind ops) a _ _
        (left_level-stop conjunction _ (behind ops) a _ _
          (atom-not_level _ (behind ops) a _ _ ((refl, (refl, refl)), (refl, refl)) (plain ops)
            (ra.0 _))
          refl)
        or_op b _ rest refl
        (left_level-stop conjunction _ _ b _ rest
          (atom-not_level _ _ b _ rest (rparen-EndsOr.0) ((rb.1 _).0) right) refl)
        refl

pub not_op-reads :
    (f : ℕ) (rest : List Token) (a : Expr)
    → Operand f a
    → or_level (implies_expr f) (word (codes "not") ∷ print a (close rest))
      ≡ ok (not_op a, close rest)
not_op-reads f rest a ra =
    let (plain, other) = ra.1 (close rest) in
    not_level-or_level (implies_expr f) _ _ _ rest rparen-EndsOr (
      not_expr-once (in_level (implies_expr f)) _ a (close rest) other plain
        (atom-in_level (implies_expr f) _ a _ rest (rparen-EndsOr.0) (ra.0 (close rest))))

-- An operand that is the whole constraint
pub alone-reads :
    (f : ℕ) (a : Expr) (t : Token) (us : List Token)
    → EndsOr t
    → Operand f a
    → or_level (implies_expr f) (print a (t ∷ us)) ≡ ok (a, t ∷ us)
alone-reads f a t us ends ra =
    not_level-or_level (implies_expr f) _ a t us ends
      (atom-not_level (implies_expr f) _ a t us (ends.0) ((ra.1 (t ∷ us)).0) (ra.0 (t ∷ us)))
