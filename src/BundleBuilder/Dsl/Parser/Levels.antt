-- ===== src/BundleBuilder/Dsl/Parser/Levels.antt =====
-- constraints_dsl.py: `_Parser`, each level of operators on tokens whose first operand is known.
use charm_integration_testin.Prelude.{
  ◌≡◌, refl, Bool, true, false, not, ◌&&◌, Option, none, some, List, [], ◌∷◌, ok, codes, text_eq,
  arith,
}
use charm_integration_testin.BundleBuilder.Dsl.Syntax.{Expr, in_set, not_op, compare_op, CompareOp}
use charm_integration_testin.BundleBuilder.Dsl.Token.{Token, is_ident}
use charm_integration_testin.BundleBuilder.Dsl.Parser.Printed.{word}
use charm_integration_testin.BundleBuilder.Dsl.Parser.{
  Parser, starts_in, Build, chain, left_level, comparison, compare_rest, compare_expr, in_rest,
  in_expr, not_expr,
}

module _ (operator : Token → Option Build) (next : Parser Expr) (ts : List Token) (a : Expr)
    (t : Token) (us : List Token) (first : next ts ≡ ok (a, t ∷ us)) where
  -- The next token is no operator of the level.
  pub left_level-stop : operator t ≡ none → left_level operator next ts ≡ ok (a, t ∷ us)
  unfolding left_level chain
  left_level-stop p = rw (first, p) refl

  pub left_level-once :
      (build : Build) (b : Expr) (u : Token) (vs : List Token)
      → operator t ≡ some build
      → next us ≡ ok (b, u ∷ vs)
      → operator u ≡ none
      → left_level operator next ts ≡ ok (build a b, u ∷ vs)
  unfolding left_level chain
  left_level-once build b u vs p second q = rw (first, p, second, q) refl

-- No word that `in` and `not in` start with
abbrev pub ends_in : Token → Bool
ends_in t = not (is_ident (codes "not") t) && not (is_ident (codes "in") t)

module _ (next : Parser Expr) (ts : List Token) (a : Expr) (t : Token) (us : List Token)
    (first : next ts ≡ ok (a, t ∷ us)) where
  pub compare_expr-stop : comparison t ≡ none → compare_expr next ts ≡ ok (a, t ∷ us)
  unfolding compare_expr compare_rest
  compare_expr-stop p = rw (first, p) refl

  pub compare_expr-once :
      (op : CompareOp) (b : Expr) (vs : List Token)
      → comparison t ≡ some op
      → next us ≡ ok (b, vs)
      → compare_expr next ts ≡ ok (compare_op op a b, vs)
  unfolding compare_expr compare_rest
  compare_expr-once op b vs p second = rw (first, p, second) refl

  pub in_expr-stop : ends_in t ≡ true → in_expr next ts ≡ ok (a, t ∷ us)
  unfolding in_expr in_rest
  in_expr-stop p =
      let q : is_ident (codes "not") t ≡ false = ground arith in
      let r : is_ident (codes "in") t ≡ false = ground arith in rw (first, q, r) refl

module _ (next : Parser Expr) (ts : List Token) (a : Expr) (us : List Token) (b : Expr)
    (vs : List Token) (second : next us ≡ ok (b, vs)) where
  pub in_expr-in :
      next ts ≡ ok (a, word (codes "in") ∷ us) → in_expr next ts ≡ ok (in_set false a b, vs)
  unfolding in_expr in_rest codes text_eq
  in_expr-in first = rw (first, second) refl

  pub in_expr-not_in :
      next ts ≡ ok (a, word (codes "not") ∷ word (codes "in") ∷ us)
      → in_expr next ts ≡ ok (in_set true a b, vs)
  unfolding in_expr in_rest codes text_eq
  in_expr-not_in first = rw (first, second) refl

-- The first token is no `not`.
abbrev pub IsPlain : List Token → Type 0
IsPlain [] = ⊥
IsPlain (t ∷ ts) = is_ident (codes "not") t ≡ false

module _ (next : Parser Expr) where
  pub not_expr-stop : (ts : List Token) → IsPlain ts → not_expr next ts ≡ next ts
  unfolding not_expr
  not_expr-stop [] p = absurd p
  not_expr-stop (t ∷ ts) p = rw p refl

  pub not_expr-once :
      (ts : List Token) (a : Expr) (us : List Token)
      → starts_in ts ≡ false
      → IsPlain ts
      → next ts ≡ ok (a, us)
      → not_expr next (word (codes "not") ∷ ts) ≡ ok (not_op a, us)
  unfolding not_expr codes text_eq
  not_expr-once ts a us p plain first = rw (p, not_expr-stop ts plain, first) refl
