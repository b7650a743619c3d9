-- ===== src/BundleBuilder/Dsl/Parser/Climb.antt =====
-- constraints_dsl.py: `_Parser`, from an atom up through the levels of operators.
use charm_integration_testin.Prelude.{◌≡◌, refl, ◌∙◌, true, none, List, ◌∷◌, ok}
use charm_integration_testin.BundleBuilder.Dsl.Syntax.{Expr}
use charm_integration_testin.BundleBuilder.Dsl.Token
use charm_integration_testin.BundleBuilder.Dsl.Token.{Token}
use charm_integration_testin.BundleBuilder.Dsl.Parser.{
  Parser, left_level, times, plus, set_operator, set_level, comparison, compare_expr, in_expr,
  not_expr, conjunction, disjunction, or_level, atom,
}
use charm_integration_testin.BundleBuilder.Dsl.Parser.Printed.{mark}
use charm_integration_testin.BundleBuilder.Dsl.Parser.Levels.{
  left_level-stop, compare_expr-stop, ends_in, in_expr-stop, IsPlain, not_expr-stop,
}

-- The levels between the atoms and the sets, and between the comparisons and `or`
abbrev pub times_level : Parser Expr → Parser Expr
times_level c = left_level times (atom c)

abbrev pub plus_level : Parser Expr → Parser Expr
plus_level c = left_level plus (times_level c)

abbrev pub compare_level : Parser Expr → Parser Expr
compare_level c = compare_expr (set_level c)

abbrev pub in_level : Parser Expr → Parser Expr
in_level c = in_expr (compare_level c)

abbrev pub not_level : Parser Expr → Parser Expr
not_level c = not_expr (in_level c)

abbrev pub and_level : Parser Expr → Parser Expr
and_level c = left_level conjunction (not_level c)

-- No operator of a level above the sets, of one above the comparisons, and of none at all
abbrev pub EndsSet : Token → Type 0
EndsSet t = (times t ≡ none) × ((plus t ≡ none) × (set_operator t ≡ none))

abbrev pub EndsNot : Token → Type 0
EndsNot t = EndsSet t × ((comparison t ≡ none) × (ends_in t ≡ true))

abbrev pub EndsOr : Token → Type 0
EndsOr t = EndsNot t × ((conjunction t ≡ none) × (disjunction t ≡ none))

module _ (c : Parser Expr) (ts : List Token) (a : Expr) (t : Token) (us : List Token) where
  abbrev pub Reads : Parser Expr → Type 0
  Reads p = p ts ≡ ok (a, t ∷ us)

  pub atom-times_level : times t ≡ none → Reads (atom c) → Reads (times_level c)
  atom-times_level p h = left_level-stop times (atom c) ts a t us h p

  pub atom-plus_level : times t ≡ none → plus t ≡ none → Reads (atom c) → Reads (plus_level c)
  atom-plus_level p q h = left_level-stop plus (times_level c) ts a t us (atom-times_level p h) q

  pub atom-set_level : EndsSet t → Reads (atom c) → Reads (set_level c)
  atom-set_level (p, (q, r)) h =
      left_level-stop set_operator (plus_level c) ts a t us (atom-plus_level p q h) r

  pub atom-compare_level :
      EndsSet t → comparison t ≡ none → Reads (atom c) → Reads (compare_level c)
  atom-compare_level e p h = compare_expr-stop (set_level c) ts a t us (atom-set_level e h) p

  pub atom-in_level : EndsNot t → Reads (atom c) → Reads (in_level c)
  atom-in_level (e, (p, q)) h =
      in_expr-stop (compare_level c) ts a t us (atom-compare_level e p h) q

  -- From each level up to `or`
  pub and_level-or_level : EndsOr t → Reads (and_level c) → Reads (or_level c)
  and_level-or_level (e, (p, q)) h = left_level-stop disjunction (and_level c) ts a t us h q

  pub not_level-or_level : EndsOr t → Reads (not_level c) → Reads (or_level c)
  not_level-or_level (e, (p, q)) h =
      and_level-or_level (e, (p, q)) (left_level-stop conjunction (not_level c) ts a t us h p)

  pub in_level-not_level : IsPlain ts → Reads (in_level c) → Reads (not_level c)
  in_level-not_level plain h = not_expr-stop (in_level c) ts plain ∙ h

  pub compare_level-not_level :
      EndsNot t → IsPlain ts → Reads (compare_level c) → Reads (not_level c)
  compare_level-not_level (e, (p, q)) plain h =
      in_level-not_level plain (in_expr-stop (compare_level c) ts a t us h q)

  pub set_level-not_level : EndsNot t → IsPlain ts → Reads (set_level c) → Reads (not_level c)
  set_level-not_level (e, (p, q)) plain h =
      compare_level-not_level (e, (p, q)) plain (compare_expr-stop (set_level c) ts a t us h p)

  pub atom-not_level : EndsNot t → IsPlain ts → Reads (atom c) → Reads (not_level c)
  atom-not_level (e, r) plain h = set_level-not_level (e, r) plain (atom-set_level e h)

  pub plus_level-not_level : EndsNot t → IsPlain ts → Reads (plus_level c) → Reads (not_level c)
  plus_level-not_level ((p, (q, r)), s) plain h =
      set_level-not_level ((p, (q, r)), s) plain
        (left_level-stop set_operator (plus_level c) ts a t us h r)

  pub times_level-not_level : EndsNot t → IsPlain ts → Reads (times_level c) → Reads (not_level c)
  times_level-not_level ((p, (q, r)), s) plain h =
      plus_level-not_level ((p, (q, r)), s) plain
        (left_level-stop plus (times_level c) ts a t us h q)

pub implies-EndsOr : EndsOr (mark Token.implies)
implies-EndsOr = (((refl, (refl, refl)), (refl, refl)), (refl, refl))

pub eof-EndsOr : EndsOr (mark Token.eof)
eof-EndsOr = (((refl, (refl, refl)), (refl, refl)), (refl, refl))

pub rparen-EndsOr : EndsOr (mark Token.rparen)
rparen-EndsOr = (((refl, (refl, refl)), (refl, refl)), (refl, refl))
