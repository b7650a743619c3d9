-- ===== src/BundleBuilder/Dsl/Parser.antt =====
-- constraints_dsl.py: `_Parser`. A parser reads a value off the tokens that are left, and returns it
-- with those behind it. Only `_implies_expr` recurs through the whole grammar, on fuel.
pub mod Works
pub mod Total
pub mod Printed
pub mod Numbers
pub mod Levels
pub mod Climb
pub mod Atoms
pub mod Groups
pub mod Depth
pub mod RoundTrip
use charm_integration_testin.Prelude.{
  ℕ, zero, suc, ◌+◌, ◌-◌, ◌*◌, Bool, true, false, not, ◌&&◌, ◌||◌, Option, none, some, List, [],
  ◌∷◌, ◌++◌, ◌==◌, if◌then◌else◌, length, Result, ok, raise, ◌>>=◌, codes, text_eq,
}
use charm_integration_testin.BundleBuilder.Dsl.Syntax.{
  DslError, syntax_error, index_error, out_of_fuel, ℤ, pos, negsuc, Func, len, bool_func, charms,
  features, reachable, cross_model, tracks, risks, channels, revisions, units, Expr, int_lit,
  str_lit, int_set, str_set, self_set, endpoint, config, set_config, resource, set_resource, call,
  arith_op, compare_op, set_op, in_set, not_op, and_op, or_op, implies_op, pending, CompareOp,
  SetOp, union, inter, diff,
}
use charm_integration_testin.BundleBuilder.Dsl.Syntax
use charm_integration_testin.BundleBuilder.Dsl.Token
use charm_integration_testin.BundleBuilder.Dsl.Token.{
  Token, TokenKind, on_some, is_kind, is_ident, kind_rank,
}

abbrev pub Reading : Type 0 → Type 0
Reading A = Result DslError (A × List Token)

abbrev pub Parser : Type 0 → Type 0
Parser A = List Token → Reading A

-- `_expect`
unfoldable pub expect : TokenKind → Parser Token
expect k [] = raise index_error
expect k (t ∷ ts) = if is_kind k t then ok (t, ts) else raise syntax_error

-- `_is_next_ident("in")`, on the tokens behind the next one
abbrev pub starts_in : List Token → Bool
starts_in [] = false
starts_in (t ∷ ts) = is_ident (codes "in") t

abbrev pub Build : Type 0
Build = Expr → Expr → Expr

-- `while` the next token is an operator: read the right operand, and build upon the left one.
unfoldable pub chain : (Token → Option Build) → Parser Expr → ℕ → Expr → Parser Expr
chain operator next zero left ts = raise out_of_fuel
chain operator next (suc n) left [] = raise index_error
chain operator next (suc n) left (t ∷ ts) =
    on_some (operator t) (ok (left, t ∷ ts))
      (λ build. next ts >>= λ (right, rest). chain operator next n (build left right) rest)

-- A level of the grammar whose operators associate to the left. Each round takes a token.
unfoldable pub left_level : (Token → Option Build) → Parser Expr → Parser Expr
unfolding chain
left_level operator next ts =
    next ts >>= λ (left, rest). chain operator next (suc (length rest)) left rest

abbrev pub when : Bool → Build → Option Build
when true build = some build
when false build = none

abbrev pub times : Token → Option Build
times t = when (is_kind Token.star t) (arith_op Syntax.times)

abbrev pub plus : Token → Option Build
plus t = when (is_kind Token.plus t) (arith_op Syntax.plus)

abbrev pub set_operator : Token → Option Build
set_operator t =
    if is_kind Token.pipe t
    then some (set_op union pending)
    else if is_kind Token.amp t
    then some (set_op inter pending)
    else when (is_kind Token.minus t) (set_op diff pending)

abbrev pub comparison : Token → Option CompareOp
comparison t =
    if is_kind Token.eq t
    then some Syntax.eq
    else if is_kind Token.neq t
    then some Syntax.ne
    else if is_kind Token.lt t
    then some Syntax.lt
    else if is_kind Token.le t
    then some Syntax.le
    else if is_kind Token.gt t
    then some Syntax.gt
    else if is_kind Token.ge t
    then some Syntax.ge
    else none

abbrev pub conjunction : Token → Option Build
conjunction t = when (is_ident (codes "and") t) and_op

abbrev pub disjunction : Token → Option Build
disjunction t = when (is_ident (codes "or") t) or_op

-- `_compare_expr`, behind its left operand
unfoldable pub compare_rest : Parser Expr → Expr → Parser Expr
compare_rest next left [] = raise index_error
compare_rest next left (t ∷ ts) =
    on_some (comparison t) (ok (left, t ∷ ts))
      (λ op. next ts >>= λ (right, rest). ok (compare_op op left right, rest))

unfoldable pub compare_expr : Parser Expr → Parser Expr
unfolding compare_rest
compare_expr next ts = next ts >>= λ (left, rest). compare_rest next left rest

abbrev pub tail : List Token → List Token
tail [] = []
tail (t ∷ ts) = ts

-- `_in_expr`, behind its left operand
unfoldable pub in_rest : Parser Expr → Expr → Parser Expr
in_rest next left [] = raise index_error
in_rest next left (t ∷ ts) =
    if is_ident (codes "not") t && starts_in ts
    then next (tail ts) >>= (λ (right, rest). ok (in_set true left right, rest))
    else if is_ident (codes "in") t
    then next ts >>= (λ (right, rest). ok (in_set false left right, rest))
    else ok (left, t ∷ ts)

unfoldable pub in_expr : Parser Expr → Parser Expr
unfolding in_rest
in_expr next ts = next ts >>= λ (left, rest). in_rest next left rest

unfoldable pub not_expr : Parser Expr → Parser Expr
not_expr next [] = next []
not_expr next (t ∷ ts) =
    let negation = not_expr next ts >>= λ (arg, rest). ok (not_op arg, rest) in
    if is_ident (codes "not") t && not (starts_in ts) then negation else next (t ∷ ts)

-- '(' constraint ')'
unfoldable pub in_parens : Parser Expr → Parser Expr
unfolding expect
in_parens constraint ts = expect Token.lparen ts >>= λ (_, a).
    constraint a >>= λ (node, b). expect Token.rparen b >>= λ (_, c). ok (node, c)

-- '[' NAME ']'
unfoldable pub in_brackets : (List ℕ → Expr) → Parser Expr
unfolding expect
in_brackets build ts = expect Token.lbracket ts >>= λ (_, a). expect Token.ident a >>= λ (name, b).
    expect Token.rbracket b >>= λ (_, c). ok (build name.value, c)

unfoldable pub func_named : List ℕ → Option Func
func_named name =
    if text_eq name (codes "len")
    then some len
    else if text_eq name (codes "bool")
    then some bool_func
    else if text_eq name (codes "charms")
    then some charms
    else if text_eq name (codes "features")
    then some features
    else if text_eq name (codes "reachable")
    then some reachable
    else if text_eq name (codes "cross_model")
    then some cross_model
    else if text_eq name (codes "tracks")
    then some tracks
    else if text_eq name (codes "risks")
    then some risks
    else if text_eq name (codes "channels")
    then some channels
    else if text_eq name (codes "revisions")
    then some revisions
    else if text_eq name (codes "units")
    then some units
    else none

-- set(config[key]) and set(resource[key])
abbrev pub set_of : Expr → Result DslError Expr
set_of (config key) = ok (set_config key)
set_of (resource key) = ok (set_resource key)
set_of _ = raise syntax_error

-- set(...), behind its name
unfoldable pub set_call : Parser Expr → Parser Expr
unfolding in_parens
set_call constraint ts =
    in_parens constraint ts >>= λ (arg, rest). set_of arg >>= λ node. ok (node, rest)

-- endpoint[name], config[key] and resource[key], behind their names
unfoldable pub indexed : List ℕ → Parser Expr
unfolding in_brackets
indexed name ts =
    if text_eq name (codes "endpoint")
    then in_brackets endpoint ts
    else if text_eq name (codes "config")
    then in_brackets config ts
    else if text_eq name (codes "resource")
    then in_brackets resource ts
    else raise syntax_error

-- An atom that starts with an identifier, behind it
unfoldable pub named : Parser Expr → List ℕ → Parser Expr
unfolding func_named in_parens set_call indexed
named constraint name ts =
    on_some (func_named name)
      (if text_eq name (codes "set") then set_call constraint ts else indexed name ts)
      (λ f. in_parens constraint ts >>= λ (arg, rest). ok (call f arg, rest))

unfoldable pub number : ℕ → List ℕ → ℕ
number acc [] = acc
number acc (c ∷ cs) = number (acc * 10 + (c - 48)) cs

abbrev pub negated : ℕ → ℤ
negated zero = pos 0
negated (suc n) = negsuc n

-- `int(value)`
unfoldable pub int_of : List ℕ → ℤ
unfolding number
int_of [] = pos 0
int_of (c ∷ cs) = if c == 45 then negated (number 0 cs) else pos (number 0 (c ∷ cs))

pub data Literal : Type 0 where
  int_literal : ℤ → Literal
  str_literal : List ℕ → Literal

-- `_literal`
unfoldable pub literal : Token → Result DslError Literal
literal t =
    if is_kind Token.int t
    then ok (int_literal (int_of t.value))
    else if is_kind Token.str t
    then ok (str_literal t.value)
    else raise syntax_error

-- The loop over the elements behind the first one, which a trailing comma may end.
unfoldable pub more_literals : Parser (List Literal)
unfolding literal
more_literals [] = raise index_error
more_literals (t ∷ []) = if is_kind Token.comma t then raise index_error else ok ([], t ∷ [])
more_literals (t ∷ u ∷ ts) =
    let one = literal u >>= λ l. more_literals ts >>= λ (ls, rest). ok (l ∷ ls, rest) in
    if is_kind Token.comma t
    then (if is_kind Token.rbrace u then ok ([], u ∷ ts) else one)
    else ok ([], t ∷ u ∷ ts)

unfoldable pub all_ints : List Literal → Option (List ℤ)
all_ints [] = some []
all_ints (int_literal n ∷ ls) = elim (all_ints ls) [ none ↦ none | some ns ↦ some (n ∷ ns) ]
all_ints (str_literal s ∷ ls) = none

unfoldable pub all_strs : List Literal → Option (List (List ℕ))
all_strs [] = some []
all_strs (str_literal s ∷ ls) = elim (all_strs ls) [ none ↦ none | some ss ↦ some (s ∷ ss) ]
all_strs (int_literal n ∷ ls) = none

abbrev pub same_kind : {A : Type 0} → (A → Expr) → Option A → Result DslError Expr
same_kind build none = raise syntax_error
same_kind build (some a) = ok (build a)

-- The elements are all integers or all texts.
unfoldable pub literal_set : Literal → List Literal → Result DslError Expr
unfolding all_ints all_strs
literal_set (int_literal n) ls = same_kind int_set (all_ints (int_literal n ∷ ls))
literal_set (str_literal s) ls = same_kind str_set (all_strs (str_literal s ∷ ls))

-- `_brace_expr`, behind its brace
unfoldable pub braces : Parser Expr
unfolding expect literal more_literals
braces [] = raise index_error
braces (t ∷ ts) =
    if is_ident (codes "self") t
    then expect Token.rbrace ts >>= (λ (_, rest). ok (self_set, rest))
    else literal t >>= λ l. more_literals ts >>= λ (ls, a).
        expect Token.rbrace a >>= λ (_, rest). literal_set l ls >>= λ node. ok (node, rest)

-- `_atom`
unfoldable pub atom : Parser Expr → Parser Expr
unfolding in_parens named braces
atom constraint [] = raise index_error
atom constraint (t ∷ ts) =
    if is_kind Token.lparen t
    then in_parens constraint (t ∷ ts)
    else if is_kind Token.ident t
    then named constraint t.value ts
    else if is_kind Token.lbrace t
    then braces ts
    else if is_kind Token.str t
    then ok (str_lit t.value, ts)
    else if is_kind Token.int t
    then ok (int_lit (int_of t.value), ts)
    else raise syntax_error

-- `_set_op_expr`, `_compare_expr` and so on over the atoms
abbrev pub set_level : Parser Expr → Parser Expr
set_level constraint =
    left_level set_operator (left_level plus (left_level times (atom constraint)))

abbrev pub or_level : Parser Expr → Parser Expr
or_level constraint =
    left_level disjunction
      (left_level conjunction (not_expr (in_expr (compare_expr (set_level constraint)))))

-- Behind the antecedent of `=>`
unfoldable pub implies_rest : Parser Expr → Expr → Parser Expr
implies_rest constraint left [] = raise index_error
implies_rest constraint left (t ∷ ts) =
    if is_kind Token.implies t
    then constraint ts >>= (λ (right, rest). ok (implies_op left right, rest))
    else ok (left, t ∷ ts)

-- `_implies_expr`
unfoldable pub implies_expr : ℕ → Parser Expr
unfolding implies_rest left_level compare_expr in_expr not_expr atom
implies_expr zero ts = raise out_of_fuel
implies_expr (suc fuel) ts =
    or_level (implies_expr fuel) ts >>= λ (left, rest). implies_rest (implies_expr fuel) left rest

-- `parse`
unfoldable pub parse : List Token → Result DslError Expr
unfolding implies_expr expect int_of literal_set
parse ts = implies_expr (length ts) ts >>= λ (node, rest). expect Token.eof rest >>= λ _. ok node
