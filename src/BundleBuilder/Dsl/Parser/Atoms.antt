-- ===== src/BundleBuilder/Dsl/Parser/Atoms.antt =====
-- constraints_dsl.py: `_atom` on the printed atoms, those that hold no constraint.
use charm_integration_testin.Prelude.{
  ℕ, ◌≡◌, refl, true, false, some, List, [], ◌∷◌, map, ok, codes, text_eq,
}
use charm_integration_testin.BundleBuilder.Dsl.Syntax.{
  ℤ, Func, len, bool_func, charms, features, reachable, cross_model, tracks, risks, channels,
  revisions, units, Expr, int_set, str_set, self_set, endpoint, config, resource, call, in_set,
}
use charm_integration_testin.BundleBuilder.Dsl.Token
use charm_integration_testin.BundleBuilder.Dsl.Token.{Token, is_ident}
use charm_integration_testin.BundleBuilder.Dsl.Parser
use charm_integration_testin.BundleBuilder.Dsl.Parser.{
  starts_in, expect, left_level, comparison, in_parens, func_named, set_of, set_call, indexed,
  named, literal, more_literals, int_literal, str_literal, all_ints, all_strs, literal_set, braces,
  atom, or_level, implies_rest, implies_expr, parse, int_of, set_operator, conjunction, disjunction,
}
use charm_integration_testin.BundleBuilder.Dsl.Parser.Printed.{
  token, mark, word, print_int, func_name, print_ints, print_strs, print, IsSource,
}
use charm_integration_testin.BundleBuilder.Dsl.Parser.Numbers.{int_of-print_int}
use charm_integration_testin.BundleBuilder.Dsl.Parser.Levels.{IsPlain}

func_name-other :
    (f : Func)
    → (is_ident (codes "not") (word (func_name f)) ≡ false)
      × (is_ident (codes "in") (word (func_name f)) ≡ false)
unfolding codes text_eq
func_name-other len = (refl, refl)
func_name-other bool_func = (refl, refl)
func_name-other charms = (refl, refl)
func_name-other features = (refl, refl)
func_name-other reachable = (refl, refl)
func_name-other cross_model = (refl, refl)
func_name-other tracks = (refl, refl)
func_name-other risks = (refl, refl)
func_name-other channels = (refl, refl)
func_name-other revisions = (refl, refl)
func_name-other units = (refl, refl)

-- A printed tree starts with no `not` and no `in`.
pub print-IsPlain :
    (e : Expr) (rest : List Token)
    → IsSource e
    → IsPlain (print e rest) × (starts_in (print e rest) ≡ false)
unfolding print codes text_eq
print-IsPlain (int_set []) rest h = absurd h
print-IsPlain (str_set []) rest h = absurd h
print-IsPlain (int_set (n ∷ ns)) rest h = (refl, refl)
print-IsPlain (str_set (s ∷ ss)) rest h = (refl, refl)
print-IsPlain (call f a) rest h = func_name-other f
print-IsPlain (in_set true a b) rest h = (refl, refl)
print-IsPlain (in_set false a b) rest h = (refl, refl)
print-IsPlain _ rest h = (refl, refl)

pub func_named-func_name : (f : Func) → func_named (func_name f) ≡ some f
unfolding func_named codes text_eq
func_named-func_name len = refl
func_named-func_name bool_func = refl
func_named-func_name charms = refl
func_named-func_name features = refl
func_named-func_name reachable = refl
func_named-func_name cross_model = refl
func_named-func_name tracks = refl
func_named-func_name risks = refl
func_named-func_name channels = refl
func_named-func_name revisions = refl
func_named-func_name units = refl

more_literals-print_ints :
    (ns : List ℤ) (rest : List Token)
    → more_literals (print_ints ns (mark Token.rbrace ∷ rest))
      ≡ ok (map int_literal ns, mark Token.rbrace ∷ rest)
unfolding more_literals print_ints literal
more_literals-print_ints [] [] = refl
more_literals-print_ints [] (t ∷ rest) = refl
more_literals-print_ints (n ∷ ns) rest =
    rw (int_of-print_int n, more_literals-print_ints ns rest) refl

more_literals-print_strs :
    (ss : List (List ℕ)) (rest : List Token)
    → more_literals (print_strs ss (mark Token.rbrace ∷ rest))
      ≡ ok (map str_literal ss, mark Token.rbrace ∷ rest)
unfolding more_literals print_strs literal
more_literals-print_strs [] [] = refl
more_literals-print_strs [] (t ∷ rest) = refl
more_literals-print_strs (s ∷ ss) rest = rw (more_literals-print_strs ss rest) refl

all_ints-map : (ns : List ℤ) → all_ints (map int_literal ns) ≡ some ns
unfolding all_ints
all_ints-map [] = refl
all_ints-map (n ∷ ns) = rw (all_ints-map ns) refl

all_strs-map : (ss : List (List ℕ)) → all_strs (map str_literal ss) ≡ some ss
unfolding all_strs
all_strs-map [] = refl
all_strs-map (s ∷ ss) = rw (all_strs-map ss) refl

literal-print_int : (n : ℤ) → literal (token Token.int (print_int n)) ≡ ok (int_literal n)
unfolding literal
literal-print_int n = rw (int_of-print_int n) refl

literal_set-ints :
    (n : ℤ) (ns : List ℤ) → literal_set (int_literal n) (map int_literal ns) ≡ ok (int_set (n ∷ ns))
unfolding literal_set
literal_set-ints n ns = rw (all_ints-map (n ∷ ns)) refl

literal_set-strs :
    (s : List ℕ) (ss : List (List ℕ))
    → literal_set (str_literal s) (map str_literal ss) ≡ ok (str_set (s ∷ ss))
unfolding literal_set
literal_set-strs s ss = rw (all_strs-map (s ∷ ss)) refl

-- The atoms that hold no constraint
module _ (c : Parser.Parser Expr) (rest : List Token) where
  pub int_set-reads :
      (n : ℤ) (ns : List ℤ) → atom c (print (int_set (n ∷ ns)) rest) ≡ ok (int_set (n ∷ ns), rest)
  unfolding atom braces print expect codes text_eq
  int_set-reads n ns =
      rw (int_of-print_int n, more_literals-print_ints ns rest, literal_set-ints n ns) refl

  pub str_set-reads :
      (s : List ℕ) (ss : List (List ℕ))
      → atom c (print (str_set (s ∷ ss)) rest) ≡ ok (str_set (s ∷ ss), rest)
  unfolding atom braces print literal expect codes text_eq
  str_set-reads s ss = rw (more_literals-print_strs ss rest, literal_set-strs s ss) refl

  pub self_set-reads : atom c (print self_set rest) ≡ ok (self_set, rest)
  unfolding atom braces print expect codes text_eq
  self_set-reads = refl

  pub endpoint-reads :
      (name : List ℕ) → atom c (print (endpoint name) rest) ≡ ok (endpoint name, rest)
  unfolding atom named indexed print expect codes text_eq func_named
  endpoint-reads name = refl

  pub config-reads : (key : List ℕ) → atom c (print (config key) rest) ≡ ok (config key, rest)
  unfolding atom named indexed print expect codes text_eq func_named
  config-reads key = refl

  pub resource-reads : (key : List ℕ) → atom c (print (resource key) rest) ≡ ok (resource key, rest)
  unfolding atom named indexed print expect codes text_eq func_named
  resource-reads key = refl
