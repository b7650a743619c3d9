-- ===== src/BundleBuilder/Dsl/Parser/Depth.antt =====
-- constraints_dsl.py: a printed tree has more tokens than nested parentheses.
use charm_integration_testin.Prelude.{ℕ, ◌+◌, ◌≤◌, true, false, List, [], ◌∷◌, length, codes, arith}
use charm_integration_testin.BundleBuilder.Dsl.Syntax.{
  ℤ, Expr, int_set, str_set, call, arith_op, compare_op, set_op, in_set, not_op, and_op, or_op,
  implies_op,
}
use charm_integration_testin.BundleBuilder.Dsl.Token
use charm_integration_testin.BundleBuilder.Dsl.Token.{Token, is_ident}
use charm_integration_testin.BundleBuilder.Dsl.Parser.Printed.{
  mark, word, compare_kind, set_kind, arith_kind, print_ints, print_strs, close, print, depth,
}

length-print_ints : (ns : List ℤ) (rest : List Token) → length rest ≤ length (print_ints ns rest)
unfolding print_ints
length-print_ints [] rest = omega arith
length-print_ints (n ∷ ns) rest = let h = length-print_ints ns rest in omega arith

length-print_strs :
    (ss : List (List ℕ)) (rest : List Token) → length rest ≤ length (print_strs ss rest)
unfolding print_strs
length-print_strs [] rest = omega arith
length-print_strs (s ∷ ss) rest = let h = length-print_strs ss rest in omega arith

-- The parser's fuel of one for each token is more than the parentheses are deep.
pub depth-print : (e : Expr) (rest : List Token) → depth e + length rest ≤ length (print e rest)
unfolding depth print
depth-print (int_set []) rest = omega arith
depth-print (int_set (n ∷ ns)) rest =
    let h = length-print_ints ns (mark Token.rbrace ∷ rest) in omega arith
depth-print (str_set []) rest = omega arith
depth-print (str_set (s ∷ ss)) rest =
    let h = length-print_strs ss (mark Token.rbrace ∷ rest) in omega arith
depth-print (call f a) rest = let h = depth-print a (close rest) in omega arith
depth-print (not_op a) rest = let h = depth-print a (close rest) in omega arith
depth-print (arith_op op a b) rest =
    let k = depth-print b (close rest) in
    let h = depth-print a (mark (arith_kind op) ∷ print b (close rest)) in omega arith
depth-print (compare_op op a b) rest =
    let k = depth-print b (close rest) in
    let h = depth-print a (mark (compare_kind op) ∷ print b (close rest)) in omega arith
depth-print (set_op op t a b) rest =
    let k = depth-print b (close rest) in
    let h = depth-print a (mark (set_kind op) ∷ print b (close rest)) in omega arith
depth-print (in_set true a b) rest =
    let k = depth-print b (close rest) in
    let h = depth-print a (word (codes "not") ∷ word (codes "in") ∷ print b (close rest)) in
    omega arith
depth-print (in_set false a b) rest =
    let k = depth-print b (close rest) in
    let h = depth-print a (word (codes "in") ∷ print b (close rest)) in omega arith
depth-print (and_op a b) rest =
    let k = depth-print b (close rest) in
    let h = depth-print a (word (codes "and") ∷ print b (close rest)) in omega arith
depth-print (or_op a b) rest =
    let k = depth-print b (close rest) in
    let h = depth-print a (word (codes "or") ∷ print b (close rest)) in omega arith
depth-print (implies_op a b) rest =
    let k = depth-print b (close rest) in
    let h = depth-print a (mark Token.implies ∷ print b (close rest)) in omega arith
depth-print _ rest = omega arith
