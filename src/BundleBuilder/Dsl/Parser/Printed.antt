-- ===== src/BundleBuilder/Dsl/Parser/Printed.antt =====
-- constraints_dsl.py: the tokens of a tree, every operator in parentheses, as the grammar at the top of
-- the file writes it.
use charm_integration_testin.Prelude.{ℕ, suc, ◌+◌, ◌≡◌, true, false, List, [], ◌∷◌, codes, decimal}
use charm_integration_testin.BundleBuilder.Dsl.Syntax.{
  pending, ℤ, pos, negsuc, Func, len, bool_func, charms, features, reachable, cross_model, tracks,
  risks, channels, revisions, units, ArithOp, plus, minus, times, CompareOp, eq, ne, lt, le, gt, ge,
  SetOp, union, inter, diff, Expr, int_lit, str_lit, int_set, str_set, self_set, endpoint, config,
  set_config, resource, set_resource, call, arith_op, compare_op, set_op, in_set, not_op, and_op,
  or_op, implies_op,
}
use charm_integration_testin.BundleBuilder.Dsl.Token
use charm_integration_testin.BundleBuilder.Dsl.Token.{Token, TokenKind}

-- The parser does not read the position of a token.
abbrev pub token : TokenKind → List ℕ → Token
token k v = record { kind = k; value = v; pos = 0 }

abbrev pub mark : TokenKind → Token
mark k = token k []

abbrev pub word : List ℕ → Token
word v = token Token.ident v

unfoldable pub print_int : ℤ → List ℕ
unfolding decimal
print_int (pos n) = decimal n
print_int (negsuc n) = 45 ∷ decimal (suc n)

abbrev pub func_name : Func → List ℕ
func_name len = codes "len"
func_name bool_func = codes "bool"
func_name charms = codes "charms"
func_name features = codes "features"
func_name reachable = codes "reachable"
func_name cross_model = codes "cross_model"
func_name tracks = codes "tracks"
func_name risks = codes "risks"
func_name channels = codes "channels"
func_name revisions = codes "revisions"
func_name units = codes "units"

abbrev pub compare_kind : CompareOp → TokenKind
compare_kind eq = Token.eq
compare_kind ne = Token.neq
compare_kind lt = Token.lt
compare_kind le = Token.le
compare_kind gt = Token.gt
compare_kind ge = Token.ge

abbrev pub set_kind : SetOp → TokenKind
set_kind union = Token.pipe
set_kind inter = Token.amp
set_kind diff = Token.minus

abbrev pub arith_kind : ArithOp → TokenKind
arith_kind plus = Token.plus
arith_kind minus = Token.minus
arith_kind times = Token.star

unfoldable pub print_ints : List ℤ → List Token → List Token
print_ints [] rest = rest
print_ints (n ∷ ns) rest = mark Token.comma ∷ token Token.int (print_int n) ∷ print_ints ns rest

unfoldable pub print_strs : List (List ℕ) → List Token → List Token
print_strs [] rest = rest
print_strs (s ∷ ss) rest = mark Token.comma ∷ token Token.str s ∷ print_strs ss rest

-- name '[' key ']'
abbrev pub indexing : List ℕ → List ℕ → List Token → List Token
indexing name key rest = word name ∷ mark Token.lbracket ∷ word key ∷ mark Token.rbracket ∷ rest

abbrev pub close : List Token → List Token
close rest = mark Token.rparen ∷ rest

-- The tokens of the tree, in front of others.
unfoldable pub print : Expr → List Token → List Token
print (int_lit n) rest = token Token.int (print_int n) ∷ rest
print (str_lit s) rest = token Token.str s ∷ rest
print (int_set []) rest = rest
print (int_set (n ∷ ns)) rest =
    mark Token.lbrace ∷ token Token.int (print_int n) ∷ print_ints ns (mark Token.rbrace ∷ rest)
print (str_set []) rest = rest
print (str_set (s ∷ ss)) rest =
    mark Token.lbrace ∷ token Token.str s ∷ print_strs ss (mark Token.rbrace ∷ rest)
print self_set rest = mark Token.lbrace ∷ word (codes "self") ∷ mark Token.rbrace ∷ rest
print (endpoint name) rest = indexing (codes "endpoint") name rest
print (config key) rest = indexing (codes "config") key rest
print (resource key) rest = indexing (codes "resource") key rest
print (set_config key) rest =
    word (codes "set") ∷ mark Token.lparen ∷ indexing (codes "config") key (close rest)
print (set_resource key) rest =
    word (codes "set") ∷ mark Token.lparen ∷ indexing (codes "resource") key (close rest)
print (call f a) rest = word (func_name f) ∷ mark Token.lparen ∷ print a (close rest)
print (arith_op op a b) rest =
    mark Token.lparen ∷ print a (mark (arith_kind op) ∷ print b (close rest))
print (compare_op op a b) rest =
    mark Token.lparen ∷ print a (mark (compare_kind op) ∷ print b (close rest))
print (set_op op t a b) rest =
    mark Token.lparen ∷ print a (mark (set_kind op) ∷ print b (close rest))
print (in_set true a b) rest =
    mark Token.lparen ∷ print a (word (codes "not") ∷ word (codes "in") ∷ print b (close rest))
print (in_set false a b) rest =
    mark Token.lparen ∷ print a (word (codes "in") ∷ print b (close rest))
print (not_op a) rest = mark Token.lparen ∷ word (codes "not") ∷ print a (close rest)
print (and_op a b) rest = mark Token.lparen ∷ print a (word (codes "and") ∷ print b (close rest))
print (or_op a b) rest = mark Token.lparen ∷ print a (word (codes "or") ∷ print b (close rest))
print (implies_op a b) rest =
    mark Token.lparen ∷ print a (mark Token.implies ∷ print b (close rest))

-- The trees that have a text: a set in braces is not empty, no type is filled in, and a subtraction is
-- still a set operator.
abbrev pub IsSource : Expr → Type 0
IsSource (int_set []) = ⊥
IsSource (str_set []) = ⊥
IsSource (call f a) = IsSource a
IsSource (arith_op plus a b) = IsSource a × IsSource b
IsSource (arith_op times a b) = IsSource a × IsSource b
IsSource (arith_op minus a b) = ⊥
IsSource (compare_op op a b) = IsSource a × IsSource b
IsSource (set_op op t a b) = (t ≡ pending) × (IsSource a × IsSource b)
IsSource (in_set negated a b) = IsSource a × IsSource b
IsSource (not_op a) = IsSource a
IsSource (and_op a b) = IsSource a × IsSource b
IsSource (or_op a b) = IsSource a × IsSource b
IsSource (implies_op a b) = IsSource a × IsSource b
IsSource _ = Unit

-- How deep the parentheses are.
unfoldable pub depth : Expr → ℕ
depth (set_config key) = 1
depth (set_resource key) = 1
depth (call f a) = suc (depth a)
depth (arith_op op a b) = suc (depth a + depth b)
depth (compare_op op a b) = suc (depth a + depth b)
depth (set_op op t a b) = suc (depth a + depth b)
depth (in_set negated a b) = suc (depth a + depth b)
depth (not_op a) = suc (depth a)
depth (and_op a b) = suc (depth a + depth b)
depth (or_op a b) = suc (depth a + depth b)
depth (implies_op a b) = suc (suc (depth a + depth b))
depth _ = 0
