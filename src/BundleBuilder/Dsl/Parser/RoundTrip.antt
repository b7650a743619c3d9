-- ===== src/BundleBuilder/Dsl/Parser/RoundTrip.antt =====
-- constraints_dsl.py: `_Parser` reads a printed tree back.
use charm_integration_testin.Prelude.{
  ℕ, zero, suc, ◌+◌, ◌≤◌, ◌<◌, ◌≡◌, refl, true, false, List, [], ◌∷◌, length, ok, codes, text_eq,
  arith,
}
use charm_integration_testin.BundleBuilder.Dsl.Syntax.{
  pending, ℤ, Func, plus, minus, times, Expr, int_lit, str_lit, int_set, str_set, self_set,
  endpoint, config, set_config, resource, set_resource, call, arith_op, compare_op, set_op, in_set,
  not_op, and_op, or_op, implies_op,
}
use charm_integration_testin.BundleBuilder.Dsl.Token
use charm_integration_testin.BundleBuilder.Dsl.Token.{Token, is_ident}
use charm_integration_testin.BundleBuilder.Dsl.Parser
use charm_integration_testin.BundleBuilder.Dsl.Parser.{
  starts_in, expect, left_level, comparison, in_parens, func_named, set_of, set_call, indexed,
  named, literal, more_literals, int_literal, str_literal, all_ints, all_strs, literal_set, braces,
  atom, or_level, implies_rest, implies_expr, parse, int_of, set_operator, conjunction, disjunction,
}
use charm_integration_testin.BundleBuilder.Dsl.Parser.Printed.{
  mark, word, func_name, close, print, IsSource, depth,
}
use charm_integration_testin.BundleBuilder.Dsl.Parser.Numbers.{int_of-print_int}
use charm_integration_testin.BundleBuilder.Dsl.Parser.Climb.{
  rparen-EndsOr, implies-EndsOr, eof-EndsOr,
}
use charm_integration_testin.BundleBuilder.Dsl.Parser.Atoms.{
  print-IsPlain, func_named-func_name, int_set-reads, str_set-reads, self_set-reads, endpoint-reads,
  config-reads, resource-reads,
}
use charm_integration_testin.BundleBuilder.Dsl.Parser.Groups.{
  Operand, times-reads, plus-reads, set_op-reads, compare_op-reads, in_set-reads, not_in_set-reads,
  and_op-reads, or_op-reads, not_op-reads, alone-reads,
}
use charm_integration_testin.BundleBuilder.Dsl.Parser.Depth.{depth-print}

-- A constraint that `or` has read, in front of a closing parenthesis
closed :
    (f : ℕ) (ts : List Token) (e : Expr) (rest : List Token)
    → or_level (implies_expr f) ts ≡ ok (e, close rest)
    → implies_expr (suc f) ts ≡ ok (e, close rest)
unfolding implies_expr implies_rest
closed f ts e rest h = rw h refl

-- An atom whose constraint is read with one fuel less
in_parens-closed :
    (n f : ℕ) (ts : List Token) (e : Expr) (rest : List Token)
    → suc n ≤ f
    → ((g : ℕ) → n ≤ g → implies_expr (suc g) ts ≡ ok (e, close rest))
    → in_parens (implies_expr f) (mark Token.lparen ∷ ts) ≡ ok (e, rest)
unfolding in_parens expect
in_parens-closed n zero ts e rest bound inner = absurd (omega arith)
in_parens-closed n (suc g) ts e rest bound inner = rw (inner g (omega arith)) refl

atom-closed :
    (n f : ℕ) (ts : List Token) (e : Expr) (rest : List Token)
    → suc n ≤ f
    → ((g : ℕ) → n ≤ g → implies_expr (suc g) ts ≡ ok (e, close rest))
    → atom (implies_expr f) (mark Token.lparen ∷ ts) ≡ ok (e, rest)
unfolding atom
atom-closed n f ts e rest bound inner = in_parens-closed n f ts e rest bound inner

-- A call in front of its argument
call-closed :
    (g : Func) (n f : ℕ) (ts : List Token) (e : Expr) (rest : List Token)
    → suc n ≤ f
    → ((k : ℕ) → n ≤ k → implies_expr (suc k) ts ≡ ok (e, close rest))
    → atom (implies_expr f) (word (func_name g) ∷ mark Token.lparen ∷ ts) ≡ ok (call g e, rest)
unfolding atom named
call-closed g n f ts e rest bound inner =
    rw (func_named-func_name g, in_parens-closed n f ts e rest bound inner) refl

set-closed :
    (n f : ℕ) (ts : List Token) (e s : Expr) (rest : List Token)
    → suc n ≤ f
    → ((k : ℕ) → n ≤ k → implies_expr (suc k) ts ≡ ok (e, close rest))
    → set_of e ≡ ok s
    → atom (implies_expr f) (word (codes "set") ∷ mark Token.lparen ∷ ts) ≡ ok (s, rest)
unfolding atom named set_call func_named codes text_eq
set-closed n f ts e s rest bound inner p = rw (in_parens-closed n f ts e rest bound inner, p) refl

implies_op-reads :
    (f : ℕ) (a b : Expr) (rest : List Token)
    → Operand (suc f) a
    → Operand f b
    → implies_expr (suc (suc f)) (print a (mark Token.implies ∷ print b (close rest)))
      ≡ ok (implies_op a b, close rest)
unfolding implies_expr implies_rest
implies_op-reads f a b rest ra rb =
    rw
      (
        alone-reads (suc f) a (mark Token.implies) (print b (close rest)) implies-EndsOr ra,
        closed f (print b (close rest)) b rest
            (alone-reads f b (mark Token.rparen) rest rparen-EndsOr rb),
      )
      refl

implies_op-bound :
    (g : ℕ) (a b : Expr) (rest : List Token)
    → suc (depth a + depth b) ≤ g
    → ((f : ℕ) → depth a ≤ f → Operand f a)
    → ((f : ℕ) → depth b ≤ f → Operand f b)
    → implies_expr (suc g) (print a (mark Token.implies ∷ print b (close rest)))
      ≡ ok (implies_op a b, close rest)
implies_op-bound zero a b rest bound ra rb = absurd (omega arith)
implies_op-bound (suc f) a b rest bound ra rb =
    implies_op-reads f a b rest (ra (suc f) (omega arith)) (rb f (omega arith))

int_lit-reads :
    (c : Parser.Parser Expr) (rest : List Token) (n : ℤ)
    → atom c (print (int_lit n) rest) ≡ ok (int_lit n, rest)
unfolding atom print
int_lit-reads c rest n = rw (int_of-print_int n) refl

str_lit-reads :
    (c : Parser.Parser Expr) (rest : List Token) (t : List ℕ)
    → atom c (print (str_lit t) rest) ≡ ok (str_lit t, rest)
unfolding atom print
str_lit-reads c rest t = refl

-- set(config[key]) and set(resource[key])
set_config-reads :
    (f : ℕ) (rest : List Token) (key : List ℕ)
    → 1 ≤ f
    → atom (implies_expr f) (print (set_config key) rest) ≡ ok (set_config key, rest)
unfolding print
set_config-reads f rest key bound =
    set-closed 0 f _ (config key) (set_config key) rest bound
      (λ k l. closed k _ (config key) rest (
        alone-reads k (config key) (mark Token.rparen) rest rparen-EndsOr
          ((λ us. config-reads (implies_expr k) us key), λ us. print-IsPlain (config key) us tt)))
      refl

set_resource-reads :
    (f : ℕ) (rest : List Token) (key : List ℕ)
    → 1 ≤ f
    → atom (implies_expr f) (print (set_resource key) rest) ≡ ok (set_resource key, rest)
unfolding print
set_resource-reads f rest key bound =
    set-closed 0 f _ (resource key) (set_resource key) rest bound
      (λ k l. closed k _ (resource key) rest (
        alone-reads k (resource key) (mark Token.rparen) rest rparen-EndsOr (
          (λ us. resource-reads (implies_expr k) us key),
          λ us. print-IsPlain (resource key) us tt,
        )))
      refl

-- What the recursion knows of an operand
IsRead : Expr → Type 0
IsRead e =
    IsSource e
    → (f : ℕ) → depth e ≤ f
    → (us : List Token) → atom (implies_expr f) (print e us) ≡ ok (e, us)

operand : (e : Expr) → IsRead e → IsSource e → (f : ℕ) → depth e ≤ f → Operand f e
unfolding IsRead
operand e h s f d = (h s f d, λ us. print-IsPlain e us s)

grouped :
    (a b e : Expr) (f : ℕ) (us inner : List Token)
    → IsRead a
    → IsRead b
    → IsSource a
    → IsSource b
    → suc (depth a + depth b) ≤ f
    → ((g : ℕ) → Operand g a → Operand g b → or_level (implies_expr g) inner ≡ ok (e, close us))
    → atom (implies_expr f) (mark Token.lparen ∷ inner) ≡ ok (e, us)
grouped a b e f us inner ha hb sa sb d reads =
    atom-closed (depth a + depth b) f inner e us d (λ g bound.
      closed g inner e us
        (reads g (operand a ha sa g (omega arith)) (operand b hb sb g (omega arith))))

-- Fuel for each parenthesis around it is enough to read an atom back.
atom-print : (e : Expr) → IsRead e
unfolding IsRead depth print
atom-print (int_set []) s f d us = absurd s
atom-print (int_set (n ∷ ns)) s f d us = int_set-reads (implies_expr f) us n ns
atom-print (str_set []) s f d us = absurd s
atom-print (str_set (t ∷ ts)) s f d us = str_set-reads (implies_expr f) us t ts
atom-print (int_lit n) s f d us = int_lit-reads (implies_expr f) us n
atom-print (str_lit t) s f d us = str_lit-reads (implies_expr f) us t
atom-print self_set s f d us = self_set-reads (implies_expr f) us
atom-print (endpoint name) s f d us = endpoint-reads (implies_expr f) us name
atom-print (config key) s f d us = config-reads (implies_expr f) us key
atom-print (resource key) s f d us = resource-reads (implies_expr f) us key
atom-print (set_config key) s f d us = set_config-reads f us key d
atom-print (set_resource key) s f d us = set_resource-reads f us key d
atom-print (call g a) s f d us = call-closed g (depth a) f _ a us d (λ k bound.
    closed k _ a us
      (alone-reads k a (mark Token.rparen) us rparen-EndsOr (operand a (atom-print a) s k bound)))
atom-print (not_op a) s f d us =
    atom-closed (depth a) f _ (not_op a) us d (λ g bound.
      closed g _ (not_op a) us (not_op-reads g us a (operand a (atom-print a) s g bound)))
atom-print (implies_op a b) (sa, sb) f d us =
    atom-closed (suc (depth a + depth b)) f _ (implies_op a b) us d (λ g bound.
      implies_op-bound g a b us bound (λ k l. operand a (atom-print a) sa k l)
        (λ k l. operand b (atom-print b) sb k l))
atom-print (arith_op minus a b) s f d us = absurd s
atom-print (set_op op t a b) (p, (sa, sb)) f d us = rw p (
    grouped a b (set_op op pending a b) f us _ (atom-print a) (atom-print b) sa sb d
      (λ g ra rb. set_op-reads g us a b ra rb op))
atom-print (arith_op times a b) (sa, sb) f d us =
    grouped a b (arith_op times a b) f us _ (atom-print a) (atom-print b) sa sb d
      (λ g ra rb. times-reads g us a b ra rb)
atom-print (arith_op plus a b) (sa, sb) f d us =
    grouped a b (arith_op plus a b) f us _ (atom-print a) (atom-print b) sa sb d
      (λ g ra rb. plus-reads g us a b ra rb)
atom-print (compare_op op a b) (sa, sb) f d us =
    grouped a b (compare_op op a b) f us _ (atom-print a) (atom-print b) sa sb d
      (λ g ra rb. compare_op-reads g us a b ra rb op)
atom-print (in_set false a b) (sa, sb) f d us =
    grouped a b (in_set false a b) f us _ (atom-print a) (atom-print b) sa sb d
      (λ g ra rb. in_set-reads g us a b ra rb)
atom-print (in_set true a b) (sa, sb) f d us =
    grouped a b (in_set true a b) f us _ (atom-print a) (atom-print b) sa sb d
      (λ g ra rb. not_in_set-reads g us a b ra rb)
atom-print (and_op a b) (sa, sb) f d us =
    grouped a b (and_op a b) f us _ (atom-print a) (atom-print b) sa sb d
      (λ g ra rb. and_op-reads g us a b ra rb)
atom-print (or_op a b) (sa, sb) f d us =
    grouped a b (or_op a b) f us _ (atom-print a) (atom-print b) sa sb d
      (λ g ra rb. or_op-reads g us a b ra rb)

-- The end of the input
last : List Token
last = mark Token.eof ∷ []

implies_expr-print :
    (e : Expr) → IsSource e → (n : ℕ) → depth e < n → implies_expr n (print e last) ≡ ok (e, last)
unfolding implies_expr implies_rest last
implies_expr-print e s zero less = absurd (omega arith)
implies_expr-print e s (suc f) less =
    rw (alone-reads f e (mark Token.eof) [] eof-EndsOr (operand e (atom-print e) s f (omega arith)))
      refl

-- The tokens of any tree that the grammar has, with each operator in parentheses and the end of the
-- input behind them, are read back as the tree.
pub parse-print : (e : Expr) → IsSource e → parse (print e (mark Token.eof ∷ [])) ≡ ok e
unfolding parse expect last
parse-print e s =
    let h = depth-print e last in
    rw (implies_expr-print e s (length (print e last)) (omega arith)) refl
