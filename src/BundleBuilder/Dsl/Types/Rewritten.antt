-- ===== src/BundleBuilder/Dsl/Types/Rewritten.antt =====
-- constraints_dsl.py: the tree that `_check_types` makes, and the tree that the rules ask for.
use charm_integration_testin.Prelude.{
  ◌≡◌, ◌⊎◌, refl, ap, inl, inr, Bool-cases, if◌then◌else◌, false,
}
use charm_integration_testin.BundleBuilder.Dsl.Syntax.{
  minus, Expr, call, arith_op, compare_op, set_op, in_set, not_op, and_op, or_op, implies_op,
  dsl_type, SetOp, union, inter, diff,
}
use charm_integration_testin.BundleBuilder.Dsl.Types.{both_int}
use charm_integration_testin.BundleBuilder.Dsl.Types.Decided.{Decides-both_int}
use charm_integration_testin.BundleBuilder.Dsl.Types.Rules.{
  BothInt, resolved, resolve, IsDocumented,
}

-- The code makes a subtraction of any set operator between two integers.
abbrev pub rewritten : SetOp → Expr → Expr → Expr
rewritten op a b =
    if both_int (dsl_type a) (dsl_type b) then arith_op minus a b else set_op op (dsl_type a) a b

unfoldable pub rewrite : Expr → Expr
rewrite (call f a) = call f (rewrite a)
rewrite (arith_op op a b) = arith_op op (rewrite a) (rewrite b)
rewrite (compare_op op a b) = compare_op op (rewrite a) (rewrite b)
rewrite (set_op op t a b) = rewritten op (rewrite a) (rewrite b)
rewrite (in_set negated a b) = in_set negated (rewrite a) (rewrite b)
rewrite (not_op a) = not_op (rewrite a)
rewrite (and_op a b) = and_op (rewrite a) (rewrite b)
rewrite (or_op a b) = or_op (rewrite a) (rewrite b)
rewrite (implies_op a b) = implies_op (rewrite a) (rewrite b)
rewrite e = e

not_both :
    (a b : Expr) → ¬ BothInt (dsl_type a) (dsl_type b) → both_int (dsl_type a) (dsl_type b) ≡ false
not_both a b n = elim (Bool-cases (both_int (dsl_type a) (dsl_type b))) [
  | inl p ↦ absurd (n ((Decides-both_int (dsl_type a) (dsl_type b)).0 p))
  | inr p ↦ p
]

rewritten-resolved :
    (op : SetOp) (a b : Expr)
    → (op ≡ diff) ⊎ (¬ BothInt (dsl_type a) (dsl_type b))
    → rewritten op a b ≡ resolved op a b
rewritten-resolved diff a b h = refl
rewritten-resolved union a b (inl e) = absurd (cc)
rewritten-resolved inter a b (inl e) = absurd (cc)
rewritten-resolved union a b (inr n) = rw (not_both a b n) refl
rewritten-resolved inter a b (inr n) = rw (not_both a b n) refl

-- They differ only in `&` and `|` between two integers.
pub rewrite-resolve : (e : Expr) → IsDocumented e → rewrite e ≡ resolve e
unfolding rewrite resolve IsDocumented
rewrite-resolve (call f a) h = ap (call f) (rewrite-resolve a h)
rewrite-resolve (arith_op op a b) (h, k) = rw (rewrite-resolve a h, rewrite-resolve b k) refl
rewrite-resolve (compare_op op a b) (h, k) = rw (rewrite-resolve a h, rewrite-resolve b k) refl
rewrite-resolve (set_op op t a b) (h, (k, d)) =
    rw (rewrite-resolve a h, rewrite-resolve b k) (rewritten-resolved op (resolve a) (resolve b) d)
rewrite-resolve (in_set negated a b) (h, k) = rw (rewrite-resolve a h, rewrite-resolve b k) refl
rewrite-resolve (not_op a) h = ap not_op (rewrite-resolve a h)
rewrite-resolve (and_op a b) (h, k) = rw (rewrite-resolve a h, rewrite-resolve b k) refl
rewrite-resolve (or_op a b) (h, k) = rw (rewrite-resolve a h, rewrite-resolve b k) refl
rewrite-resolve (implies_op a b) (h, k) = rw (rewrite-resolve a h, rewrite-resolve b k) refl
rewrite-resolve _ h = refl
