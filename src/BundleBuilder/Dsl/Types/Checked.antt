-- ===== src/BundleBuilder/Dsl/Types/Checked.antt =====
-- constraints_dsl.py: `_check_types` against the typing rules.
use charm_integration_testin.Prelude.{
  Decides, Decides-and, Decides-or, ◌≡◌, refl, sym, ap, ◌∙◌, subst, ◌⊎◌, inl, inr, Bool, true,
  false, ◌&&◌, ◌||◌, Bool-cases, Result, ok, raise, ◌>>=◌,
}
use charm_integration_testin.BundleBuilder.Dsl.Syntax.{
  DslError, syntax_error, type_error, index_error, out_of_fuel, DslType, int, bool, runtime,
  type_eq, Expr, call, arith_op, compare_op, set_op, in_set, not_op, and_op, or_op, implies_op,
  dsl_type, SetOp,
}
use charm_integration_testin.BundleBuilder.Dsl.Types.{
  is_type, is_set_type, accepts, both_int, comparable, contains_type, guard, check_set_op,
  check_types,
}
use charm_integration_testin.BundleBuilder.Dsl.Types.Rules.{
  HasType, IsSetType, IsTyped, IsDocumented, resolve,
}
use charm_integration_testin.BundleBuilder.Dsl.Types.Rewritten.{rewritten, rewrite, rewrite-resolve}
use charm_integration_testin.BundleBuilder.Dsl.Errors.{Ensures}
use charm_integration_testin.BundleBuilder.Dsl.Types.Decided.{
  Decides-type_eq, Decides-accepts, Decides-both_int, Decides-is_set_type, Decides-comparable,
  Decides-contains_type,
}

-- The call returns the given tree, which has the property, or raises a DSLTypeError, and it has not.
abbrev pub Answers : Expr → Type 0 → Result DslError Expr → Type 0
Answers e P (ok a) = (a ≡ e) × P
Answers e P (raise type_error) = ¬ P
Answers e P (raise syntax_error) = ⊥
Answers e P (raise index_error) = ⊥
Answers e P (raise out_of_fuel) = ⊥

-- An operand is checked first.
Answers->>= :
    (e r : Expr) (P Q : Type 0) (m : Result DslError Expr) (f : Expr → Result DslError Expr)
    → Answers e P m
    → (Q → P)
    → (P → Answers r Q (f e))
    → Answers r Q (m >>= f)
Answers->>= e r P Q (ok a) f (same, p) back k = subst (λ b. Answers r Q (f b)) (sym same) (k p)
Answers->>= e r P Q (raise type_error) f h back k = λ q. h (back q)
Answers->>= e r P Q (raise syntax_error) f h back k = absurd h
Answers->>= e r P Q (raise index_error) f h back k = absurd h
Answers->>= e r P Q (raise out_of_fuel) f h back k = absurd h

-- The test of the operands comes last.
Answers-guard :
    (b : Bool) (r : Expr) (C Q : Type 0) → Decides b C → (Q → C) → (C → Q) → Answers r Q (guard b r)
Answers-guard true r C Q (f, g) back forth = (refl, forth (f refl))
Answers-guard false r C Q (f, g) back forth = λ q. absurd (let p = g (back q) in cc)

-- The answer that the typing rules give for a tree.
abbrev Agrees : Expr → Result DslError Expr → Type 0
Agrees e m = Answers (rewrite e) (IsTyped (rewrite e)) m

module _ (a : Expr) (h : Agrees a (check_types a)) where
  unary :
      (build : Expr → Expr) (b : Expr → Bool) (C : Type 0)
      → Decides (b (rewrite a)) C
      → Answers
          (build (rewrite a))
          (IsTyped (rewrite a) × C)
          (check_types a >>= λ a'. guard (b a') (build a'))
  unary build b C d =
      Answers->>= (rewrite a) _ (IsTyped (rewrite a)) _ (check_types a) _ h (λ q. q.0)
        (λ p. Answers-guard (b (rewrite a)) _ C _ d (λ q. q.1) (λ c. (p, c)))

  module _ (b : Expr) (k : Agrees b (check_types b)) where
    operands :
        (f : Expr → Expr → Result DslError Expr) (r : Expr) (Q : Type 0)
        → (Q → IsTyped (rewrite a) × IsTyped (rewrite b))
        → (IsTyped (rewrite a) → IsTyped (rewrite b) → Answers r Q (f (rewrite a) (rewrite b)))
        → Answers r Q (check_types a >>= λ a'. check_types b >>= λ b'. f a' b')
    operands f r Q back last =
        Answers->>= (rewrite a) r (IsTyped (rewrite a)) _ (check_types a) _ h (λ q. (back q).0)
          (λ p.
            Answers->>= (rewrite b) r (IsTyped (rewrite b)) _ (check_types b) _ k (λ q. (back q).1)
              (λ q. last p q))

    binary :
        (build : Expr → Expr → Expr) (t : Expr → Expr → Bool) (C : Type 0)
        → Decides (t (rewrite a) (rewrite b)) C
        → Answers
            (build (rewrite a) (rewrite b))
            (IsTyped (rewrite a) × (IsTyped (rewrite b) × C))
            (check_types a >>= λ a'. check_types b >>= λ b'. guard (t a' b') (build a' b'))
    binary build t C d =
        operands (λ a' b'. guard (t a' b') (build a' b')) (build (rewrite a) (rewrite b)) _
          (λ (p, (q, c)). (p, q))
          (λ p q. Answers-guard (t (rewrite a) (rewrite b)) _ C _ d (λ w. w.1.1) (λ c. (p, (q, c))))

    both_bool :
        (build : Expr → Expr → Expr)
        → Answers
            (build (rewrite a) (rewrite b))
            (IsTyped (rewrite a)
              × (IsTyped (rewrite b) × (HasType (rewrite a) bool × HasType (rewrite b) bool)))
            (check_types a >>= λ a'.
              check_types b >>= λ b'. guard (is_type bool a' && is_type bool b') (build a' b'))
    both_bool build =
        binary build (λ a' b'. is_type bool a' && is_type bool b') _
          (Decides-and (is_type bool (rewrite a)) (is_type bool (rewrite b))
            (Decides-type_eq (dsl_type (rewrite a)) bool)
            (Decides-type_eq (dsl_type (rewrite b)) bool))

rewritten-operands : (op : SetOp) (a b : Expr) → IsTyped (rewritten op a b) → IsTyped a × IsTyped b
rewritten-operands op a b = elim (Bool-cases (both_int (dsl_type a) (dsl_type b))) [
  | inl p ↦ rw p (λ (u, (v, w)). (u, v))
  | inr p ↦ rw p (λ (u, (v, w)). (u, v))
]

check_set_op-Answers :
    (op : SetOp) (a b : Expr)
    → IsTyped a
    → IsTyped b
    → Answers (rewritten op a b) (IsTyped (rewritten op a b)) (check_set_op op a b)
unfolding check_set_op
check_set_op-Answers op a b ta tb = elim (Bool-cases (both_int (dsl_type a) (dsl_type b))) [
  | inl p ↦ let (f, g) = Decides-both_int (dsl_type a) (dsl_type b) in rw p (refl, (ta, (tb, f p)))
  | inr p ↦
      let d =
        Decides-and (is_set_type (dsl_type a) && is_set_type (dsl_type b))
          (type_eq (dsl_type a) (dsl_type b))
          (Decides-and (is_set_type (dsl_type a)) (is_set_type (dsl_type b))
            (Decides-is_set_type (dsl_type a)) (Decides-is_set_type (dsl_type b)))
          (Decides-type_eq (dsl_type a) (dsl_type b)) in
      rw p (
        Answers-guard
          ((is_set_type (dsl_type a) && is_set_type (dsl_type b))
            && type_eq (dsl_type a) (dsl_type b))
          _ _ _ d (λ (u, (v, (s, (r, q)))). ((s, subst IsSetType (sym q) s), sym q))
          (λ ((s, t), q). (ta, (tb, (s, (refl, sym q))))))
]

-- The checker returns exactly the well-typed trees, with the types of their set operators.
check_types-Agrees : (e : Expr) → Agrees e (check_types e)
unfolding check_types rewrite
check_types-Agrees (call f a) =
    unary a (check_types-Agrees a) (call f) (accepts f) _ (Decides-accepts f (rewrite a))
check_types-Agrees (arith_op op a b) =
    binary a (check_types-Agrees a) b (check_types-Agrees b) (arith_op op)
      (λ a' b'. is_type int a' && is_type int b') _
      (Decides-both_int (dsl_type (rewrite a)) (dsl_type (rewrite b)))
check_types-Agrees (compare_op op a b) =
    binary a (check_types-Agrees a) b (check_types-Agrees b) (compare_op op)
      (λ a' b'. comparable op (dsl_type a') (dsl_type b')) _
      (Decides-comparable op (dsl_type (rewrite a)) (dsl_type (rewrite b)))
check_types-Agrees (set_op op t a b) =
    operands a (check_types-Agrees a) b (check_types-Agrees b) (check_set_op op)
      (rewritten op (rewrite a) (rewrite b)) _ (rewritten-operands op (rewrite a) (rewrite b))
      (check_set_op-Answers op (rewrite a) (rewrite b))
check_types-Agrees (in_set negated a b) =
    binary a (check_types-Agrees a) b (check_types-Agrees b) (in_set negated)
      (λ a' b'. contains_type (dsl_type a') (dsl_type b')) _
      (Decides-contains_type (dsl_type (rewrite a)) (dsl_type (rewrite b)))
check_types-Agrees (not_op a) =
    unary a (check_types-Agrees a) not_op (λ a'. is_type bool a' || is_type runtime a') _
      (Decides-or (is_type bool (rewrite a)) (is_type runtime (rewrite a))
        (Decides-type_eq (dsl_type (rewrite a)) bool)
        (Decides-type_eq (dsl_type (rewrite a)) runtime))
check_types-Agrees (and_op a b) = both_bool a (check_types-Agrees a) b (check_types-Agrees b) and_op
check_types-Agrees (or_op a b) = both_bool a (check_types-Agrees a) b (check_types-Agrees b) or_op
check_types-Agrees (implies_op a b) =
    both_bool a (check_types-Agrees a) b (check_types-Agrees b) implies_op
check_types-Agrees _ = (refl, tt)

check_types-rewrite :
    (e : Expr)
    → ((check_types e ≡ ok (rewrite e)) × IsTyped (rewrite e))
      ⊎ ((check_types e ≡ raise type_error) × (¬ IsTyped (rewrite e)))
check_types-rewrite e = read_answer (check_types e) (check_types-Agrees e)
  where
    read_answer :
        (m : Result DslError Expr)
        → Agrees e m
        → ((m ≡ ok (rewrite e)) × IsTyped (rewrite e))
          ⊎ ((m ≡ raise type_error) × (¬ IsTyped (rewrite e)))
    read_answer (ok a) (same, p) = inl (ap ok same, p)
    read_answer (raise type_error) h = inr (refl, h)
    read_answer (raise syntax_error) h = absurd h
    read_answer (raise index_error) h = absurd h
    read_answer (raise out_of_fuel) h = absurd h

-- In a tree without `&` and `|` between two integers, which the code takes for subtractions: the
-- checker raises a DSLTypeError just when the tree, with each minus sign between integers read as a
-- subtraction and the types of its other set operators filled in, breaks a typing rule. Otherwise it
-- returns that tree.
pub check_types-resolve :
    (e : Expr)
    → IsDocumented e
    → ((check_types e ≡ ok (resolve e)) × IsTyped (resolve e))
      ⊎ ((check_types e ≡ raise type_error) × (¬ IsTyped (resolve e)))
check_types-resolve e h = rw (← rewrite-resolve e h) (check_types-rewrite e)

set_type-other : (t : DslType) → IsSetType t → both_int t t ≡ false
set_type-other int h = absurd (cc)
set_type-other _ h = refl

-- A typed tree has its types already.
rewrite-IsTyped : (e : Expr) → IsTyped e → rewrite e ≡ e
unfolding rewrite
rewrite-IsTyped (call f a) (p, q) = ap (call f) (rewrite-IsTyped a p)
rewrite-IsTyped (arith_op op a b) (p, (q, r)) = rw (rewrite-IsTyped a p, rewrite-IsTyped b q) refl
rewrite-IsTyped (compare_op op a b) (p, (q, r)) = rw (rewrite-IsTyped a p, rewrite-IsTyped b q) refl
rewrite-IsTyped (set_op op t a b) (p, (q, (s, (u, v)))) =
    rw (rewrite-IsTyped a p, rewrite-IsTyped b q, u, v, set_type-other t s) refl
rewrite-IsTyped (in_set negated a b) (p, (q, r)) =
    rw (rewrite-IsTyped a p, rewrite-IsTyped b q) refl
rewrite-IsTyped (not_op a) (p, q) = ap not_op (rewrite-IsTyped a p)
rewrite-IsTyped (and_op a b) (p, (q, r)) = rw (rewrite-IsTyped a p, rewrite-IsTyped b q) refl
rewrite-IsTyped (or_op a b) (p, (q, r)) = rw (rewrite-IsTyped a p, rewrite-IsTyped b q) refl
rewrite-IsTyped (implies_op a b) (p, (q, r)) = rw (rewrite-IsTyped a p, rewrite-IsTyped b q) refl
rewrite-IsTyped _ p = refl

-- The tree that the checker returns is typed, and the checker returns it as it is.
pub check_types-check_types :
    (e a : Expr) → check_types e ≡ ok a → IsTyped a × (check_types a ≡ ok a)
check_types-check_types e a h =
    let (same, p) : (a ≡ rewrite e) × IsTyped (rewrite e) = rw h at (check_types-Agrees e) in
    let typed = subst IsTyped (sym same) p in
    (
      typed,
      elim (check_types-rewrite a) [
        | inl (q, r) ↦ q ∙ ap ok (rewrite-IsTyped a typed)
        | inr (q, n) ↦ absurd (n (subst IsTyped (sym (rewrite-IsTyped a typed)) typed))
      ],
    )

pub check_types-ends : (e : Expr) → Ensures IsTyped (check_types e)
check_types-ends e = elim (check_types-rewrite e) [ inl (p, q) ↦ rw p q | inr (p, n) ↦ rw p tt ]
