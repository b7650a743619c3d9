-- ===== src/BundleBuilder/Dsl/Parser/Total.antt =====
-- Whatever the tokens are, if the last one is the end, the parser ends and stays within them.
use charm_integration_testin.Prelude.{
  ℕ, zero, suc, ◌≤◌, ◌≡◌, refl, inl, inr, false, Option, none, some, List, [], ◌∷◌, arith, length,
  Bool-cases, Option-cases, ok, ◌>>=◌, codes, text_eq,
}
use charm_integration_testin.BundleBuilder.Dsl.Syntax.{
  Expr, int_set, str_set, endpoint, config, resource,
}
use charm_integration_testin.BundleBuilder.Dsl.Token
use charm_integration_testin.BundleBuilder.Dsl.Token.{
  Token, TokenKind, eof, is_kind, is_ident, kind_rank,
}
use charm_integration_testin.BundleBuilder.Dsl.Errors.{Ensures, Ensures->>=}
use charm_integration_testin.BundleBuilder.Dsl.Parser.{
  Parser, expect, times, plus, set_operator, conjunction, disjunction, in_parens, in_brackets,
  func_named, set_of, set_call, indexed, named, Literal, literal, more_literals, same_kind,
  literal_set, all_ints, all_strs, int_literal, str_literal, braces, atom, implies_rest,
  implies_expr, parse, or_level,
}
use charm_integration_testin.BundleBuilder.Dsl.Parser.Works.{
  IsEnded, IsEnded-tail, Shrinks, Keeps, Works, Keeps-Shrinks, Shrinks-Keeps, other_kind,
  ident_kind, expect-Works, left_level-Works, compare_expr-Works, in_expr-Works, not_expr-Works,
}

module _ (m : ℕ) (next : Parser Expr) (works : Works m next) where
  -- An atom reads a token before it reads a constraint.
  in_parens-Works : Works (suc m) (in_parens next)
  unfolding in_parens
  in_parens-Works ts le end =
      Ensures->>= (Shrinks ts) (Shrinks ts) (expect Token.lparen ts) _
        (expect-Works (suc m) Token.lparen refl ts le end)
        (λ (t, a) (la, ea).
          Ensures->>= (Shrinks a) (Shrinks ts) (next a) _ (works a (omega arith) ea)
            (λ (node, b) (lb, eb).
              Ensures->>= (Shrinks b) (Shrinks ts) (expect Token.rparen b) _
                (expect-Works (length b) Token.rparen refl b (omega arith) eb)
                (λ (u, c) (lc, ec). (omega arith, ec))))

in_brackets-Works : (n : ℕ) (build : List ℕ → Expr) → Works n (in_brackets build)
unfolding in_brackets
in_brackets-Works n build ts le end =
    Ensures->>= (Shrinks ts) (Shrinks ts) (expect Token.lbracket ts) _
      (expect-Works n Token.lbracket refl ts le end)
      (λ (t, a) (la, ea).
        Ensures->>= (Shrinks a) (Shrinks ts) (expect Token.ident a) _
          (expect-Works n Token.ident refl a (omega arith) ea)
          (λ (name, b) (lb, eb).
            Ensures->>= (Shrinks b) (Shrinks ts) (expect Token.rbracket b) _
              (expect-Works n Token.rbracket refl b (omega arith) eb)
              (λ (u, c) (lc, ec). (omega arith, ec))))

set_of-ends : (e : Expr) → Ensures (λ a. Unit) (set_of e)
set_of-ends (config k) = tt
set_of-ends (resource k) = tt
set_of-ends _ = tt

literal-ends : (t : Token) → Ensures (λ l. is_kind eof t ≡ false) (literal t)
unfolding literal
literal-ends t = elim (Bool-cases (is_kind Token.int t)) [
  | inl p ↦ rw p (other_kind Token.int t refl p)
  | inr p ↦ elim (Bool-cases (is_kind Token.str t)) [
    | inl q ↦ rw (p, q) (other_kind Token.str t refl q)
    | inr q ↦ rw (p, q) tt
  ]
]

more_literals-Keeps : (ts : List Token) → IsEnded ts → Ensures (Keeps ts) (more_literals ts)
unfolding more_literals
more_literals-Keeps [] end = absurd end
more_literals-Keeps (t ∷ []) end = elim (Bool-cases (is_kind Token.comma t)) [
  | inl p ↦ let e = other_kind Token.comma t refl p in absurd (cc)
  | inr p ↦ rw p (omega arith, end)
]
more_literals-Keeps (t ∷ u ∷ ts) end = elim (Bool-cases (is_kind Token.comma t)) [
  | inr p ↦ rw p (omega arith, end)
  | inl p ↦ elim (Bool-cases (is_kind Token.rbrace u)) [
    | inl q ↦ rw (p, q) (omega arith, end)
    | inr q ↦
        rw (p, q)
          (Ensures->>= (λ l. is_kind eof u ≡ false) (Keeps (t ∷ u ∷ ts)) (literal u) _
            (literal-ends u)
            (λ l other.
              Ensures->>= (Keeps ts) (Keeps (t ∷ u ∷ ts)) (more_literals ts) _
                (more_literals-Keeps ts (IsEnded-tail u ts other end))
                (λ (ls, rest) (le, ended). (omega arith, ended))))
  ]
]

same_kind-ends :
    {A : Type 0} (build : A → Expr) (o : Option A) → Ensures (λ e. Unit) (same_kind build o)
same_kind-ends build none = tt
same_kind-ends build (some a) = tt

literal_set-ends : (l : Literal) (ls : List Literal) → Ensures (λ e. Unit) (literal_set l ls)
unfolding literal_set
literal_set-ends (int_literal n) ls = same_kind-ends int_set (all_ints (int_literal n ∷ ls))
literal_set-ends (str_literal s) ls = same_kind-ends str_set (all_strs (str_literal s ∷ ls))

braces-Works : (n : ℕ) → Works n braces
unfolding braces
braces-Works n [] le end = absurd end
braces-Works n (t ∷ ts) le end = elim (Bool-cases (is_ident (codes "self") t)) [
  | inl p ↦
      let rest = IsEnded-tail t ts (ident_kind (codes "self") t p) end in
      rw p (
        Ensures->>= (Shrinks ts) (Shrinks (t ∷ ts)) (expect Token.rbrace ts) _
          (expect-Works (length ts) Token.rbrace refl ts (omega arith) rest)
          (λ (u, a) (la, ea). (omega arith, ea)))
  | inr p ↦ rw p (
      Ensures->>= (λ l. is_kind eof t ≡ false) (Shrinks (t ∷ ts)) (literal t) _ (literal-ends t)
        (λ l other.
          Ensures->>= (Keeps ts) (Shrinks (t ∷ ts)) (more_literals ts) _
            (more_literals-Keeps ts (IsEnded-tail t ts other end))
            (λ (ls, a) (la, ea).
              Ensures->>= (Shrinks a) (Shrinks (t ∷ ts)) (expect Token.rbrace a) _
                (expect-Works (length a) Token.rbrace refl a (omega arith) ea)
                (λ (u, b) (lb, eb).
                  Ensures->>= (λ e. Unit) (Shrinks (t ∷ ts)) (literal_set l ls) _
                    (literal_set-ends l ls) (λ node k. (omega arith, eb))))))
]

indexed-Works : (n : ℕ) (name : List ℕ) → Works n (indexed name)
unfolding indexed
indexed-Works n name ts le end = elim (Bool-cases (text_eq name (codes "endpoint"))) [
  | inl p ↦ rw p (in_brackets-Works n endpoint ts le end)
  | inr p ↦ elim (Bool-cases (text_eq name (codes "config"))) [
    | inl q ↦ rw (p, q) (in_brackets-Works n config ts le end)
    | inr q ↦ elim (Bool-cases (text_eq name (codes "resource"))) [
      | inl r ↦ rw (p, q, r) (in_brackets-Works n resource ts le end)
      | inr r ↦ rw (p, q, r) tt
    ]
  ]
]

module _ (m : ℕ) (constraint : Parser Expr) (works : Works m constraint) where
  set_call-Works : Works m (set_call constraint)
  unfolding set_call
  set_call-Works ts le end =
      Ensures->>= (Shrinks ts) (Shrinks ts) (in_parens constraint ts) _
        (in_parens-Works m constraint works ts (omega arith) end)
        (λ (arg, rest) k.
          Ensures->>= (λ e. Unit) (Shrinks ts) (set_of arg) _ (set_of-ends arg) (λ node u. k))

  named-Works : (name : List ℕ) → Works m (named constraint name)
  unfolding named
  named-Works name ts le end = elim (Option-cases (func_named name)) [
    | inr (f, p) ↦ rw p (
        Ensures->>= (Shrinks ts) (Shrinks ts) (in_parens constraint ts) _
          (in_parens-Works m constraint works ts (omega arith) end) (λ (arg, rest) k. k))
    | inl p ↦ elim (Bool-cases (text_eq name (codes "set"))) [
      | inl q ↦ rw (p, q) (set_call-Works ts le end)
      | inr q ↦ rw (p, q) (indexed-Works m name ts le end)
    ]
  ]

  atom-Works : Works (suc m) (atom constraint)
  unfolding atom in_parens expect
  atom-Works [] le end = absurd end
  atom-Works (t ∷ ts) le end = elim (Bool-cases (is_kind Token.lparen t)) [
    | inl p ↦ rw p (rw p at (in_parens-Works m constraint works (t ∷ ts) le end))
    | inr p ↦ elim (Bool-cases (is_kind eof t)) [
      | inl q ↦
          let i : is_kind Token.ident t ≡ false = ground arith in
          let b : is_kind Token.lbrace t ≡ false = ground arith in
          let s : is_kind Token.str t ≡ false = ground arith in
          let n : is_kind Token.int t ≡ false = ground arith in rw (p, i, b, s, n) tt
      | inr q ↦
          let rest = IsEnded-tail t ts q end in
          let le' : length ts ≤ m = omega arith in
          elim (Bool-cases (is_kind Token.ident t)) [
            | inl i ↦
                rw (p, i)
                  (Keeps-Shrinks (t ∷ ts) ts (named constraint t.value ts) (omega arith) (
                    Shrinks-Keeps ts ts (named constraint t.value ts) (omega arith)
                      (named-Works t.value ts le' rest)))
            | inr i ↦ elim (Bool-cases (is_kind Token.lbrace t)) [
              | inl b ↦
                  rw (p, i, b)
                    (Keeps-Shrinks (t ∷ ts) ts (braces ts) (omega arith)
                      (Shrinks-Keeps ts ts (braces ts) (omega arith) (braces-Works m ts le' rest)))
              | inr b ↦ elim (Bool-cases (is_kind Token.str t)) [
                | inl s ↦ rw (p, i, b, s) (omega arith, rest)
                | inr s ↦ elim (Bool-cases (is_kind Token.int t)) [
                  | inl n ↦ rw (p, i, b, s, n) (omega arith, rest)
                  | inr n ↦ rw (p, i, b, s, n) tt
                ]
              ]
            ]
          ]
    ]
  ]

  or_level-Works : Works (suc m) (or_level constraint)
  or_level-Works =
      left_level-Works disjunction (λ t h. ground arith) (suc m) _
        (left_level-Works conjunction (λ t h. ground arith) (suc m) _
          (not_expr-Works (suc m) _ (
            in_expr-Works (suc m) _ (
              compare_expr-Works (suc m) _ (
                left_level-Works set_operator (λ t h. ground arith) (suc m) _
                  (left_level-Works plus (λ t h. ground arith) (suc m) _
                    (left_level-Works times (λ t h. ground arith) (suc m) _ atom-Works)))))))

  implies_rest-Keeps :
      (left : Expr) (ts : List Token)
      → length ts ≤ m
      → IsEnded ts
      → Ensures (Keeps ts) (implies_rest constraint left ts)
  unfolding implies_rest
  implies_rest-Keeps left [] le end = absurd end
  implies_rest-Keeps left (t ∷ ts) le end = elim (Bool-cases (is_kind Token.implies t)) [
    | inr p ↦ rw p (omega arith, end)
    | inl p ↦
        let rest = IsEnded-tail t ts (other_kind Token.implies t refl p) end in
        rw p (
          Ensures->>= (Shrinks ts) (Keeps (t ∷ ts)) (constraint ts) _ (works ts (omega arith) rest)
            (λ (right, us) (shorter, ended). (omega arith, ended)))
  ]

-- The fuel of one for each token is enough.
implies_expr-Works : (fuel : ℕ) → Works fuel (implies_expr fuel)
unfolding implies_expr
implies_expr-Works zero [] le end = absurd end
implies_expr-Works zero (t ∷ ts) le end = absurd (omega arith)
implies_expr-Works (suc fuel) ts le end =
    let works = implies_expr-Works fuel in
    Ensures->>= (Shrinks ts) (Shrinks ts) (or_level (implies_expr fuel) ts) _
      (or_level-Works fuel (implies_expr fuel) works ts le end)
      (λ (left, us) (shorter, ended).
        Keeps-Shrinks ts us (implies_rest (implies_expr fuel) left us) shorter
          (implies_rest-Keeps fuel (implies_expr fuel) works left us (omega arith) ended))

end_expected :
    (node : Expr) (us : List Token)
    → IsEnded us
    → Ensures (λ e. Unit) (expect eof us >>= λ r. ok node)
unfolding expect
end_expected node [] end = absurd end
end_expected node (t ∷ us) end = elim (Bool-cases (is_kind eof t)) [
  | inl p ↦ rw p tt
  | inr p ↦ rw p tt
]

-- Behind the last token the parser does not read.
pub parse-ends : (ts : List Token) → IsEnded ts → Ensures (λ e. Unit) (parse ts)
unfolding parse expect
parse-ends ts end =
    Ensures->>= (Shrinks ts) (λ e. Unit) (implies_expr (length ts) ts) _
      (implies_expr-Works (length ts) ts (omega arith) end)
      (λ (node, us) (shorter, ended). end_expected node us ended)
