-- ===== src/BundleBuilder/Dsl/Parser/Works.antt =====
-- Each level of operators ends and stays within the tokens, if the level below it does.
use charm_integration_testin.Prelude.{
  ℕ, zero, suc, ◌≤◌, ◌<◌, ◌≡◌, inl, inr, true, false, not, ◌&&◌, Option, none, some, List, [], ◌∷◌,
  ◌==◌, arith, length, Bool-cases, Option-cases, ok, ◌>>=◌, codes,
}
use charm_integration_testin.BundleBuilder.Dsl.Syntax.{Expr, in_set}
use charm_integration_testin.BundleBuilder.Dsl.Token.{
  Token, TokenKind, eof, is_kind, is_ident, kind_rank,
}
use charm_integration_testin.BundleBuilder.Dsl.Errors.{Ensures, Ensures->>=, Ensures-weaken}
use charm_integration_testin.BundleBuilder.Dsl.Parser.{
  Parser, Reading, expect, starts_in, Build, chain, left_level, comparison, compare_rest,
  compare_expr, in_rest, in_expr, not_expr,
}

-- The last token is the end of the input.
abbrev pub IsEnded : List Token → Type 0
IsEnded [] = ⊥
IsEnded (t ∷ []) = is_kind eof t ≡ true
IsEnded (t ∷ u ∷ ts) = IsEnded (u ∷ ts)

pub IsEnded-tail :
    (t : Token) (ts : List Token) → is_kind eof t ≡ false → IsEnded (t ∷ ts) → IsEnded ts
IsEnded-tail t [] p h = absurd (cc)
IsEnded-tail t (u ∷ ts) p h = h

module _ {A : Type 0} where
  -- Some tokens were read, and the end is left.
  abbrev pub Shrinks : List Token → A × List Token → Type 0
  Shrinks ts r = (length (r.1) < length ts) × IsEnded (r.1)

  -- No token need be read.
  abbrev pub Keeps : List Token → A × List Token → Type 0
  Keeps ts r = (length (r.1) ≤ length ts) × IsEnded (r.1)

  -- On at most `n` tokens the parser ends, and reads some of them if it returns.
  abbrev pub Works : ℕ → Parser A → Type 0
  Works n p = (ts : List Token) → length ts ≤ n → IsEnded ts → Ensures (Shrinks ts) (p ts)

  -- A parser that starts where another has stopped.
  pub Keeps-Shrinks :
      (ts us : List Token) (m : Reading A)
      → length us < length ts
      → Ensures (Keeps us) m
      → Ensures (Shrinks ts) m
  Keeps-Shrinks ts us m lt h =
      Ensures-weaken (Keeps us) (Shrinks ts) m (λ a k. (omega arith, k.1)) h

  pub Shrinks-Keeps :
      (ts us : List Token) (m : Reading A)
      → length us ≤ length ts
      → Ensures (Shrinks us) m
      → Ensures (Keeps ts) m
  Shrinks-Keeps ts us m le h =
      Ensures-weaken (Shrinks us) (Keeps ts) m (λ a k. (omega arith, k.1)) h

-- The end is not an operator.
abbrev pub Misses : {A : Type 0} → (Token → Option A) → Type 0
Misses operator = (t : Token) → is_kind eof t ≡ true → operator t ≡ none

not_eof :
    {A : Type 0} (operator : Token → Option A) (t : Token) (a : A)
    → Misses operator
    → operator t ≡ some a
    → is_kind eof t ≡ false
not_eof operator t a misses h = elim (Bool-cases (is_kind eof t)) [
  | inr p ↦ p
  | inl p ↦ let e = misses t p in absurd (cc)
]

pub other_kind :
    (k : TokenKind) (t : Token)
    → (kind_rank k == 22) ≡ false
    → is_kind k t ≡ true
    → is_kind eof t ≡ false
other_kind k t p h = ground arith

pub ident_kind : (v : List ℕ) (t : Token) → is_ident v t ≡ true → is_kind eof t ≡ false
ident_kind v t h = ground arith

pub expect-Works : (n : ℕ) (k : TokenKind) → (kind_rank k == 22) ≡ false → Works n (expect k)
unfolding expect
expect-Works n k other [] le end = absurd end
expect-Works n k other (t ∷ ts) le end = elim (Bool-cases (is_kind k t)) [
  | inl p ↦ rw p (omega arith, IsEnded-tail t ts (other_kind k t other p) end)
  | inr p ↦ rw p tt
]

module _ (operator : Token → Option Build) (misses : Misses operator) (m : ℕ) (next : Parser Expr)
    (works : Works m next) where
  chain-Keeps :
      (n : ℕ) (left : Expr) (ts : List Token)
      → length ts < n
      → length ts ≤ m
      → IsEnded ts
      → Ensures (Keeps ts) (chain operator next n left ts)
  unfolding chain
  chain-Keeps zero left ts lt le end = absurd (omega arith)
  chain-Keeps (suc n) left [] lt le end = absurd end
  chain-Keeps (suc n) left (t ∷ ts) lt le end = elim (Option-cases (operator t)) [
    | inl p ↦ rw p (omega arith, end)
    | inr (build, p) ↦
        let rest = IsEnded-tail t ts (not_eof operator t build misses p) end in
        rw p (
          Ensures->>= (Shrinks ts) (Keeps (t ∷ ts)) (next ts) _ (works ts (omega arith) rest)
            (λ (right, us) (shorter, ended).
              Ensures-weaken (Keeps us) (Keeps (t ∷ ts))
                (chain operator next n (build left right) us) (λ a k. (omega arith, k.1))
                (chain-Keeps n (build left right) us (omega arith) (omega arith) ended)))
  ]

  pub left_level-Works : Works m (left_level operator next)
  unfolding left_level
  left_level-Works ts le end =
      Ensures->>= (Shrinks ts) (Shrinks ts) (next ts) _ (works ts le end)
        (λ (left, us) (shorter, ended).
          Keeps-Shrinks ts us (chain operator next (suc (length us)) left us) shorter
            (chain-Keeps (suc (length us)) left us (omega arith) (omega arith) ended))

module _ (m : ℕ) (next : Parser Expr) (works : Works m next) where
  comparison-Misses : Misses comparison
  comparison-Misses t h = ground arith

  compare_rest-Keeps :
      (left : Expr) (ts : List Token)
      → length ts ≤ m
      → IsEnded ts
      → Ensures (Keeps ts) (compare_rest next left ts)
  unfolding compare_rest
  compare_rest-Keeps left [] le end = absurd end
  compare_rest-Keeps left (t ∷ ts) le end = elim (Option-cases (comparison t)) [
    | inl p ↦ rw p (omega arith, end)
    | inr (op, p) ↦
        let rest = IsEnded-tail t ts (not_eof comparison t op comparison-Misses p) end in
        rw p (
          Ensures->>= (Shrinks ts) (Keeps (t ∷ ts)) (next ts) _ (works ts (omega arith) rest)
            (λ (right, us) (shorter, ended). (omega arith, ended)))
  ]

  pub compare_expr-Works : Works m (compare_expr next)
  unfolding compare_expr
  compare_expr-Works ts le end =
      Ensures->>= (Shrinks ts) (Shrinks ts) (next ts) _ (works ts le end)
        (λ (left, us) (shorter, ended).
          Keeps-Shrinks ts us (compare_rest next left us) shorter
            (compare_rest-Keeps left us (omega arith) ended))

  operand-Keeps :
      (build : Expr → Expr) (ts us : List Token)
      → length us < length ts
      → length us ≤ m
      → IsEnded us
      → Ensures (Keeps ts) (next us >>= λ (right, rest). ok (build right, rest))
  operand-Keeps build ts us lt le end =
      Ensures->>= (Shrinks us) (Keeps ts) (next us) _ (works us le end)
        (λ (right, vs) (shorter, ended). (omega arith, ended))

  in_rest-Keeps :
      (left : Expr) (ts : List Token)
      → length ts ≤ m
      → IsEnded ts
      → Ensures (Keeps ts) (in_rest next left ts)
  unfolding in_rest
  in_rest-Keeps left [] le end = absurd end
  in_rest-Keeps left (t ∷ []) le end = elim (Bool-cases (is_ident (codes "not") t)) [
    | inl p ↦ let e = ident_kind (codes "not") t p in absurd (cc)
    | inr p ↦ elim (Bool-cases (is_ident (codes "in") t)) [
      | inl q ↦ let e = ident_kind (codes "in") t q in absurd (cc)
      | inr q ↦ rw (p, q) (omega arith, end)
    ]
  ]
  in_rest-Keeps left (t ∷ u ∷ ts) le end =
      elim (Bool-cases (is_ident (codes "not") t && is_ident (codes "in") u)) [
        | inl p ↦
            let rest = IsEnded-tail u ts (ground arith) end in
            rw p (operand-Keeps (in_set true left) (t ∷ u ∷ ts) ts (omega arith) (omega arith) rest)
        | inr p ↦ elim (Bool-cases (is_ident (codes "in") t)) [
          | inl q ↦
              rw (p, q)
                (operand-Keeps (in_set false left) (t ∷ u ∷ ts) (u ∷ ts) (omega arith) (omega arith)
                  end)
          | inr q ↦ rw (p, q) (omega arith, end)
        ]
      ]

  pub in_expr-Works : Works m (in_expr next)
  unfolding in_expr
  in_expr-Works ts le end =
      Ensures->>= (Shrinks ts) (Shrinks ts) (next ts) _ (works ts le end)
        (λ (left, us) (shorter, ended).
          Keeps-Shrinks ts us (in_rest next left us) shorter
            (in_rest-Keeps left us (omega arith) ended))

  pub not_expr-Works : Works m (not_expr next)
  unfolding not_expr
  not_expr-Works [] le end = absurd end
  not_expr-Works (t ∷ ts) le end =
      elim (Bool-cases (is_ident (codes "not") t && not (starts_in ts))) [
        | inr p ↦ rw p (works (t ∷ ts) le end)
        | inl p ↦
            let rest = IsEnded-tail t ts (ground arith) end in
            rw p (
              Ensures->>= (Shrinks ts) (Shrinks (t ∷ ts)) (not_expr next ts) _
                (not_expr-Works ts (omega arith) rest)
                (λ (a, us) (shorter, ended). (omega arith, ended)))
      ]
