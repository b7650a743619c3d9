-- ===== src/BundleBuilder/Dsl/Parser/Numbers.antt =====
-- constraints_dsl.py: the integer of a token that `str` has printed.
use charm_integration_testin.Prelude.{
  ℕ, zero, suc, ◌+◌, ◌*◌, ◌-◌, ◌/◌, ◌%◌, ◌<◌, ◌≤◌, ◌≡◌, ◌∙◌, refl, ap, inl, inr, false, List, [],
  ◌∷◌, ◌++◌, ltb, ◌==◌, arith, Bool-cases, decimal, decimal_digits,
}
use charm_integration_testin.BundleBuilder.Dsl.Syntax.{ℤ, pos, negsuc}
use charm_integration_testin.BundleBuilder.Dsl.Parser.{number, negated, int_of}
use charm_integration_testin.BundleBuilder.Dsl.Parser.Printed.{print_int}

number-snoc :
    (acc : ℕ) (cs : List ℕ) (d : ℕ) → number acc (cs ++ d ∷ []) ≡ number acc cs * 10 + (d - 48)
unfolding number
number-snoc acc [] d = refl
number-snoc acc (c ∷ cs) d = number-snoc (acc * 10 + (c - 48)) cs d

number-decimal_digits : (fuel n : ℕ) → n < fuel → number 0 (decimal_digits fuel n) ≡ n
unfolding number decimal_digits
number-decimal_digits zero n lt = absurd (omega arith)
number-decimal_digits (suc fuel) n lt = elim (Bool-cases (ltb n 10)) [
  | inl p ↦ rw p (omega arith)
  | inr p ↦
      let big : 10 ≤ n = ground arith in
      let front = number-decimal_digits fuel (n / 10) (omega arith) in
      rw (p, number-snoc 0 (decimal_digits fuel (n / 10)) (48 + n % 10), front) (omega arith)
]

-- No sign stands in front.
IsUnsigned : List ℕ → Type 0
IsUnsigned [] = Unit
IsUnsigned (c ∷ cs) = (c == 45) ≡ false

IsUnsigned-snoc : (cs : List ℕ) (n : ℕ) → IsUnsigned cs → IsUnsigned (cs ++ (48 + n) ∷ [])
unfolding IsUnsigned
IsUnsigned-snoc [] n h = ground arith
IsUnsigned-snoc (c ∷ cs) n h = h

decimal_digits-IsUnsigned : (fuel n : ℕ) → IsUnsigned (decimal_digits fuel n)
unfolding decimal_digits IsUnsigned
decimal_digits-IsUnsigned zero n = tt
decimal_digits-IsUnsigned (suc fuel) n = elim (Bool-cases (ltb n 10)) [
  | inl p ↦ rw p (ground arith)
  | inr p ↦ rw p (
      IsUnsigned-snoc (decimal_digits fuel (n / 10)) (n % 10)
        (decimal_digits-IsUnsigned fuel (n / 10)))
]

int_of-unsigned : (cs : List ℕ) → IsUnsigned cs → int_of cs ≡ pos (number 0 cs)
unfolding int_of IsUnsigned number
int_of-unsigned [] h = refl
int_of-unsigned (c ∷ cs) h = rw h refl

pub int_of-print_int : (n : ℤ) → int_of (print_int n) ≡ n
unfolding print_int decimal int_of number
int_of-print_int (pos n) =
    int_of-unsigned (decimal n) (decimal_digits-IsUnsigned (n + 1) n)
    ∙ ap pos (number-decimal_digits (n + 1) n (omega arith))
int_of-print_int (negsuc n) = ap negated (number-decimal_digits (suc n + 1) (suc n) (omega arith))
