-- ===== src/Prelude/Raising.antt =====
-- The result of a call that may raise, with the monad's operations.
use mathlib.Core.Path.{◌≡◌, refl}

pub data Result (E A : Type 0) : Type 0 where
  raise : E → Result E A
  ok : A → Result E A

infixl 5 ◌>>=◌
abbrev pub ◌>>=◌ : {E A B : Type 0} → Result E A → (A → Result E B) → Result E B
raise problem >>= next = raise problem
ok value >>= next = next value

-- A chain that returns has passed through a value.
pub >>=-passes :
    {E A B : Type 0} (step : Result E A) (next : A → Result E B) {last : B}
    → (step >>= next) ≡ ok last
    → (value : A) × (step ≡ ok value) × (next value ≡ ok last)
>>=-passes (raise problem) next passed = cc
>>=-passes (ok value) next passed = (value, refl, passed)
