-- ===== src/BundleBuilder/Dsl/Errors.antt =====
-- The errors that the parser raises on purpose, and a rule for each step of a do block.
use charm_integration_testin.Prelude.{◌≡◌, ◌⊎◌, inl, inr, refl, Result, ok, raise, ◌>>=◌}
use charm_integration_testin.BundleBuilder.Dsl.Syntax.{
  DslError, syntax_error, type_error, index_error, out_of_fuel,
}

-- The call returns a value with the property, or raises a DSLSyntaxError or a DSLTypeError.
abbrev pub Ensures : {A : Type 0} → (A → Type 0) → Result DslError A → Type 0
Ensures P (ok a) = P a
Ensures P (raise syntax_error) = Unit
Ensures P (raise type_error) = Unit
Ensures P (raise index_error) = ⊥
Ensures P (raise out_of_fuel) = ⊥

pub Ensures->>= :
    {A B : Type 0} (P : A → Type 0) (Q : B → Type 0) (m : Result DslError A)
    (f : A → Result DslError B)
    → Ensures P m
    → ((a : A) → P a → Ensures Q (f a))
    → Ensures Q (m >>= f)
Ensures->>= P Q (ok a) f h k = k a h
Ensures->>= P Q (raise syntax_error) f h k = tt
Ensures->>= P Q (raise type_error) f h k = tt
Ensures->>= P Q (raise index_error) f h k = absurd h
Ensures->>= P Q (raise out_of_fuel) f h k = absurd h

pub Ensures-weaken :
    {A : Type 0} (P Q : A → Type 0) (m : Result DslError A)
    → ((a : A) → P a → Q a)
    → Ensures P m
    → Ensures Q m
Ensures-weaken P Q (ok a) k h = k a h
Ensures-weaken P Q (raise syntax_error) k h = tt
Ensures-weaken P Q (raise type_error) k h = tt
Ensures-weaken P Q (raise index_error) k h = absurd h
Ensures-weaken P Q (raise out_of_fuel) k h = absurd h

pub Ensures-cases :
    {A : Type 0} (P : A → Type 0) (m : Result DslError A)
    → Ensures P m
    → ((a : A) × ((m ≡ ok a) × P a)) ⊎ ((m ≡ raise syntax_error) ⊎ (m ≡ raise type_error))
Ensures-cases P (ok a) h = inl (a, (refl, h))
Ensures-cases P (raise syntax_error) h = inr (inl refl)
Ensures-cases P (raise type_error) h = inr (inr refl)
Ensures-cases P (raise index_error) h = absurd h
Ensures-cases P (raise out_of_fuel) h = absurd h
