-- ===== src/Prelude/Deciding.antt =====
-- Boolean tests that decide a proposition, and the connectives.
use mathlib.Core.Path.{◌≡◌, refl}
use mathlib.Core.Logic.{◌⊎◌, inl, inr}
use mathlib.Core.Bool.{Bool, true, false, not, ◌&&◌, ◌||◌}
use native.Mathlib.Omega.{arith}

-- A test says whether the proposition holds.
abbrev pub Decides : Bool → Type 0 → Type 0
Decides b P = (b ≡ true → P) × (P → b ≡ true)

module _ {P Q : Type 0} where
  pub Decides-and : (a b : Bool) → Decides a P → Decides b Q → Decides (a && b) (P × Q)
  Decides-and a b (f, g) (h, k) = (
    λ r. (f (ground arith), h (ground arith)),
    λ (p, q). let u = g p in let v = k q in ground arith,
  )

  pub Decides-or : (a b : Bool) → Decides a P → Decides b Q → Decides (a || b) (P ⊎ Q)
  Decides-or true b (f, g) (h, k) = (λ r. inl (f refl), λ r. refl)
  Decides-or false b (f, g) (h, k) =
      (λ r. inr (h r), λ r. elim r [ inl p ↦ absurd (let u = g p in cc) | inr q ↦ k q ])

  pub Decides-iff : (a : Bool) → (P → Q) → (Q → P) → Decides a P → Decides a Q
  Decides-iff a f g (h, k) = (λ r. f (h r), λ q. k (g q))

pub Decides-not : {P : Type 0} (b : Bool) → Decides b P → Decides (not b) (¬ P)
Decides-not true (f, g) = (λ r. absurd (cc), λ n. absurd (n (f refl)))
Decides-not false (f, g) = (λ r p. absurd (let u = g p in cc), λ n. refl)
