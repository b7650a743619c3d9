-- ===== src/Scheduler/State.antt =====
-- charm_integration_testing/test_suite/scheduler/states.py: the canonical environment states.
-- `State` subclasses `str`, so members are compared and sorted as their values are.
use charm_integration_testin.Prelude.{
  ℕ, String, ◌≡◌, refl, sym, ◌∙◌, ◌↔◌, ap, Bool, true, false, ◌&&◌, ◌||◌, Option, none, some, List,
  [], ◌∷◌, ltb, ◌==◌, if◌then◌else◌, eq_iff, Bool-cases, inl, inr, str_eq, codes,
}

pub data State : Type 0 where
  no_bundle no_controller no_model empty_model deployed deployed_ha neighbor_only : State
  deployed_with_old_revision deployed_with_upgraded_controller : State

unfoldable pub value : State → String
value no_bundle = "no_bundle"
value no_controller = "no_controller"
value no_model = "no_model"
value empty_model = "empty_model"
value deployed = "deployed"
value deployed_ha = "deployed_ha"
value neighbor_only = "neighbor_only"
value deployed_with_old_revision = "deployed_with_old_revision"
value deployed_with_upgraded_controller = "deployed_with_upgraded_controller"

pub all_states : List State
all_states =
    no_bundle ∷ no_controller ∷ no_model ∷ empty_model ∷ deployed ∷ deployed_ha ∷ neighbor_only
    ∷ deployed_with_old_revision ∷ deployed_with_upgraded_controller ∷ []

-- `State(raw)`: the member with this value; Python raises a ValueError where this is `none`.
unfoldable pub lookup_state : String → List State → Option State
lookup_state raw [] = none
lookup_state raw (s ∷ rest) = if str_eq raw (value s) then some s else lookup_state raw rest

unfoldable pub of_value : String → Option State
unfolding lookup_state all_states value
of_value raw = lookup_state raw all_states

-- Python compares strings by their code points, the first difference deciding.
unfoldable pub lexicographic_lt : List ℕ → List ℕ → Bool
lexicographic_lt xs [] = false
lexicographic_lt [] (y ∷ ys) = true
lexicographic_lt (x ∷ xs) (y ∷ ys) = ltb x y || (x == y && lexicographic_lt xs ys)

-- `a == b` and `a < b` of two members, which are those of their values.
unfoldable pub state_eq : State → State → Bool
unfolding value
state_eq a b = str_eq (value a) (value b)

unfoldable pub state_lt : State → State → Bool
unfolding value codes lexicographic_lt
state_lt a b = lexicographic_lt (codes (value a)) (codes (value b))

abbrev pub sorted_states : List State
sorted_states =
    deployed ∷ deployed_ha ∷ deployed_with_old_revision ∷ deployed_with_upgraded_controller
    ∷ empty_model ∷ neighbor_only ∷ no_bundle ∷ no_controller ∷ no_model ∷ []

-- The value of a state is read back as that state.
pub of_value-value : (s : State) → of_value (value s) ≡ some s
unfolding of_value value
of_value-value no_bundle = refl
of_value-value _ = refl

some_inj : {a b : State} → some a ≡ some b → a ≡ b
some_inj h = cc

value-injective : (a b : State) → value a ≡ value b → a ≡ b
value-injective a b h = some_inj (sym (of_value-value a) ∙ ap of_value h ∙ of_value-value b)

pub state_eq_iff : (a b : State) → (state_eq a b ≡ true) ↔ (a ≡ b)
unfolding state_eq
state_eq_iff a b = (
  λ h. value-injective a b ((eq_iff (value a) (value b)).0 h),
  λ e. (eq_iff (value a) (value b)).1 (ap value e),
)

pub state_eq_refl : (a : State) → state_eq a a ≡ true
state_eq_refl a = (state_eq_iff a a).1 refl

pub state_eq-sym : (a b : State) → state_eq a b ≡ state_eq b a
state_eq-sym a b = elim (Bool-cases (state_eq a b)) [
  | inl p ↦ p ∙ sym ((state_eq_iff b a).1 (sym ((state_eq_iff a b).0 p)))
  | inr p ↦ elim (Bool-cases (state_eq b a)) [
    | inl q ↦ absurd (let r = (state_eq_iff a b).1 (sym ((state_eq_iff b a).0 q)) in cc)
    | inr q ↦ p ∙ sym q
  ]
]
