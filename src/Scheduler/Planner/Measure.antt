-- ===== src/Scheduler/Planner/Measure.antt =====
-- The selected items that are not scheduled yet, by which the search makes progress.
use charm_integration_testin.Prelude.{
  ℕ, suc, ◌+◌, ◌≤◌, ◌<◌, ◌≡◌, refl, ap, subst, inl, inr, true, false, some, List, [], ◌∷◌, arith,
  In, length, if◌then◌else◌, Bool-cases, Option-cases,
}
use charm_integration_testin.Prelude.Dict.{get}
use charm_integration_testin.Scheduler.State.{State, state_eq, state_eq_iff}
use charm_integration_testin.Scheduler.Item.{Item, has_id}
use charm_integration_testin.Scheduler.Session.{or_empty}
use charm_integration_testin.Scheduler.Planner.{count_items}
use charm_integration_testin.Scheduler.Planner.Steps.{Includes}

unfoldable pub open_in : List ℕ → List Item → ℕ
open_in ids [] = 0
open_in ids (i ∷ is) = if has_id ids i.ident then open_in ids is else suc (open_in ids is)

unfoldable pub open_items : {K : Type 0} → List ℕ → List (K × List Item) → ℕ
open_items ids [] = 0
open_items ids ((k, items) ∷ rest) = open_in ids items + open_items ids rest

module _ (small large : List ℕ) (grows : Includes small large) where
  open_in_mono : (items : List Item) → open_in large items ≤ open_in small items
  unfolding open_in
  open_in_mono [] = omega arith
  open_in_mono (i ∷ is) = elim (Bool-cases (has_id small i.ident)) [
    | inl p ↦ rw (p, grows i.ident p) (open_in_mono is)
    | inr p ↦ elim (Bool-cases (has_id large i.ident)) [
      | inl q ↦ rw (p, q) (omega (arith, open_in_mono is))
      | inr q ↦ rw (p, q) (omega (arith, open_in_mono is))
    ]
  ]

  open_in_less :
      (items : List Item) (x : Item)
      → In x items
      → has_id small x.ident ≡ false
      → has_id large x.ident ≡ true
      → open_in large items < open_in small items
  unfolding open_in
  open_in_less [] x m p q = absurd m
  open_in_less (i ∷ is) x (inl e) p q =
      let p' : has_id small i.ident ≡ false = rw (← e) p in
      let q' : has_id large i.ident ≡ true = rw (← e) q in
      rw (p', q') (omega (arith, open_in_mono is))
  open_in_less (i ∷ is) x (inr m) p q = elim (Bool-cases (has_id small i.ident)) [
    | inl a ↦ rw (a, grows i.ident a) (open_in_less is x m p q)
    | inr a ↦ elim (Bool-cases (has_id large i.ident)) [
      | inl b ↦ rw (a, b) (omega (arith, open_in_less is x m p q))
      | inr b ↦ rw (a, b) (omega (arith, open_in_less is x m p q))
    ]
  ]

  module _ {K : Type 0} where
    pub open_items_mono : (d : List (K × List Item)) → open_items large d ≤ open_items small d
    unfolding open_items
    open_items_mono [] = omega arith
    open_items_mono ((k, items) ∷ rest) = omega (arith, open_in_mono items, open_items_mono rest)

    -- A listed item that was open and is scheduled now makes the number smaller.
    pub open_items_less :
        (d : List (K × List Item)) (k : K) (items : List Item) (x : Item)
        → In (k, items) d
        → In x items
        → has_id small x.ident ≡ false
        → has_id large x.ident ≡ true
        → open_items large d < open_items small d
    unfolding open_items
    open_items_less [] k items x m h p q = absurd m
    open_items_less ((j, js) ∷ rest) k items x (inl e) h p q =
        let h' : In x js = subst (λ y. In x y) (ap (λ (y : K × List Item). y.1) e) h in
        omega (arith, open_in_less js x h' p q, open_items_mono rest)
    open_items_less ((j, js) ∷ rest) k items x (inr m) h p q =
        omega (arith, open_in_mono js, open_items_less rest k items x m h p q)

open_in_le : (ids : List ℕ) (items : List Item) → open_in ids items ≤ length items
unfolding open_in
open_in_le ids [] = omega arith
open_in_le ids (i ∷ is) = elim (Bool-cases (has_id ids i.ident)) [
  | inl p ↦ rw p (omega (arith, open_in_le ids is))
  | inr p ↦ rw p (omega (arith, open_in_le ids is))
]

pub open_items_le :
    {K : Type 0} (ids : List ℕ) (d : List (K × List Item)) → open_items ids d ≤ count_items d
unfolding open_items count_items
open_items_le ids [] = omega arith
open_items_le ids ((k, items) ∷ rest) = omega (arith, open_in_le ids items, open_items_le ids rest)

get-In_state :
    (d : List (State × List Item)) (s : State) (items : List Item)
    → get state_eq d s ≡ some items
    → In (s, items) d
unfolding get
get-In_state [] s items h = absurd (cc)
get-In_state ((u, w) ∷ d) s items h = elim (Bool-cases (state_eq u s)) [
  | inl p ↦
      let h' : some w ≡ some items = rw p at h in
      let e : items ≡ w = cc in inl (rw (e, (state_eq_iff u s).0 p) refl)
  | inr p ↦ inr (get-In_state d s items (rw p at h))
]

-- What is read at a state is listed there.
pub pure-In :
    (d : List (State × List Item)) (s : State) (x : Item)
    → In x (or_empty (get state_eq d s))
    → (items : List Item) × In (s, items) d × In x items
pure-In d s x m = elim (Option-cases (get state_eq d s)) [
  | inl p ↦ let m' : In x [] = rw p at m in absurd m'
  | inr (items, p) ↦ (items, get-In_state d s items p, rw p at m)
]
