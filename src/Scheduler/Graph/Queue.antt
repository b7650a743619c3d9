-- ===== src/Scheduler/Graph/Queue.antt =====
-- The heap of `shortest_path` as a priority queue: order, contents, and no entry twice.
use charm_integration_testin.Prelude.{
  ◌≤◌, ◌≡◌, sym, ◌⊎◌, inl, inr, true, false, List, [], ◌∷◌, arith, In, Bool-cases,
}
use charm_integration_testin.Scheduler.Graph.{Entry, entry_lt, heappush}

abbrev pub IsSorted : List Entry → Type 0
IsSorted [] = Unit
IsSorted (x ∷ xs) = ((y : Entry) → In y xs → x.0 ≤ y.0) × IsSorted xs

abbrev pub IsDistinct : List Entry → Type 0
IsDistinct [] = Unit
IsDistinct (x ∷ xs) = (¬ In x xs) × IsDistinct xs

entry_lt-le : (x e : Entry) → entry_lt x e ≡ true → x.0 ≤ e.0
unfolding entry_lt
entry_lt-le (c, s) (d, t) h = ground arith

entry_lt-ge : (x e : Entry) → entry_lt x e ≡ false → e.0 ≤ x.0
unfolding entry_lt
entry_lt-ge (c, s) (d, t) h = ground arith

pub In-heappush : (y e : Entry) (h : List Entry) → In y (heappush e h) → (y ≡ e) ⊎ In y h
unfolding heappush
In-heappush y e [] = λ m. m
In-heappush y e (x ∷ xs) = elim (Bool-cases (entry_lt x e)) [
  | inl lt ↦ rw lt λ m. elim m [
    | inl here ↦ inr (inl here)
    | inr later ↦ elim (In-heappush y e xs later) [ inl new ↦ inl new | inr old ↦ inr (inr old) ]
  ]
  | inr ge ↦ rw ge λ m. m
]

pub heappush-In : (y e : Entry) (h : List Entry) → (y ≡ e) ⊎ In y h → In y (heappush e h)
unfolding heappush
heappush-In y e [] m = m
heappush-In y e (x ∷ xs) m = elim (Bool-cases (entry_lt x e)) [
  | inl lt ↦ rw lt (elim m [
    | inl new ↦ inr (heappush-In y e xs (inl new))
    | inr old ↦ elim old [ inl here ↦ inl here | inr later ↦ inr (heappush-In y e xs (inr later)) ]
  ])
  | inr ge ↦ rw ge m
]

pub heappush-IsSorted : (e : Entry) (h : List Entry) → IsSorted h → IsSorted (heappush e h)
unfolding heappush
heappush-IsSorted e [] s = (λ y m. absurd m, tt)
heappush-IsSorted e (x ∷ xs) s = elim (Bool-cases (entry_lt x e)) [
  | inl lt ↦ rw lt (
    λ y m. elim (In-heappush y e xs m) [
      | inl new ↦ rw new (entry_lt-le x e lt)
      | inr old ↦ s.0 y old
    ],
    heappush-IsSorted e xs s.1,
  )
  | inr ge ↦ rw ge (
    λ y m. elim m [
      | inl here ↦ rw here (entry_lt-ge x e ge)
      | inr later ↦ let p = s.0 y later in let q = entry_lt-ge x e ge in omega arith
    ],
    s,
  )
]

pub heappush-IsDistinct :
    (e : Entry) (h : List Entry) → ¬ In e h → IsDistinct h → IsDistinct (heappush e h)
unfolding heappush
heappush-IsDistinct e [] new d = (λ m. m, tt)
heappush-IsDistinct e (x ∷ xs) new d = elim (Bool-cases (entry_lt x e)) [
  | inl lt ↦ rw lt (
    λ m. elim (In-heappush x e xs m) [ inl same ↦ new (inl (sym same)) | inr old ↦ d.0 old ],
    heappush-IsDistinct e xs (λ m. new (inr m)) d.1,
  )
  | inr ge ↦ rw ge (new, d)
]
