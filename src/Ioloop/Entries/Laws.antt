-- ===== src/Ioloop/Entries/Laws.antt =====
-- Erasing, marking and merging entries of a vector with a timer (src/ioloop.cpp).
use liblinuxpp.Prelude.{
  ℕ, ◌≤◌, ◌≡◌, refl, inl, inr, Bool-cases, ◌==◌, map, List, [], ◌∷◌, Option, none, some, All, arith,
  ltb, if◌then◌else◌,
}
use liblinuxpp.Prelude.Sorted.{IsSorted, insert, insert-IsSorted}
use liblinuxpp.Ioloop.Entries.{erase, mark, insert_all, rearm, IsArmed}

module _ {A : Type 0} (id_of due : A → ℕ) where
  erase-All :
      (k h : ℕ) (ts : List A) → All (λ t. k ≤ due t) ts → All (λ t. k ≤ due t) (erase id_of h ts)
  erase-All k h [] a = a
  erase-All k h (t ∷ ts) a = ground (arith, erase-All k h ts a.1)

  pub erase-IsSorted : (h : ℕ) (ts : List A) → IsSorted due ts → IsSorted due (erase id_of h ts)
  erase-IsSorted h [] s = s
  erase-IsSorted h (t ∷ ts) s = ground (arith, erase-IsSorted h ts s.1, erase-All (due t) h ts s.0)

  pub erase-IsArmed :
      (h : ℕ) (ts : List A) (armed : Option ℕ)
      → IsSorted due ts
      → IsArmed due ts armed
      → IsArmed due (erase id_of h ts) armed
  erase-IsArmed h [] armed s a = tt
  erase-IsArmed h (t ∷ ts) none s a = absurd a
  erase-IsArmed h (t ∷ []) (some d) s a = ground arith
  erase-IsArmed h (t ∷ u ∷ ts) (some d) s a = ground arith

  module _ (f : A → A) (same : (t : A) → due (f t) ≡ due t) where
    mark-All :
        (k h : ℕ) (ts : List A) → All (λ t. k ≤ due t) ts → All (λ t. k ≤ due t) (mark id_of f h ts)
    mark-All k h [] a = a
    mark-All k h (t ∷ ts) a = ground (arith, mark-All k h ts a.1, same t)

    pub mark-IsSorted : (h : ℕ) (ts : List A) → IsSorted due ts → IsSorted due (mark id_of f h ts)
    mark-IsSorted h [] s = s
    mark-IsSorted h (t ∷ ts) s = elim (Bool-cases (id_of t == h)) [
      | inl e ↦ rw e (rw (same t) s)
      | inr e ↦ rw e (mark-All (due t) h ts s.0, mark-IsSorted h ts s.1)
    ]

module _ {A : Type 0} (due : A → ℕ) where
  pub insert_all-IsSorted : (ps ts : List A) → IsSorted due ts → IsSorted due (insert_all due ps ts)
  insert_all-IsSorted [] ts s = s
  insert_all-IsSorted (p ∷ ps) ts s =
      insert_all-IsSorted ps (insert due p ts) (insert-IsSorted due p ts s)

  pub rearm-IsArmed : (ts : List A) (armed : Option ℕ) → IsArmed due ts (rearm due ts armed)
  rearm-IsArmed [] armed = tt
  rearm-IsArmed (t ∷ ts) armed = omega arith

  pub insert-IsArmed :
      (x t : A) (ts : List A) (armed : Option ℕ)
      → IsArmed due (t ∷ ts) armed
      → IsArmed due (insert due x (t ∷ ts)) (if ltb (due x) (due t) then some (due x) else armed)
  insert-IsArmed x t ts none a = absurd a
  insert-IsArmed x t ts (some d) a = ground arith

-- Marking an entry keeps what the mark does not touch.
pub map-mark :
    {A B : Type 0} (id_of : A → ℕ) (f : A → A) (g : A → B)
    → ((t : A) → g (f t) ≡ g t)
    → (h : ℕ) (ts : List A) → map g (mark id_of f h ts) ≡ map g ts
map-mark id_of f g same h [] = refl
map-mark id_of f g same h (t ∷ ts) = elim (Bool-cases (id_of t == h)) [
  | inl e ↦ rw e (rw (same t))
  | inr e ↦ rw e (rw (map-mark id_of f g same h ts))
]
