-- ===== src/Prelude/Sorted.antt =====
-- Lists sorted by a numeric key: the state of a vector on which std::lower_bound is called.
use Prim.Native.Nat.{ℕ, zero, suc, ◌≤◌}
use mathlib.Core.List.{List, [], ◌∷◌}
use mathlib.Core.Bool.{Bool, true, false}
use mathlib.Core.Logic.{inl, inr}
use native.Mathlib.Omega.{arith}
use liblinuxpp.Prelude.Tests.{ltb, if◌then◌else◌, Bool-cases}
use liblinuxpp.Prelude.Lists.{filter, drop, All, All-filter}

module _ {A : Type 0} (key : A → ℕ) where
  -- Every element comes before none with a smaller key.
  abbrev pub IsSorted : List A → Type 0
  IsSorted [] = Unit
  IsSorted (x ∷ xs) = All (λ y. key x ≤ key y) xs × IsSorted xs

  -- `v.insert(std::lower_bound(v.begin(), v.end(), x), x)`: before the first element that is not
  -- less than `x`.
  abbrev pub insert : A → List A → List A
  insert x [] = x ∷ []
  insert x (y ∷ ys) = if ltb (key y) (key x) then y ∷ insert x ys else x ∷ y ∷ ys

  All-insert :
      (k : ℕ) (x : A) (ys : List A)
      → k ≤ key x
      → All (λ y. k ≤ key y) ys
      → All (λ y. k ≤ key y) (insert x ys)
  All-insert k x [] h a = (h, tt)
  All-insert k x (y ∷ ys) h a = ground (arith, All-insert k x ys h a.1)

  All-le : (j k : ℕ) (ys : List A) → j ≤ k → All (λ y. k ≤ key y) ys → All (λ y. j ≤ key y) ys
  All-le j k [] h a = tt
  All-le j k (y ∷ ys) h a = (omega arith, All-le j k ys h a.1)

  pub insert-IsSorted : (x : A) (ys : List A) → IsSorted ys → IsSorted (insert x ys)
  insert-IsSorted x [] s = (tt, tt)
  insert-IsSorted x (y ∷ ys) s =
      ground (arith, insert-IsSorted x ys s.1, All-insert (key y) x ys, All-le (key x) (key y) ys)

  pub drop-IsSorted : (n : ℕ) (xs : List A) → IsSorted xs → IsSorted (drop n xs)
  drop-IsSorted zero xs s = s
  drop-IsSorted (suc n) [] s = s
  drop-IsSorted (suc n) (x ∷ xs) s = drop-IsSorted n xs s.1

  pub filter-IsSorted : (p : A → Bool) (xs : List A) → IsSorted xs → IsSorted (filter p xs)
  filter-IsSorted p [] s = s
  filter-IsSorted p (x ∷ xs) s =
      elim (p x) as (λ b. IsSorted (elim b [ true ↦ x ∷ filter p xs | false ↦ filter p xs ])) [
        | true ↦ (All-filter _ p xs s.0, filter-IsSorted p xs s.1)
        | false ↦ filter-IsSorted p xs s.1
      ]

  pub insert-All {κ} : (P : A → Type κ) (x : A) (ys : List A) → P x → All P ys → All P (insert x ys)
  insert-All P x [] h a = (h, tt)
  insert-All P x (y ∷ ys) h a = elim (Bool-cases (ltb (key y) (key x))) [
    | inl e ↦ rw e (a.0, insert-All P x ys h a.1)
    | inr e ↦ rw e (h, a)
  ]
