-- ===== src/Prelude/Slices.antt =====
-- Taking and dropping at lengths that are sums, and across an append.
use mathlib.Core.Path.{◌≡◌, refl, sym, ap, ◌∙◌}
use mathlib.Core.List.{List, [], ◌∷◌, ◌++◌}
use Prim.Native.Nat.{ℕ, zero, suc, ◌+◌, ◌≤◌}
use native.Mathlib.Nat.{suc-add}
use native.Mathlib.Omega.{arith}
use liblinuxpp.Prelude.Lists.{length, take, drop}

module _ {ℓ} {A : Type ℓ} where
  pub take-append_le : (n : ℕ) (xs ys : List A) → n ≤ length xs → take n (xs ++ ys) ≡ take n xs
  take-append_le zero xs ys h = refl
  take-append_le (suc n) [] ys h = absurd (omega arith)
  take-append_le (suc n) (x ∷ xs) ys h = ap (λ l. x ∷ l) (take-append_le n xs ys (omega arith))

  pub drop-append_le :
      (n : ℕ) (xs ys : List A) → n ≤ length xs → drop n (xs ++ ys) ≡ drop n xs ++ ys
  drop-append_le zero xs ys h = refl
  drop-append_le (suc n) [] ys h = absurd (omega arith)
  drop-append_le (suc n) (x ∷ xs) ys h = drop-append_le n xs ys (omega arith)

  drop-nil : (n : ℕ) → drop {A = A} n [] ≡ []
  drop-nil zero = refl
  drop-nil (suc n) = refl

  take-nil : (n : ℕ) → take {A = A} n [] ≡ []
  take-nil zero = refl
  take-nil (suc n) = refl

  pub take-add : (k j : ℕ) (xs : List A) → take (k + j) xs ≡ take k xs ++ take j (drop k xs)
  take-add zero j xs = ap (λ n. take n xs) (omega arith)
  take-add (suc k) j [] = take-nil (suc k + j) ∙ sym (take-nil j)
  take-add (suc k) j (x ∷ xs) =
      ap (λ n. take n (x ∷ xs)) (suc-add k j) ∙ ap (λ l. x ∷ l) (take-add k j xs)

  pub drop-add : (k j : ℕ) (xs : List A) → drop j (drop k xs) ≡ drop (k + j) xs
  drop-add zero j xs = ap (λ n. drop n xs) (omega arith)
  drop-add (suc k) j [] = drop-nil j ∙ sym (drop-nil (suc k + j))
  drop-add (suc k) j (x ∷ xs) = drop-add k j xs ∙ ap (λ n. drop n (x ∷ xs)) (sym (suc-add k j))

  pub take-all : (n : ℕ) (xs : List A) → length xs ≤ n → take n xs ≡ xs
  take-all n [] h = take-nil n
  take-all zero (x ∷ xs) h = absurd (omega arith)
  take-all (suc n) (x ∷ xs) h = ap (λ l. x ∷ l) (take-all n xs (omega arith))

  pub drop-all : (n : ℕ) (xs : List A) → length xs ≤ n → drop n xs ≡ []
  drop-all n [] h = drop-nil n
  drop-all zero (x ∷ xs) h = absurd (omega arith)
  drop-all (suc n) (x ∷ xs) h = drop-all n xs (omega arith)
