-- ===== src/Prelude/Bytes.antt =====
-- Bytes joined by `|`: `(hi << 8) | lo` is a sum. Two functions that agree on each byte, which
-- evaluation shows, are equal on bytes.
use Prim.Native.Nat.{ℕ, zero, suc, ◌+◌, ◌*◌, ◌<◌, bit_or}
use mathlib.Core.Path.{◌≡◌, refl}
use mathlib.Core.Bool.{Bool, true, false}
use native.Mathlib.Omega.{arith}
use liblinuxpp.Prelude.Tests.{◌==◌, if◌then◌else◌}

-- Do the two functions agree on the numbers below this one?
agree : (ℕ → ℕ) → (ℕ → ℕ) → ℕ → Bool
agree f g zero = true
agree f g (suc n) = let rest = agree f g n in if f n == g n then rest else false

agree-eq : (f g : ℕ → ℕ) (n x : ℕ) → agree f g n ≡ true → x < n → f x ≡ g x
unfolding agree
agree-eq f g zero x e below = absurd (omega arith)
agree-eq f g (suc n) x e below = ground (arith, agree-eq f g n x)

-- The high bytes for which `|` is a sum with every low byte, as a number: 1 or 0.
sums : ℕ → ℕ
unfolding agree
sums hi = if agree (λ lo. bit_or (hi * 256) lo) (λ lo. hi * 256 + lo) 256 then 1 else 0

all_sums : agree sums (λ hi. 1) 256 ≡ true
unfolding agree sums
all_sums = refl

sums-agree :
    (hi : ℕ) → sums hi ≡ 1 → agree (λ lo. bit_or (hi * 256) lo) (λ lo. hi * 256 + lo) 256 ≡ true
unfolding sums
sums-agree hi e = ground arith

pub bit_or_bytes : (hi lo : ℕ) → hi < 256 → lo < 256 → bit_or (hi * 256) lo ≡ hi * 256 + lo
bit_or_bytes hi lo h l =
    agree-eq (λ k. bit_or (hi * 256) k) (λ k. hi * 256 + k) 256 lo
      (sums-agree hi (agree-eq sums (λ k. 1) 256 hi all_sums h)) l

pub zero-bit_or : (hi : ℕ) → hi < 256 → bit_or 0 (hi * 256) ≡ hi * 256
unfolding agree
zero-bit_or hi h = agree-eq (λ k. bit_or 0 (k * 256)) (λ k. k * 256) 256 hi refl h
