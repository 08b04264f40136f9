-- ===== src/Message/Laws.antt =====
-- What make_iovec, fill_iovec and accumulate compute (include/liblinuxpp/iovec.hpp).
use liblinuxpp.Prelude.{ℕ, ◌+◌, ◌%◌, ◌^◌, ◌<◌, ◌≡◌, refl, List, [], ◌∷◌, arith}
use liblinuxpp.Message.{
  Iovec, Buffer, bytes, elements, pair, vector, array, fill_iovec, make_iovec, accumulate_from,
  accumulate, size_t,
}

-- Making an iovec and filling one give the same, whatever the iovec held.
pub make_iovec-eq-fill_iovec : (v w : Iovec) (b : Buffer) → make_iovec v b ≡ fill_iovec w b
unfolding make_iovec fill_iovec
make_iovec-eq-fill_iovec v w (bytes buf size) = refl
make_iovec-eq-fill_iovec v w (elements buf size_of size) = refl
make_iovec-eq-fill_iovec v w (pair buf size_of size) = refl
make_iovec-eq-fill_iovec v w (vector buf size_of size) = refl
make_iovec-eq-fill_iovec v w (array buf size_of size) = refl

-- The lengths added up.
abbrev pub total : List Iovec → ℕ
total [] = 0
total (v ∷ vs) = v.len + total vs

accumulate_from-mod :
    (sum : ℕ) (vs : List Iovec) → sum < 2 ^ 32 → accumulate_from sum vs ≡ (sum + total vs) % 2 ^ 32
unfolding accumulate_from
accumulate_from-mod sum [] h = omega arith
accumulate_from-mod sum (v ∷ vs) h =
    omega (arith, accumulate_from-mod (size_t (sum + v.len) % 2 ^ 32) vs (omega arith))

-- accumulate returns the sum of the lengths modulo 2 ^ 32.
pub accumulate-mod : (vs : List Iovec) → accumulate vs ≡ total vs % 2 ^ 32
unfolding accumulate
accumulate-mod vs = omega (arith, accumulate_from-mod 0 vs)
