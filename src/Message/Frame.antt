-- ===== src/Message/Frame.antt =====
-- The bytes that a length prefixed message puts on the wire
-- (include/liblinuxpp/length_prefixed_message.hpp).
use mathlib.Core.List.{append-nil}
use liblinuxpp.Prelude.{
  ℕ, ◌/◌, ◌*◌, ◌%◌, ◌^◌, ◌<◌, ◌≤◌, ◌≡◌, refl, sym, ap, ◌∙◌, ◌↔◌, List, [], ◌∷◌, ◌++◌, none, some,
  map, length, take, length-append, length-take, arith, All,
}
use liblinuxpp.Message.{
  Iovec, make_iovec, make_iovec_array, gather, uint16, size_t, accumulate, length_iovec,
  message_buffer, message_vector, message_array, copy_to, indeterminate,
}
use liblinuxpp.Message.Laws.{total, accumulate-mod}

-- Network byte order, as ndgpp::network_byte_order documents it: the high byte first.
pub record IsNetworkOrder (order : ℕ → List ℕ) : Type 0 where
  pub big_endian : (n : ℕ) → n < 2 ^ 16 → order n ≡ n / 256 ∷ n % 256 ∷ []

-- A buffer holds the bytes that its iovec counts.
abbrev pub IsBacked : Iovec → Type 0
IsBacked v = v.len ≤ length v.base

-- The wire format: the length in two bytes, and the message.
abbrev pub frame : List ℕ → List ℕ
frame msg = length msg / 256 ∷ length msg % 256 ∷ msg

take-all : (xs : List ℕ) → take (length xs) xs ≡ xs
take-all [] = refl
take-all (x ∷ xs) = ap (λ l. x ∷ l) (take-all xs)

length-gather : (vs : List Iovec) → All IsBacked vs → length (gather vs) ≡ total vs
length-gather [] a = refl
length-gather (v ∷ vs) a = omega (
  arith,
  length-append (take v.len v.base) (gather vs),
  length-take v.len v.base,
  length-gather vs a.1,
)

head-eq : {a b : ℕ} {xs ys : List ℕ} → ◌≡◌ {A = List ℕ} (a ∷ xs) (b ∷ ys) → a ≡ b
head-eq e = cc

second-eq : {a b c d : ℕ} {xs ys : List ℕ} → ◌≡◌ {A = List ℕ} (a ∷ c ∷ xs) (b ∷ d ∷ ys) → c ≡ d
second-eq e = cc

module _ (order : ℕ → List ℕ) (net : IsNetworkOrder order) where
  gather-length_iovec :
      (v : Iovec) (n : ℕ) (vs : List Iovec)
      → n < 2 ^ 16
      → gather (length_iovec order v n ∷ vs) ≡ n / 256 ∷ n % 256 ∷ gather vs
  unfolding make_iovec
  gather-length_iovec v n vs h = rw (net.big_endian n h) refl

  -- With lengths in network byte order, a message of fewer than 2 ^ 16 bytes from one buffer is
  -- sent as its frame.
  pub message_buffer-frame :
      (v : Iovec) (msg : List ℕ)
      → length msg < 2 ^ 16
      → gather (message_buffer order v msg (length msg)) ≡ frame msg
  unfolding message_buffer make_iovec_array
  message_buffer-frame v msg h =
      rw (net.big_endian (length msg) h)
        (ap (λ l. length msg / 256 ∷ length msg % 256 ∷ l) (append-nil _ ∙ counted))
    where
      counted : take (size_t (1 * length msg)) msg ≡ msg
      counted = ap (λ n. take n msg) (omega arith) ∙ take-all msg

  -- A message from several buffers is sent as all their bytes, behind a prefix that is their number
  -- modulo 2 ^ 16.
  pub message_vector-gather :
      (v : Iovec) (vs : List Iovec)
      → All IsBacked vs
      → let n = length (gather vs) % 2 ^ 16 in
        gather (message_vector order v vs).1 ≡ n / 256 ∷ n % 256 ∷ gather vs
  unfolding message_vector
  message_vector-gather v vs a =
      gather-length_iovec v (uint16 (accumulate vs)) vs (omega arith)
      ∙ ap (λ n. n / 256 ∷ n % 256 ∷ gather vs)
          (omega (arith, accumulate-mod vs, length-gather vs a))

  -- With lengths in network byte order, a message from several buffers that hold the bytes they
  -- count is sent as the frame of its bytes exactly when these are fewer than 2 ^ 16.
  pub message_vector-frame :
      (v : Iovec) (vs : List Iovec)
      → All IsBacked vs
      → (gather (message_vector order v vs).1 ≡ frame (gather vs)) ↔ (length (gather vs) < 2 ^ 16)
  message_vector-frame v vs a = (
    λ e. omega (
      arith,
      head-eq (sym (message_vector-gather v vs a) ∙ e),
      second-eq (sym (message_vector-gather v vs a) ∙ e),
    ),
    λ h. message_vector-gather v vs a ∙ ap (λ n. n / 256 ∷ n % 256 ∷ gather vs) (omega arith),
  )

copy_to-indeterminate : (vs : List Iovec) → copy_to vs (indeterminate vs) ≡ map some vs ++ none ∷ []
copy_to-indeterminate [] = refl
copy_to-indeterminate (v ∷ vs) = ap (λ l. some v ∷ l) (copy_to-indeterminate vs)

-- For at least one buffer, length_prefixed_message_array leaves the buffers from its first element
-- on, in the place of the length prefix, and never gives its last element a value.
pub message_array_lem :
    (order : ℕ → List ℕ) (v w : Iovec) (ws : List Iovec)
    → (message_array order v (w ∷ ws)).1 ≡ map some (w ∷ ws) ++ none ∷ []
unfolding message_array
message_array_lem order v w ws = ap (λ l. some w ∷ l) (copy_to-indeterminate ws)
