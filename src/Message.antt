-- ===== src/Message.antt =====
-- Scatter/gather buffers and length prefixed messages (include/liblinuxpp/iovec.hpp,
-- include/liblinuxpp/length_prefixed_message.hpp). An iov_base is given by the bytes that it points
-- to. `order` is how ndgpp::network_byte_order lays a 16 bit number out in memory.
pub mod Laws
pub mod Frame
use liblinuxpp.Prelude.{
  ℕ, zero, suc, ◌+◌, ◌*◌, ◌%◌, ◌^◌, List, [], ◌∷◌, ◌++◌, Option, none, some, map, length, take,
}

-- struct iovec.
pub record Iovec : Type 0 where
  pub base : List ℕ
  pub len : ℕ

-- What the overloads of make_iovec and fill_iovec take: raw bytes, or an array of objects of a given
-- size (a pointer with a count, a pair, a std::vector or a std::array).
pub data Buffer : Type 0 where
  bytes : List ℕ → ℕ → Buffer
  elements : List ℕ → ℕ → ℕ → Buffer
  pair : List ℕ → ℕ → ℕ → Buffer
  vector : List ℕ → ℕ → ℕ → Buffer
  array : List ℕ → ℕ → ℕ → Buffer

abbrev pub size_t : ℕ → ℕ
size_t n = n % 2 ^ 64

-- fill_iovec and fill_iovec_const: `sizeof(T) * size` where the elements have a type.
unfoldable pub fill_iovec : Iovec → Buffer → Iovec
fill_iovec v (bytes buf size) = record v { base = buf; len = size }
fill_iovec v (elements buf size_of size) = record v { base = buf; len = size_t (size_of * size) }
fill_iovec v (pair buf size_of size) = record v { base = buf; len = size_t (size_of * size) }
fill_iovec v (vector buf size_of size) = record v { base = buf; len = size_t (size_of * size) }
fill_iovec v (array buf size_of size) = record v { base = buf; len = size_t (size_of * size) }

-- make_iovec and make_iovec_const, which go through the overload for raw bytes; that fills an iovec
-- which it has not initialised.
make_bytes : Iovec → List ℕ → ℕ → Iovec
unfolding fill_iovec
make_bytes uninitialised buf size = fill_iovec uninitialised (bytes buf size)

unfoldable pub make_iovec : Iovec → Buffer → Iovec
unfolding make_bytes
make_iovec v (bytes buf size) = make_bytes v buf size
make_iovec v (elements buf size_of size) = make_bytes v buf (size_t (size_of * size))
make_iovec v (pair buf size_of size) = make_bytes v buf (size_t (size_of * size))
make_iovec v (vector buf size_of size) = make_bytes v buf (size_t (size_of * size))
make_iovec v (array buf size_of size) = make_bytes v buf (size_t (size_of * size))

-- make_iovec_const of one object.
unfoldable pub make_object : Iovec → List ℕ → ℕ → Iovec
unfolding make_bytes
make_object v buf size_of = make_bytes v buf size_of

-- make_iovec_array and make_iovec_array_const, of arguments that are buffers.
unfoldable pub make_iovec_array : Iovec → List Buffer → List Iovec
unfolding make_iovec
make_iovec_array v buffers = map (make_iovec v) buffers

-- accumulate. std::accumulate keeps its sum in the type of its first value, 0U: 32 bits, while each
-- addition is made on a std::size_t.
accumulate_from : ℕ → List Iovec → ℕ
accumulate_from sum [] = sum
accumulate_from sum (v ∷ vs) = accumulate_from (size_t (sum + v.len) % 2 ^ 32) vs

unfoldable pub accumulate : List Iovec → ℕ
unfolding accumulate_from
accumulate vs = accumulate_from 0 vs

-- The bytes that sendmsg takes from the buffers.
abbrev pub gather : List Iovec → List ℕ
gather [] = []
gather (v ∷ vs) = take v.len v.base ++ gather vs

-- The length type is std::uint16_t: a cast to it keeps 16 bits.
abbrev pub uint16 : ℕ → ℕ
uint16 n = n % 2 ^ 16

-- `std::copy(first, last, out)` over a std::array: its elements from the first on are replaced.
abbrev pub copy_to : List Iovec → List (Option Iovec) → List (Option Iovec)
copy_to [] out = out
copy_to (v ∷ vs) [] = []
copy_to (v ∷ vs) (_ ∷ out) = some v ∷ copy_to vs out

abbrev pub indeterminate : List Iovec → List (Option Iovec)
indeterminate [] = none ∷ []
indeterminate (v ∷ vs) = none ∷ indeterminate vs

abbrev pub set_front : Iovec → List (Option Iovec) → List (Option Iovec)
set_front v [] = []
set_front v (_ ∷ out) = some v ∷ out

module _ (order : ℕ → List ℕ) where
  -- `make_iovec_const(std::make_pair(&this->length_, std::size_t{1U}))`, sizeof being 2.
  abbrev pub length_iovec : Iovec → ℕ → Iovec
  length_iovec v n = make_iovec v (pair (order n) 2 1)

  -- length_prefixed_message_buffer: its iovec_, by its constructor's arguments.
  unfoldable pub message_buffer : Iovec → List ℕ → ℕ → List Iovec
  message_buffer v buf n = make_iovec_array v (pair (order n) 2 1 ∷ pair buf 1 n ∷ [])

  -- length_prefixed_message_vector::fill and the constructor from buffers: the length, and iovec_.
  unfoldable pub message_vector : Iovec → List Iovec → ℕ × List Iovec
  message_vector v buffers = let n = uint16 (accumulate buffers) in (n, length_iovec v n ∷ buffers)

  -- length_prefixed_message_array<T, N>: the N + 1 elements of iovec_ that the constructor leaves,
  -- `none` being one that is never given a value. The copy starts at the first element.
  unfoldable pub message_array : Iovec → List Iovec → ℕ × List (Option Iovec)
  message_array v buffers =
      let n = uint16 (accumulate buffers) in
      (n, copy_to buffers (set_front (length_iovec v n) (indeterminate buffers)))
