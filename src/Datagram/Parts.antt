-- ===== src/Datagram/Parts.antt =====
-- recv_size_part and recv_msg_part (src/net/tcp_datagram_socket.cpp) on the bytes of a frame.
use liblinuxpp.Prelude.{ℕ, ◌+◌, ◌-◌, ◌*◌, ◌<◌, ◌≡◌, List, [], ◌∷◌, length, arith}
use liblinuxpp.Prelude.Bytes.{bit_or_bytes, zero-bit_or}
use liblinuxpp.Datagram.{
  Received, stored, ok, ReceiveState, receiving_msg_size, receiving_msg, finished, initial, resize,
  store, recv_part,
}

-- A state that waits for a byte of the length, the high one having come or not.
abbrev pub awaiting_length : ReceiveState
awaiting_length = initial

abbrev pub awaiting_low : ℕ → ReceiveState
awaiting_low hi = record { msg_size = hi * 256; bytes_received = 1; state = receiving_msg_size }

abbrev pub awaiting_message : ℕ → ℕ → ReceiveState
awaiting_message n k = record { msg_size = n; bytes_received = k; state = receiving_msg }

abbrev pub complete : ℕ → ReceiveState
complete n = record { msg_size = n; bytes_received = n; state = finished }

module _ (buf : List ℕ) (answer : ℕ → Received) where
  -- The length in one piece.
  pub recv_part_both :
      (hi lo : ℕ)
      → hi < 256
      → lo < 256
      → answer 2 ≡ stored (hi ∷ lo ∷ [])
      → recv_part buf initial answer ≡ ok (buf, awaiting_message (hi * 256 + lo) 0)
  unfolding recv_part
  recv_part_both hi lo h l a = ground (arith, a, zero-bit_or hi h, bit_or_bytes hi lo h l)

  -- Its high byte, and then its low byte.
  pub recv_part_high :
      (hi : ℕ)
      → hi < 256
      → answer 2 ≡ stored (hi ∷ [])
      → recv_part buf initial answer ≡ ok (buf, awaiting_low hi)
  unfolding recv_part
  recv_part_high hi h a = ground (arith, a, zero-bit_or hi h)

  pub recv_part_low :
      (hi lo : ℕ)
      → hi < 256
      → lo < 256
      → answer 1 ≡ stored (lo ∷ [])
      → recv_part buf (awaiting_low hi) answer ≡ ok (buf, awaiting_message (hi * 256 + lo) 0)
  unfolding recv_part
  recv_part_low hi lo h l a = ground (arith, a, bit_or_bytes hi lo h l)

  -- A piece of the message: the state is complete when the last byte has come.
  pub recv_part_piece :
      (n k : ℕ) (bs : List ℕ)
      → answer (n - k) ≡ stored bs
      → k + length bs < n
      → recv_part buf (awaiting_message n k) answer
        ≡ ok (store k bs (resize n buf), awaiting_message n (k + length bs))
  unfolding recv_part
  recv_part_piece n k bs a h = ground (arith, a)

  pub recv_part_last :
      (n k : ℕ) (bs : List ℕ)
      → answer (n - k) ≡ stored bs
      → k + length bs ≡ n
      → recv_part buf (awaiting_message n k) answer ≡ ok (store k bs (resize n buf), complete n)
  unfolding recv_part
  recv_part_last n k bs a h = ground (arith, a)
