-- ===== src/Datagram/RoundTrip.antt =====
-- From send to recv_part and recv (src/net/tcp_datagram_socket.cpp).
use mathlib.Core.List.{append-nil}
use native.Mathlib.Decide.{dec_le}
use liblinuxpp.Prelude.{
  ℕ, ◌+◌, ◌*◌, ◌/◌, ◌%◌, ◌^◌, ◌<◌, ◌≤◌, ◌≡◌, ◌↔◌, refl, ap, ◌∙◌, List, [], ◌∷◌, ◌++◌, length, take,
  drop, arith, min, All,
}
use liblinuxpp.Prelude.Slices.{drop-all}
use liblinuxpp.Message.{Iovec, gather}
use liblinuxpp.Message.Frame.{frame, IsBacked, IsNetworkOrder, message_vector-frame}
use liblinuxpp.Datagram.{
  Received, failed, stored, ok, initial, resize, store, recv, recv_body, send_vector,
}
use liblinuxpp.Datagram.Parts.{
  awaiting_low, awaiting_message, complete, recv_part_both, recv_part_high, recv_part_low,
}
use liblinuxpp.Datagram.Reassembly.{arrives, receive_all, receive_message, length-resize}

module _ (msg rest : List ℕ) (short : length msg < 2 ^ 16) where
  size-eq : length msg / 256 * 256 + length msg % 256 ≡ length msg
  size-eq = omega arith

  -- From the state in which the length is known.
  receive_body :
      (ks buf : List ℕ)
      → All (λ c. 1 ≤ c) ks
      → length msg + 1 ≤ length ks
      → receive_all ks buf
          (awaiting_message (length msg / 256 * 256 + length msg % 256) 0)
          (msg ++ rest)
        ≡ ok (msg, complete (length msg), rest)
  receive_body ks buf a enough =
      rw size-eq (receive_message msg rest ks 0 buf (omega arith) refl a (omega arith))

  -- The frame of a message of fewer than 2 ^ 16 bytes is received as the message and no byte behind
  -- it is touched, whatever the sizes of the pieces in which it arrives, as long as each call of
  -- recv_part finds a byte and there are three calls more than the message has bytes.
  pub receive_frame :
      (ks buf : List ℕ)
      → All (λ c. 1 ≤ c) ks
      → length msg + 3 ≤ length ks
      → receive_all ks buf initial (frame msg ++ rest) ≡ ok (msg, complete (length msg), rest)
  receive_frame [] buf a enough = absurd (omega arith)
  receive_frame (c ∷ []) buf a enough = absurd (omega arith)
  receive_frame (c ∷ d ∷ ks) buf a enough = elim (dec_le 2 c) [
    | yes p ↦
        let two : min c 2 ≡ 2 = omega arith in
        rw
          (recv_part_both buf (arrives c (frame msg ++ rest)) (length msg / 256) (length msg % 256)
            (omega arith) (omega arith) (ap (λ i. stored (take i (frame msg ++ rest))) two))
          (ap
              (λ i.
                receive_all (d ∷ ks) buf
                  (awaiting_message (length msg / 256 * 256 + length msg % 256) 0)
                  (drop i (frame msg ++ rest)))
              two
            ∙ receive_body (d ∷ ks) buf a.1 (omega arith))
    | no p ↦
        let first : min c 2 ≡ 1 = omega arith in
        let second : min d 1 ≡ 1 = omega arith in
        let low = length msg % 256 ∷ (msg ++ rest) in
        rw
          (recv_part_high buf (arrives c (frame msg ++ rest)) (length msg / 256) (omega arith)
            (ap (λ i. stored (take i (frame msg ++ rest))) first))
          (ap
              (λ i.
                receive_all (d ∷ ks) buf (awaiting_low (length msg / 256))
                  (drop i (frame msg ++ rest)))
              first
            ∙ rw
                (recv_part_low buf (arrives d low) (length msg / 256) (length msg % 256)
                  (omega arith) (omega arith) (ap (λ i. stored (take i low)) second))
                (ap
                    (λ i.
                      receive_all ks buf
                        (awaiting_message (length msg / 256 * 256 + length msg % 256) 0)
                        (drop i low))
                    second
                  ∙ receive_body ks buf a.1.1 (omega arith)))
  ]

-- With lengths in network byte order, what send puts on the wire for several buffers that hold the
-- bytes they count, fewer than 2 ^ 16 in all, is received, by at least three more calls of
-- recv_part than there are bytes, each of which finds a byte, as the bytes of the buffers in their
-- order, and what follows on the stream stays unread.
pub receive-send_vector :
    (order : ℕ → List ℕ) (net : IsNetworkOrder order) (v : Iovec) (vs : List Iovec)
    (rest ks buf : List ℕ)
    → All IsBacked vs
    → length (gather vs) < 2 ^ 16
    → All (λ c. 1 ≤ c) ks
    → length (gather vs) + 3 ≤ length ks
    → receive_all ks buf initial (send_vector order v vs ++ rest)
      ≡ ok (gather vs, complete (length (gather vs)), rest)
unfolding send_vector
receive-send_vector order net v vs rest ks buf backed short a enough =
    rw ((message_vector-frame order net v vs backed).1 short)
      (receive_frame (gather vs) rest short ks buf a enough)

store-whole : (bs buf : List ℕ) → store 0 bs (resize (length bs) buf) ≡ bs
store-whole bs buf =
    ap (λ l. bs ++ l)
      (drop-all (0 + length bs) (resize (length bs) buf)
        (omega (arith, length-resize (length bs) buf)))
    ∙ append-nil bs

body_ok :
    (n : ℕ) (buf out : List ℕ) (answer : ℕ → Received) (r : Received)
    → answer n ≡ r
    → recv_body n buf answer ≡ ok out
    → (answer n ≡ stored out) × (length out ≡ n)
unfolding recv_body
body_ok n buf out answer (failed errno) a e = ground arith
body_ok n buf out answer (stored bs) a e = ground (arith, store-whole bs buf)

recv_parts :
    (host : List ℕ → ℕ) (buf out : List ℕ) (length_answer answer : ℕ → Received) (r : Received)
    → length_answer 2 ≡ r
    → recv host buf length_answer answer ≡ ok out
    → (head : List ℕ) × (length_answer 2 ≡ stored head)
      × (length head ≡ 2)
      × (recv_body (host head) buf answer ≡ ok out)
unfolding recv
recv_parts host buf out length_answer answer (failed errno) l e = absurd (ground arith)
recv_parts host buf out length_answer answer (stored head) l e =
    (head, l, ground arith, ground arith)

-- recv answers with a message exactly when the kernel stored the two bytes of a length and then as
-- many bytes as that says; those are the message, whatever was in the buffer.
pub recv_ok :
    (host : List ℕ → ℕ) (buf out : List ℕ) (length_answer answer : ℕ → Received)
    → (recv host buf length_answer answer ≡ ok out) ↔ (
        (head : List ℕ) × (length_answer 2 ≡ stored head)
        × (length head ≡ 2)
        × (answer (host head) ≡ stored out)
        × (length out ≡ host head))
unfolding recv recv_body
recv_ok host buf out length_answer answer = (
  λ e.
      let (head, l, two, body) = recv_parts host buf out length_answer answer _ refl e in
      let (a, n) = body_ok (host head) buf out answer _ refl body in (head, l, two, a, n),
  λ (head, l, two, a, n). ground (arith, store-whole out buf),
)
