-- ===== src/Datagram/Agreement.antt =====
-- The two ways to receive a message: recv, which waits for all of it, and recv_part
-- (src/net/tcp_datagram_socket.cpp).
use liblinuxpp.Prelude.{
  ℕ, ◌+◌, ◌*◌, ◌/◌, ◌%◌, ◌<◌, ◌≤◌, ◌≡◌, refl, sym, ap, ◌∙◌, List, [], ◌∷◌, ◌++◌, length, take, drop,
  arith, All, length-take, take-append-drop,
}
use liblinuxpp.Message.Frame.{frame}
use liblinuxpp.Datagram.{Received, stored, Result, ok, err, initial, ReceiveState, recv}
use liblinuxpp.Datagram.Reassembly.{receive_all}
use liblinuxpp.Datagram.RoundTrip.{receive_frame, recv_ok}

-- A call with MSG_WAITALL on a stream that has arrived.
abbrev pub all_of : List ℕ → ℕ → Received
all_of stream n = stored (take n stream)

-- The message that a series of calls of recv_part ends with.
abbrev pub message : Result (List ℕ × ReceiveState × List ℕ) → Result (List ℕ)
message (ok (buf, state, rest)) = ok buf
message (err e) = err e

frame_of :
    (hi lo : ℕ) (tail : List ℕ)
    → hi < 256
    → lo < 256
    → hi * 256 + lo ≤ length tail
    → hi ∷ lo ∷ tail ≡ frame (take (hi * 256 + lo) tail) ++ drop (hi * 256 + lo) tail
frame_of hi lo tail h l enough =
    ap (λ t. hi ∷ lo ∷ t) (sym (take-append-drop (hi * 256 + lo) tail))
    ∙ ap (λ a. a ∷ lo ∷ (take (hi * 256 + lo) tail ++ drop (hi * 256 + lo) tail)) high
    ∙ ap
        (λ b.
          length (take (hi * 256 + lo) tail) / 256
          ∷ b
          ∷ (take (hi * 256 + lo) tail ++ drop (hi * 256 + lo) tail))
        low
  where
    high : hi ≡ length (take (hi * 256 + lo) tail) / 256
    high = omega (arith, length-take (hi * 256 + lo) tail)

    low : lo ≡ length (take (hi * 256 + lo) tail) % 256
    low = omega (arith, length-take (hi * 256 + lo) tail)

-- On a stream that begins with two bytes of a length, which ntohs reads high byte first, and has as
-- many bytes behind them as that says, a series of calls of recv_part ends with the message that
-- recv returns, whatever the sizes of the pieces and whatever was in the buffers, as long as each
-- call finds a byte and there are three calls more than the message has bytes.
pub recv_agrees :
    (host : List ℕ → ℕ) (hi lo : ℕ) (tail buf other ks : List ℕ)
    → host (hi ∷ lo ∷ []) ≡ hi * 256 + lo
    → hi < 256
    → lo < 256
    → hi * 256 + lo ≤ length tail
    → All (λ c. 1 ≤ c) ks
    → hi * 256 + lo + 3 ≤ length ks
    → message (receive_all ks buf initial (hi ∷ lo ∷ tail))
      ≡ recv host other (all_of (hi ∷ lo ∷ tail)) (all_of tail)
recv_agrees host hi lo tail buf other ks order h l enough a long =
    ap (λ stream. message (receive_all ks buf initial stream)) (frame_of hi lo tail h l enough)
    ∙ ap message
        (receive_frame msg (drop n tail) (omega (arith, whole)) ks buf a (omega (arith, whole)))
    ∙ sym (
        (recv_ok host other msg (all_of (hi ∷ lo ∷ tail)) (all_of tail)).1
          (hi ∷ lo ∷ [], refl, refl, ap (λ i. stored (take i tail)) order, whole ∙ sym order))
  where
    n : ℕ
    n = hi * 256 + lo

    msg : List ℕ
    msg = take n tail

    whole : length msg ≡ n
    whole = omega (arith, length-take n tail)
