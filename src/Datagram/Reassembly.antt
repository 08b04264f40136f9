-- ===== src/Datagram/Reassembly.antt =====
-- Reassembling a message from a TCP stream by repeated calls of recv_part
-- (src/net/tcp_datagram_socket.cpp), whatever the sizes of the pieces in which it comes.
use mathlib.Core.List.{append_assoc}
use liblinuxpp.Prelude.{
  ℕ, zero, suc, ◌+◌, ◌-◌, ◌<◌, ◌≤◌, ◌≡◌, refl, sym, ap, ◌∙◌, List, [], ◌∷◌, ◌++◌, length, take,
  drop, length-append, length-take, length-drop, arith, min, All,
}
use native.Mathlib.Decide.{dec_le}
use liblinuxpp.Prelude.Slices.{
  take-append_le, drop-append_le, take-add, drop-add, take-all, drop-all,
}
use liblinuxpp.Datagram.{
  Received, stored, Result, ok, ◌>>=◌, ReceiveState, StateType, receiving_msg_size, receiving_msg,
  finished, resize, store, recv_part,
}
use liblinuxpp.Datagram.Parts.{awaiting_message, complete, recv_part_piece, recv_part_last}

-- How many bytes recv_part asks recv for.
abbrev pub request_in : StateType → ReceiveState → ℕ
request_in receiving_msg_size s = 2 - s.bytes_received
request_in receiving_msg s = s.msg_size - s.bytes_received
request_in finished s = 2

-- recv on a stream: the first of the bytes that have not been read, as many as have arrived (`k`) and
-- were asked for.
abbrev pub arrives : ℕ → List ℕ → ℕ → Received
arrives k stream len = stored (take (min k len) stream)

-- A caller that calls recv_part until the state is finished; the list has the number of bytes that
-- have arrived at each call.
abbrev pub receive_all :
    List ℕ → List ℕ → ReceiveState → List ℕ → Result (List ℕ × ReceiveState × List ℕ)
receive_all [] buf s stream = ok (buf, s, stream)
receive_all (k ∷ ks) buf s stream = elim s.state [
  | finished ↦ ok (buf, s, stream)
  | _ ↦ recv_part buf s (arrives k stream) >>= λ r.
      receive_all ks r.0 r.1 (drop (min k (request_in s.state s)) stream)
]

receive_all-complete :
    (ks buf : List ℕ) (n : ℕ) (stream : List ℕ)
    → receive_all ks buf (complete n) stream ≡ ok (buf, complete n, stream)
receive_all-complete [] buf n stream = refl
receive_all-complete (k ∷ ks) buf n stream = refl

pub length-resize : (n : ℕ) (bs : List ℕ) → length (resize n bs) ≡ n
length-resize zero bs = refl
length-resize (suc n) [] = ap suc (length-resize n [])
length-resize (suc n) (b ∷ bs) = ap suc (length-resize n bs)

resize-length : (bs : List ℕ) → resize (length bs) bs ≡ bs
resize-length [] = refl
resize-length (b ∷ bs) = ap (λ l. b ∷ l) (resize-length bs)

-- What recv has stored so far stands at the front of the buffer.
take-store :
    (k : ℕ) (bs buf : List ℕ)
    → k ≤ length buf
    → take (k + length bs) (store k bs buf) ≡ take k buf ++ bs
take-store k bs buf h =
    ap (λ l. take (k + length bs) l) (sym (append_assoc (take k buf) bs _))
    ∙ take-append_le (k + length bs) (take k buf ++ bs) _
        (omega (arith, length-append (take k buf) bs, length-take k buf))
    ∙ take-all (k + length bs) (take k buf ++ bs)
        (omega (arith, length-append (take k buf) bs, length-take k buf))

pub length-store :
    (k : ℕ) (bs buf : List ℕ) → k + length bs ≤ length buf → length (store k bs buf) ≡ length buf
length-store k bs buf h = omega (
  arith,
  length-append (take k buf) (bs ++ drop (k + length bs) buf),
  length-take k buf,
  length-append bs (drop (k + length bs) buf),
  length-drop (k + length bs) buf,
)

-- The piece that arrives when `k` bytes of the message have come and `c` more are there.
module _ (msg rest : List ℕ) where
  abbrev pub left : ℕ → List ℕ
  left k = drop k msg ++ rest

  arrives-piece : (k j : ℕ) → k + j ≤ length msg → take j (left k) ≡ take j (drop k msg)
  arrives-piece k j h = take-append_le j (drop k msg) rest (omega (arith, length-drop k msg))

  left-add : (k j : ℕ) → k + j ≤ length msg → drop j (left k) ≡ left (k + j)
  left-add k j h =
      drop-append_le j (drop k msg) rest (omega (arith, length-drop k msg))
      ∙ ap (λ l. l ++ rest) (drop-add k j msg)

  left-end :
      (c k : ℕ) → k ≤ length msg → length msg - k ≤ c → left (k + min c (length msg - k)) ≡ rest
  left-end c k h p = ap (λ l. l ++ rest) (drop-all (k + min c (length msg - k)) msg (omega arith))

  length-piece : (k j : ℕ) → k + j ≤ length msg → length (take j (drop k msg)) ≡ j
  length-piece k j h = omega (arith, length-take j (drop k msg), length-drop k msg)

  -- The first `k` bytes of the message stand in the buffer.
  abbrev pub Filled : ℕ → List ℕ → Type 0
  Filled k buf = take k (resize (length msg) buf) ≡ take k msg

  store-Filled :
      (k j : ℕ) (buf : List ℕ)
      → k + j ≤ length msg
      → Filled k buf
      → take (k + j) (store k (take j (drop k msg)) (resize (length msg) buf)) ≡ take (k + j) msg
  store-Filled k j buf h f =
      let n = length msg in
      let bs = take j (drop k msg) in
      ap (λ i. take (k + i) (store k bs (resize n buf))) (sym (length-piece k j h))
      ∙ take-store k bs (resize n buf) (omega (arith, length-resize n buf))
      ∙ ap (λ l. l ++ bs) f
      ∙ sym (take-add k j msg)

  stored-length :
      (k j : ℕ) (buf : List ℕ)
      → k + j ≤ length msg
      → length (store k (take j (drop k msg)) (resize (length msg) buf)) ≡ length msg
  stored-length k j buf h = omega (
    arith,
    length-store k (take j (drop k msg)) (resize (length msg) buf),
    length-resize (length msg) buf,
    length-piece k j h,
  )

  stored-Filled :
      (k j : ℕ) (buf : List ℕ)
      → k + j ≤ length msg
      → Filled k buf
      → Filled (k + j) (store k (take j (drop k msg)) (resize (length msg) buf))
  stored-Filled k j buf h f =
      let b = store k (take j (drop k msg)) (resize (length msg) buf) in
      ap (λ l. take (k + j) l)
        (ap (λ n. resize n b) (sym (stored-length k j buf h)) ∙ resize-length b)
      ∙ store-Filled k j buf h f

  stored-all :
      (k j : ℕ) (buf : List ℕ)
      → k + j ≡ length msg
      → Filled k buf
      → store k (take j (drop k msg)) (resize (length msg) buf) ≡ msg
  stored-all k j buf e f =
      let b = store k (take j (drop k msg)) (resize (length msg) buf) in
      sym (take-all (k + j) b (omega (arith, stored-length k j buf)))
      ∙ store-Filled k j buf (omega arith) f
      ∙ take-all (k + j) msg (omega arith)

  -- A call that brings the last of the message, and one that brings some more of it.
  last_call :
      (c k : ℕ) (buf : List ℕ)
      → k ≤ length msg
      → Filled k buf
      → length msg - k ≤ c
      → recv_part buf (awaiting_message (length msg) k) (arrives c (left k))
        ≡ ok (msg, complete (length msg))
  last_call c k buf h f g =
      let n = length msg in
      let j = n - k in
      let all : k + j ≤ n = omega arith in
      recv_part_last buf (arrives c (left k)) n k (take j (drop k msg))
        (ap stored (ap (λ i. take i (left k)) (omega arith) ∙ arrives-piece k j all))
        (omega (arith, length-piece k j all))
      ∙ ap (λ b. ok (b, complete n)) (stored-all k j buf (omega arith) f)

  more_call :
      (c k : ℕ) (buf : List ℕ)
      → k + c < length msg
      → 1 ≤ c
      → recv_part buf (awaiting_message (length msg) k) (arrives c (left k))
        ≡ ok (
          store k (take c (drop k msg)) (resize (length msg) buf),
          awaiting_message (length msg) (k + c),
        )
  more_call c k buf h one =
      let n = length msg in
      let some_more : k + c ≤ n = omega arith in
      recv_part_piece buf (arrives c (left k)) n k (take c (drop k msg))
        (ap stored (ap (λ i. take i (left k)) (omega arith) ∙ arrives-piece k c some_more))
        (omega (arith, length-piece k c some_more))
      ∙ ap (λ i. ok (store k (take c (drop k msg)) (resize n buf), awaiting_message n (k + i)))
          (length-piece k c some_more)

  -- The rest of the message.
  pub receive_message :
      (ks : List ℕ) (k : ℕ) (buf : List ℕ)
      → k ≤ length msg
      → Filled k buf
      → All (λ c. 1 ≤ c) ks
      → length msg - k + 1 ≤ length ks
      → receive_all ks buf (awaiting_message (length msg) k) (left k)
        ≡ ok (msg, complete (length msg), rest)
  receive_message [] k buf h f a enough = absurd (omega arith)
  receive_message (c ∷ ks) k buf h f a enough = elim (dec_le (length msg - k) c) [
    | yes p ↦ rw (last_call c k buf h f p) (
        receive_all-complete ks msg (length msg) _
        ∙ ap (λ l. ok (msg, complete (length msg), l))
            (left-add k (min c (length msg - k)) (omega arith) ∙ left-end c k h p))
    | no p ↦ rw (more_call c k buf (omega arith) a.0) (
        ap
          (receive_all ks (store k (take c (drop k msg)) (resize (length msg) buf))
            (awaiting_message (length msg) (k + c)))
          (ap (λ i. drop i (left k)) (omega arith) ∙ left-add k c (omega arith))
        ∙ receive_message ks (k + c) (store k (take c (drop k msg)) (resize (length msg) buf))
            (omega arith) (stored-Filled k c buf (omega arith) f) a.1 (omega arith))
  ]
