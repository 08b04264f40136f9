-- ===== src/Datagram.antt =====
-- linuxpp::net::tcp_datagram_socket (include/liblinuxpp/net/tcp_datagram_socket.hpp,
-- src/net/tcp_datagram_socket.cpp), with linuxpp::net::recv of src/net/recv.cpp. The answer of the
-- system call recv to a request is an argument: an errno value, or the bytes that it stores.
pub mod Parts
pub mod Reassembly
pub mod RoundTrip
pub mod Agreement
use Prim.Native.Nat.{bit_or}
use liblinuxpp.Prelude.{
  ℕ, zero, suc, ◌+◌, ◌-◌, ◌*◌, ◌/◌, ◌%◌, ◌^◌, Bool, true, false, List, [], ◌∷◌, ◌++◌, Option, none,
  some, length, take, drop, ◌==◌, if◌then◌else◌,
}
use liblinuxpp.Message.{Iovec, gather, message_buffer, message_vector}

-- What the system call recv answers.
pub data Received : Type 0 where
  failed : ℕ → Received
  stored : List ℕ → Received

-- The exceptions: the system call failed, or ENODATA with one of two messages.
pub data Error : Type 0 where
  recv_failed : ℕ → Error
  length_truncated : Error
  message_truncated : Error

pub data Result {ℓ} (A : Type ℓ) : Type ℓ where
  ok : A → Result A
  err : Error → Result A

infixl 5 ◌>>=◌
abbrev pub ◌>>=◌ {ℓ κ} : {A : Type ℓ} {B : Type κ} → Result A → (A → Result B) → Result B
ok a >>= f = f a
err e >>= f = err e

-- linuxpp::net::recv: a failed call throws.
abbrev pub net_recv : Received → Result (List ℕ)
net_recv (failed errno) = err (recv_failed errno)
net_recv (stored bs) = ok bs

-- receive_state::state_type.
pub data StateType : Type 0 where
  receiving_msg_size : StateType
  receiving_msg : StateType
  finished : StateType

pub record ReceiveState : Type 0 where
  pub msg_size : ℕ
  pub bytes_received : ℕ
  pub state : StateType

-- The private constructor of receive_state.
abbrev pub initial : ReceiveState
initial = record { msg_size = 0; bytes_received = 0; state = receiving_msg_size }

-- The loop of recv_size_part: `msg_size |= byte << ((1 - i) * 8)` for the bytes from index `i` on.
abbrev pub add_bytes : ℕ → ℕ → List ℕ → ℕ
add_bytes msg_size i [] = msg_size
add_bytes msg_size i (b ∷ bs) = add_bytes (bit_or msg_size (b * 2 ^ ((1 - i) * 8))) (suc i) bs

-- recv_size_part after its call of recv.
size_part : ReceiveState → List ℕ → ReceiveState
size_part s bs =
    let received = s.bytes_received + length bs in
    let size = add_bytes s.msg_size s.bytes_received bs in
    if received == 2
    then record { msg_size = size; bytes_received = 0; state = receiving_msg }
    else record { msg_size = size; bytes_received = received; state = s.state }

-- recv_size_part: recv is asked for what is missing of the two bytes.
unfoldable pub recv_size_part : ReceiveState → (ℕ → Received) → Result ReceiveState
unfolding size_part
recv_size_part s answer = do bs ← net_recv (answer (2 - s.bytes_received)); ok (size_part s bs)

-- `buf.resize(n)`.
abbrev pub resize : ℕ → List ℕ → List ℕ
resize zero bs = []
resize (suc n) [] = 0 ∷ resize n []
resize (suc n) (b ∷ bs) = b ∷ resize n bs

-- What recv leaves in the buffer when it stores bytes from index `i` on.
abbrev pub store : ℕ → List ℕ → List ℕ → List ℕ
store i bs buf = take i buf ++ (bs ++ drop (i + length bs) buf)

-- recv_msg_part after its call of recv.
msg_part : ReceiveState → List ℕ → ReceiveState
msg_part s bs =
    let received = s.bytes_received + length bs in
    if received == s.msg_size
    then record { msg_size = s.msg_size; bytes_received = received; state = finished }
    else record { msg_size = s.msg_size; bytes_received = received; state = s.state }

-- recv_msg_part. The buffer is resized first, also if recv throws then; a result has the buffer.
unfoldable pub recv_msg_part :
    List ℕ → ReceiveState → (ℕ → Received) → Result (List ℕ × ReceiveState)
unfolding msg_part
recv_msg_part buf s answer = do
  bs ← net_recv (answer (s.msg_size - s.bytes_received))
  ok (store s.bytes_received bs (resize s.msg_size buf), msg_part s bs)

abbrev with_buffer : List ℕ → Result ReceiveState → Result (List ℕ × ReceiveState)
with_buffer buf (ok s) = ok (buf, s)
with_buffer buf (err e) = err e

-- recv_part by the state that it is in.
part_in : StateType → List ℕ → ReceiveState → (ℕ → Received) → Result (List ℕ × ReceiveState)
unfolding recv_size_part recv_msg_part
part_in receiving_msg_size buf s answer = with_buffer buf (recv_size_part s answer)
part_in receiving_msg buf s answer = recv_msg_part buf s answer
part_in finished buf s answer = with_buffer buf (recv_size_part initial answer)

unfoldable pub recv_part : List ℕ → ReceiveState → (ℕ → Received) → Result (List ℕ × ReceiveState)
unfolding part_in
recv_part buf s answer = part_in s.state buf s answer

-- The second half of tcp_datagram_socket::recv: the message, of the size that was received.
recv_body : ℕ → List ℕ → (ℕ → Received) → Result (List ℕ)
recv_body msg_size buf answer = do
  bs ← net_recv (answer msg_size)
  if length bs == msg_size then ok (store 0 bs (resize msg_size buf)) else err message_truncated

-- tcp_datagram_socket::recv: the two calls of recv with MSG_WAITALL, by what each answers. `host` is
-- ntohs on the two bytes of the length; with fewer than two the call throws before it is used.
unfoldable pub recv : (List ℕ → ℕ) → List ℕ → (ℕ → Received) → (ℕ → Received) → Result (List ℕ)
unfolding recv_body
recv host buf length_answer answer = do
  head ← net_recv (length_answer 2)
  if length head == 2 then recv_body (host head) buf answer else err length_truncated

module _ (order : ℕ → List ℕ) where
  -- tcp_datagram_socket::send from one buffer, and from several: the bytes given to sendmsg.
  unfoldable pub send_buffer : Iovec → List ℕ → ℕ → List ℕ
  send_buffer v buf n = gather (message_buffer order v buf n)

  unfoldable pub send_vector : Iovec → List Iovec → List ℕ
  send_vector v buffers = gather (message_vector order v buffers).1
