-- ===== src/Examples/Net.antt =====
-- Examples of messages and their reception (include/liblinuxpp/length_prefixed_message.hpp,
-- src/net/tcp_datagram_socket.cpp).
use liblinuxpp.Prelude.{
  ℕ, ◌+◌, ◌/◌, ◌%◌, ◌*◌, ◌^◌, ◌<◌, ◌≤◌, ◌≡◌, ◌↔◌, refl, List, [], ◌∷◌, ◌++◌, some, none, length,
  arith, All,
}
use liblinuxpp.Message.{Iovec, gather, message_vector, message_array}
use liblinuxpp.Message.Frame.{
  IsNetworkOrder, IsBacked, frame, message_vector-frame, message_array_lem,
}
use liblinuxpp.Datagram.{Received, stored, ok, initial, recv, send_vector}
use liblinuxpp.Datagram.Parts.{complete}
use liblinuxpp.Datagram.Reassembly.{receive_all}
use liblinuxpp.Datagram.Agreement.{all_of, message, recv_agrees}
use liblinuxpp.Datagram.RoundTrip.{receive-send_vector, recv_ok}

abbrev big_endian : ℕ → List ℕ
big_endian n = n / 256 ∷ n % 256 ∷ []

is_big_endian : IsNetworkOrder big_endian
is_big_endian = record { big_endian = λ n h. refl }

abbrev blank : Iovec
blank = record { base = []; len = 0 }

abbrev greeting : List Iovec
greeting = record { base = 72 ∷ 105 ∷ []; len = 2 } ∷ record { base = 33 ∷ 0 ∷ []; len = 1 } ∷ []

greeting-IsBacked : All IsBacked greeting
greeting-IsBacked = (omega arith, (omega arith, tt))

abbrev pieces : List ℕ
pieces = 1 ∷ 2 ∷ 1 ∷ 5 ∷ 1 ∷ 1 ∷ []

pieces-positive : All (λ c. 1 ≤ c) pieces
pieces-positive =
    (omega arith, (omega arith, (omega arith, (omega arith, (omega arith, (omega arith, tt))))))

receive-send_vector_example :
    receive_all pieces [] initial (send_vector big_endian blank greeting ++ 9 ∷ [])
    ≡ ok (gather greeting, complete (length (gather greeting)), 9 ∷ [])
receive-send_vector_example =
    receive-send_vector big_endian is_big_endian blank greeting (9 ∷ []) pieces [] greeting-IsBacked
      (omega arith) pieces-positive (omega arith)

abbrev text : List ℕ
text = 72 ∷ 105 ∷ 33 ∷ []

abbrev host_order : List ℕ → ℕ
host_order (hi ∷ lo ∷ []) = hi * 256 + lo
host_order _ = 0

abbrev three : ℕ → Received
three n = stored (0 ∷ 3 ∷ [])

abbrev greets : ℕ → Received
greets n = stored text

recv_ok_example : (recv host_order [] three greets ≡ ok text) ↔ (
    (head : List ℕ) × (three 2 ≡ stored head)
    × (length head ≡ 2)
    × (greets (host_order head) ≡ stored text)
    × (length text ≡ host_order head))
recv_ok_example = recv_ok host_order [] text three greets

message_vector-frame_example :
    (gather (message_vector big_endian blank greeting).1 ≡ frame (gather greeting))
    ↔ (length (gather greeting) < 2 ^ 16)
message_vector-frame_example =
    message_vector-frame big_endian is_big_endian blank greeting greeting-IsBacked

abbrev first_buffer : Iovec
first_buffer = record { base = 72 ∷ 105 ∷ []; len = 2 }

message_array_lem_example :
    (message_array big_endian blank (first_buffer ∷ [])).1 ≡ some first_buffer ∷ none ∷ []
message_array_lem_example = message_array_lem big_endian blank first_buffer []

recv_agrees_example :
    message (receive_all pieces (7 ∷ []) initial (0 ∷ 3 ∷ 72 ∷ 105 ∷ 33 ∷ 9 ∷ []))
    ≡ recv host_order [] (all_of (0 ∷ 3 ∷ 72 ∷ 105 ∷ 33 ∷ 9 ∷ [])) (all_of (72 ∷ 105 ∷ 33 ∷ 9 ∷ []))
recv_agrees_example =
    recv_agrees host_order 0 3 (72 ∷ 105 ∷ 33 ∷ 9 ∷ []) (7 ∷ []) [] pieces refl (omega arith)
      (omega arith) (omega arith) pieces-positive (omega arith)
