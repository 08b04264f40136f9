-- ===== src/Examples/Sockets.antt =====
-- Examples of sockets (src/net): a kernel that opens descriptor 5 and refuses to bind it, and one that
-- reports a count of more than an int holds.
use liblinuxpp.Prelude.{ℕ, ◌+◌, ◌*◌, ◌/◌, ◌%◌, ◌^◌, ◌<◌, ◌≡◌, ◌↔◌, refl, [], arith}
use liblinuxpp.Prelude.Int.{ℤ, pos, negsuc}
use liblinuxpp.Calls
use liblinuxpp.Calls.{Sockaddr, int_value, Call, Answer, Kernel, ok}
use liblinuxpp.Net.Address.{ByteOrder}
use liblinuxpp.Net.Closeless.{closes}
use liblinuxpp.Net.Construct.{tcp_bound, Owns, socket_fd, construct, construct-Owns}
use liblinuxpp.Net.Sockets.{tcp_bind, destroy}
use liblinuxpp.Net.Counts.{receiving, transfer, transfer_exact}

-- Two bytes in the other order, and no change to addresses.
abbrev swapped : ByteOrder
swapped = record {
  htons = λ n. (n % 256) * 256 + n / 256;
  ntohs = λ n. (n % 256) * 256 + n / 256;
  htonl = λ n. n;
  ntohl = λ n. n;
}

abbrev nobody : Sockaddr
nobody = record { sin_family = 0; sin_port = 0; sin_addr = 0 }

abbrev returning : ℤ → ℕ → Answer
returning r e = record { ret = r; errno = e; name = nobody; length = 16; value = int_value (pos 0) }

abbrev pub address_in_use : Kernel
address_in_use log (Calls.socket d t p) = returning (pos 5) 0
address_in_use log (Calls.bind fd a) = returning (negsuc 0) 98
address_in_use log _ = returning (pos 0) 0

closed_once : closes (pos 5) (construct address_in_use swapped (tcp_bound 0 80) []).1 ≡ 1
unfolding construct tcp_bind destroy
closed_once = refl

construct-Owns_example :
    Owns (socket_fd address_in_use 2 1 []) [] (construct address_in_use swapped (tcp_bound 0 80) [])
construct-Owns_example = construct-Owns address_in_use swapped (tcp_bound 0 80) []

abbrev large : Kernel
large log c = returning (pos 4294967295) 0

transfer_exact_example :
    ((transfer large (receiving (pos 5) 4294967295 0) []).0 ≡ ok 4294967295) ↔ (4294967295 < 2 ^ 31)
transfer_exact_example =
    transfer_exact large (receiving (pos 5) 4294967295 0) [] 4294967295 refl (omega arith)
