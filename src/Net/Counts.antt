-- ===== src/Net/Counts.antt =====
-- The counts of linuxpp::net::recv and linuxpp::net::send (src/net/recv.cpp, src/net/send.cpp): the
-- functions keep the ssize_t of the call in an int.
use liblinuxpp.Prelude.{ℕ, ◌<◌, ◌≡◌, ◌^◌, ◌↔◌, List, arith}
use liblinuxpp.Prelude.Int.{ℤ, pos}
use liblinuxpp.Calls
use liblinuxpp.Calls.{Sockaddr, Call, Answer, Kernel, Result, ok, err, to_size}
use liblinuxpp.Net.Wrappers.{count_of, send_to, send, recv}

-- The overloads that keep the returned value in an int, and the system call that each makes.
pub data Transfer : Type 0 where
  receiving : ℤ → ℕ → ℕ → Transfer
  sending : ℤ → ℕ → ℕ → ℕ → Transfer
  sending_to : ℤ → ℕ → ℕ → Sockaddr → ℕ → Transfer

abbrev pub call_of : Transfer → Call
call_of (receiving sd len flags) = Calls.recv sd len flags
call_of (sending sd msg len flags) = Calls.send sd msg len flags
call_of (sending_to sd msg len to flags) = Calls.sendto sd msg len to flags

module _ (kernel : Kernel) where
  unfoldable pub transfer : Transfer → Calls.Action ℕ
  unfolding recv send send_to
  transfer (receiving sd len flags) = recv kernel sd len flags
  transfer (sending sd msg len flags) = send kernel sd msg len flags
  transfer (sending_to sd msg len to flags) = send_to kernel sd msg len to flags

  count_of_lem :
      (a : Answer) (log : List Call) (n : ℕ)
      → a.ret ≡ pos n
      → n < 2 ^ 63
      → ((count_of kernel a log).0 ≡ ok n) ↔ (n < 2 ^ 31)
  count_of_lem a log n e b = rw e (ground arith)

  -- Where the system call reports that n bytes were moved, n < 2 ^ 63, recv and send with one
  -- buffer, and send of one to a sockaddr, return n if and only if n < 2 ^ 31.
  pub transfer_exact :
      (t : Transfer) (log : List Call) (n : ℕ)
      → (kernel log (call_of t)).ret ≡ pos n
      → n < 2 ^ 63
      → ((transfer t log).0 ≡ ok n) ↔ (n < 2 ^ 31)
  unfolding transfer recv send send_to
  transfer_exact (receiving sd len flags) log n e b =
      count_of_lem (kernel log (call_of (receiving sd len flags))) _ n e b
  transfer_exact (sending sd msg len flags) log n e b =
      count_of_lem (kernel log (call_of (sending sd msg len flags))) _ n e b
  transfer_exact (sending_to sd msg len to flags) log n e b =
      count_of_lem (kernel log (call_of (sending_to sd msg len to flags))) _ n e b
