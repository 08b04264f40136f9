-- ===== src/Calls.antt =====
-- The system calls that src/net and the wrappers of files and timers make, and what a function does that
-- makes them: it appends to the log of calls, the latest first, and returns or throws. What the
-- kernel answers to a call may depend on all the calls before.
use liblinuxpp.Prelude.{ℕ, ◌-◌, ◌%◌, ◌^◌, Bool, List, ◌∷◌, Option, if◌then◌else◌}
use liblinuxpp.Prelude.Int.{ℤ, pos, negsuc, eqb_ℤ}

-- struct sockaddr_in; `sin_port` and `sin_addr` are what the fields hold, in network byte order.
pub record Sockaddr : Type 0 where
  pub sin_family : ℕ
  pub sin_port : ℕ
  pub sin_addr : ℕ

-- struct itimerspec, less its interval: what it_value holds.
pub record Timespec : Type 0 where
  pub tv_sec : ℤ
  pub tv_nsec : ℤ

-- The values that calls are given or store: an int or a struct ip_mreqn (socket options), a uint64_t (an
-- event counter), two descriptors (a pipe), the time of a timer.
pub data Value : Type 0 where
  int_value : ℤ → Value
  ip_mreqn : ℕ → ℕ → ℕ → Value
  u64_value : ℕ → Value
  two_fds : ℤ → ℤ → Value
  timespec : Timespec → Value

-- A system call by its arguments, less the places that it stores to. Buffers of data and paths are named.
-- `clear_errno` stands for the assignment `errno = 0`.
pub data Call : Type 0 where
  socket : ℕ → ℕ → ℕ → Call
  bind : ℤ → Sockaddr → Call
  connect : ℤ → Sockaddr → Call
  listen : ℤ → ℤ → Call
  accept4 : ℤ → Bool → ℕ → Call
  shutdown : ℤ → ℤ → Call
  getsockname : ℤ → Call
  getsockopt : ℤ → ℕ → ℕ → Call
  setsockopt : ℤ → ℕ → ℕ → Value → Call
  if_nametoindex : ℕ → Call
  send : ℤ → ℕ → ℕ → ℕ → Call
  sendto : ℤ → ℕ → ℕ → Sockaddr → ℕ → Call
  sendmsg : ℤ → Option Sockaddr → ℕ → ℕ → ℕ → Call
  recv : ℤ → ℕ → ℕ → Call
  recvfrom : ℤ → ℕ → ℕ → Call
  recvmsg : ℤ → ℕ → ℕ → ℕ → Call
  close : ℤ → Call
  clear_errno : Call
  open_path : ℕ → ℕ → ℕ → Call
  read : ℤ → ℕ → Call
  write : ℤ → ℕ → ℕ → Call
  fcntl : ℤ → ℕ → List ℤ → Call
  pipe2 : ℕ → Call
  eventfd : ℕ → ℕ → Call
  timerfd_create : ℕ → ℕ → Call
  timerfd_settime : ℤ → ℕ → Timespec → Call

-- What the kernel answers: the returned value, what errno holds afterwards, and what the call stores: a
-- sockaddr, the length of that or of an option, and a value.
pub record Answer : Type 0 where
  pub ret : ℤ
  pub errno : ℕ
  pub name : Sockaddr
  pub length : ℕ
  pub value : Value

abbrev pub Kernel : Type 0
Kernel = List Call → Call → Answer

-- The exceptions: std::system_error with an errno value, std::invalid_argument, std::runtime_error.
pub data Error : Type 0 where
  system_error : ℕ → Error
  invalid_argument : Error
  runtime_error : Error

pub data Result {ℓ} (A : Type ℓ) : Type ℓ where
  ok : A → Result A
  err : Error → Result A

abbrev pub Action {ℓ} : Type ℓ → Type ℓ
Action A = List Call → Result A × List Call

abbrev pub pure {ℓ} : {A : Type ℓ} → A → Action A
pure a log = (ok a, log)

abbrev pub throw {ℓ} : {A : Type ℓ} → Error → Action A
throw e log = (err e, log)

infixl 5 ◌>>=◌ ◌>>◌
abbrev pub ◌>>=◌ {ℓ κ} : {A : Type ℓ} {B : Type κ} → Action A → (A → Action B) → Action B
◌>>=◌ m f log = let (r, after) = m log in elim r [ ok a ↦ f a after | err e ↦ (err e, after) ]

abbrev pub ◌>>◌ {ℓ} : {B : Type ℓ} → Action (Unit {0}) → Action B → Action B
m >> k = m >>= λ _. k

abbrev pub minus_one : ℤ
minus_one = negsuc 0

module _ (kernel : Kernel) where
  -- A call alone, and one that throws where the call returns -1.
  abbrev pub call : Call → Action Answer
  call c log = (ok (kernel log c), c ∷ log)

  abbrev pub checked : Call → Action Answer
  checked c log =
      let a = kernel log c in
      if eqb_ℤ a.ret minus_one then (err (system_error a.errno), c ∷ log) else (ok a, c ∷ log)

-- `static_cast<std::size_t>` of a signed number of at most 64 bits.
abbrev pub to_size : ℤ → ℕ
to_size (pos n) = n % 2 ^ 64
to_size (negsuc n) = 2 ^ 64 - 1 - n
