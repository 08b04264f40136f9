-- ===== src/Timer.antt =====
-- linuxpp::monotonic_timerfd (include/liblinuxpp/monotonic_timerfd.hpp, src/monotonic_timerfd.cpp). A
-- std::chrono::duration is its count and its period in nanoseconds, a quotient; the products with the
-- period are not bounded.
pub mod Oneshot
use Prim.Native.Nat.{bit_or}
use liblinuxpp.Prelude.{
  ℕ, zero, suc, ◌+◌, ◌-◌, ◌*◌, ◌/◌, ◌^◌, ◌<◌, ◌≤◌, ◌≡◌, ltb, ◌==◌, if◌then◌else◌, List, [], ◌∷◌,
  arith,
}
use liblinuxpp.Prelude.Int.{ℤ, pos, negsuc}
use liblinuxpp.Calls
use liblinuxpp.Calls.{
  Timespec, timespec, Value, Call, Kernel, Result, ok, err, system_error, Action, pure, throw,
  ◌>>=◌, ◌>>◌, call, checked,
}
use liblinuxpp.Descriptor.{UniqueFd, is_set, manage}
use liblinuxpp.Files
use liblinuxpp.Files.{o_cloexec, fd_of, counter}

pub record Timer : Type 0 where
  pub timer_fd : UniqueFd

-- std::chrono::duration; a tick lasts `num` / `den` nanoseconds.
pub record Duration : Type 0 where
  pub count : ℤ
  pub num : ℕ
  pub den : ℕ

abbrev pub clock_monotonic : ℕ
clock_monotonic = 1

abbrev pub minus : ℕ → ℤ
minus zero = pos 0
minus (suc n) = negsuc n

-- The new_spec of set_oneshot. duration_cast rounds toward zero.
abbrev pub spec_by : ℤ → ℕ → ℕ → Timespec
spec_by (pos n) num den =
    let nanosecond_offset : ℕ = if n == 0 then 1 else 0 in
    let seconds : ℕ = n * num / (den * 10 ^ 9) in
    let nanoseconds : ℕ = n * num / den - seconds * 10 ^ 9 in
    record { tv_sec = pos seconds; tv_nsec = pos (nanosecond_offset + nanoseconds) }
spec_by (negsuc n) num den =
    let seconds : ℕ = suc n * num / (den * 10 ^ 9) in
    let nanoseconds : ℕ = suc n * num / den - seconds * 10 ^ 9 in
    record { tv_sec = minus seconds; tv_nsec = minus nanoseconds }

unfoldable pub spec_of : Duration → Timespec
spec_of time = spec_by time.count time.num time.den

abbrev pub nanoseconds : ℕ → Duration
nanoseconds n = record { count = pos n; num = 1; den = 1 }

abbrev pub old_spec : Value → Timespec
old_spec (timespec t) = t
old_spec _ = record { tv_sec = pos 0; tv_nsec = pos 0 }

module _ (kernel : Kernel) where
  -- The constructors.
  unfoldable pub create : ℕ → Action Timer
  unfolding is_set
  create flags = do
    a ← call kernel (Calls.timerfd_create clock_monotonic (bit_or flags o_cloexec))
    let fd : UniqueFd = manage a.ret in
        if is_set fd.fd_member
        then pure (record { timer_fd = fd })
        else throw (system_error a.errno)

  unfoldable pub create_default : Action Timer
  unfolding create
  create_default log = create 0 log

  -- set_oneshot with a duration, and with a time point; `now` is what the clock reads, both in
  -- nanoseconds.
  unfoldable pub set_oneshot : Timer → Duration → Action Timespec
  unfolding spec_of
  set_oneshot t time = do
    a ← checked kernel (Calls.timerfd_settime (fd_of t.timer_fd) 0 (spec_of time))
    pure (old_spec a.value)

  unfoldable pub set_oneshot_at : Timer → ℕ → ℕ → Action Timespec
  unfolding set_oneshot
  set_oneshot_at t now timeout =
      if ltb now timeout
      then set_oneshot t (nanoseconds (timeout - now))
      else set_oneshot t (nanoseconds 1)

  unfoldable pub read : Timer → Action ℕ
  read t = do a ← checked kernel (Calls.read (fd_of t.timer_fd) 8); pure (counter a.value)
