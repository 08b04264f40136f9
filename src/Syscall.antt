-- ===== src/Syscall.antt =====
-- linuxpp::syscall_return (include/liblinuxpp/syscall_return.hpp), and the reads and writes of
-- linuxpp::pipe that return one (src/pipe.cpp). `errno` is what the variable holds after the system
-- call, which sets it only when it fails.
pub mod Laws
use liblinuxpp.Prelude.{ℕ, Bool, true, false, not, Option, none, some, ◌==◌, if◌then◌else◌}
use liblinuxpp.Prelude.Int.{ℤ, pos, negsuc, eqb_ℤ}

pub record SyscallReturn : Type 0 where
  pub errno_member : ℕ
  pub return_member : ℤ

-- The three constructors; the one that is given an errno value throws if it is 0.
abbrev pub of_return : ℤ → SyscallReturn
of_return value = record { errno_member = 0; return_member = value }

pub data Error : Type 0 where
  errno_is_zero : Error
  system_error : ℕ → Error

pub data Result {ℓ} (A : Type ℓ) : Type ℓ where
  ok : A → Result A
  err : Error → Result A

unfoldable pub of_errno : ℕ → Result SyscallReturn
of_errno errno =
    if errno == 0
    then err errno_is_zero
    else ok (record { errno_member = errno; return_member = pos 0 })

abbrev pub of_both : ℕ → ℤ → SyscallReturn
of_both errno value = record { errno_member = errno; return_member = value }

-- operator bool, good and fail.
unfoldable pub is_good : SyscallReturn → Bool
is_good r = r.errno_member == 0

unfoldable pub fail : SyscallReturn → Bool
unfolding is_good
fail r = not (is_good r)

-- pipe::write(std::nothrow, …) and pipe::read(std::nothrow, …) by what the call returned.
unfoldable pub pipe_transfer_nothrow : ℕ → ℤ → SyscallReturn
pipe_transfer_nothrow errno ret = of_both errno ret

-- pipe::write and pipe::read, which throw on a bad return: the count of bytes as a std::size_t.
unfoldable pub pipe_transfer : ℕ → ℤ → Result ℤ
unfolding pipe_transfer_nothrow is_good
pipe_transfer errno ret =
    let r = pipe_transfer_nothrow errno ret in
    if is_good r then ok r.return_member else err (system_error r.errno_member)

-- epoll::wait(std::nothrow, …) and the other calls that look at the returned value first.
unfoldable pub checked_return : ℕ → ℤ → SyscallReturn
checked_return errno ret = if eqb_ℤ ret (negsuc 0) then of_both errno ret else of_return ret
