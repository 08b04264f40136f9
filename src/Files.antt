-- ===== src/Files.antt =====
-- The wrappers of system calls on files: src/open.cpp, src/pipe.cpp, src/eventfd.cpp and, under
-- include/liblinuxpp, read.hpp, write.hpp, fcntl.hpp and pipe.hpp.
pub mod Objects
use Prim.Native.Nat.{bit_or}
use liblinuxpp.Prelude.{ℕ, List, ◌==◌, if◌then◌else◌}
use liblinuxpp.Prelude.Int.{ℤ, pos, eqb_ℤ, to_int}
use liblinuxpp.Syscall.{SyscallReturn, of_both, pipe_transfer_nothrow, checked_return}
use liblinuxpp.Calls
use liblinuxpp.Calls.{
  Value, u64_value, two_fds, Call, Answer, Kernel, Result, ok, err, system_error, invalid_argument,
  Action, pure, throw, ◌>>=◌, ◌>>◌, minus_one, call, checked, to_size,
}
use liblinuxpp.Descriptor.{UniqueFd, is_set, manage}

-- O_CLOEXEC, which EFD_CLOEXEC and TFD_CLOEXEC equal, and the errno values that the code names.
abbrev pub o_cloexec : ℕ
o_cloexec = 524288

abbrev pub enodata : ℕ
enodata = 61

-- linuxpp::pipe.
pub record Pipe : Type 0 where
  pub read_fd : UniqueFd
  pub write_fd : UniqueFd

unfoldable pub swap : Pipe → Pipe → Pipe × Pipe
swap this other = (other, this)

-- linuxpp::eventfd.
pub record Eventfd : Type 0 where
  pub event_fd : UniqueFd

abbrev pub fd_of : UniqueFd → ℤ
fd_of u = u.fd_member.descriptor

-- The value of a bad return, thrown.
abbrev pub value_or_throw : SyscallReturn → Action ℤ
value_or_throw r log =
    if r.errno_member == 0
    then pure r.return_member log
    else throw (system_error r.errno_member) log

abbrev pub descriptors : Value → ℤ × ℤ
descriptors (two_fds a b) = (a, b)
descriptors _ = (pos 0, pos 0)

abbrev pub counter : Value → ℕ
counter (u64_value n) = n
counter _ = 0

module _ (kernel : Kernel) where
  -- linuxpp::read, linuxpp::write, linuxpp::fcntl.
  unfoldable pub read : ℤ → ℕ → Action ℕ
  read fd length = do a ← checked kernel (Calls.read fd length); pure (to_size a.ret)

  unfoldable pub write : ℤ → ℕ → ℕ → Action ℕ
  write fd buf length = do a ← checked kernel (Calls.write fd buf length); pure (to_size a.ret)

  unfoldable pub write_nothrow : ℤ → ℕ → ℕ → Action SyscallReturn
  unfolding checked_return
  write_nothrow fd buf length = do
    a ← call kernel (Calls.write fd buf length)
    pure (checked_return a.errno a.ret)

  unfoldable pub fcntl : ℤ → ℕ → List ℤ → Action ℤ
  fcntl fd cmd args = do a ← checked kernel (Calls.fcntl fd cmd args); pure a.ret

  -- linuxpp::open: the overloads that do not add O_CLOEXEC, with a mode and without, and those that do.
  unfoldable pub open_nothrow_nocloexec : ℕ → ℕ → ℕ → Action SyscallReturn
  open_nothrow_nocloexec path flags mode = do
    _ ← call kernel Calls.clear_errno
    a ← call kernel (Calls.open_path path flags mode)
    pure (of_both a.errno a.ret)

  unfoldable pub open_nocloexec : ℕ → ℕ → ℕ → Action ℤ
  unfolding open_nothrow_nocloexec
  open_nocloexec path flags mode = do r ← open_nothrow_nocloexec path flags mode; value_or_throw r

  unfoldable pub open_nothrow_nocloexec_modeless : ℕ → ℕ → Action SyscallReturn
  unfolding open_nothrow_nocloexec
  open_nothrow_nocloexec_modeless path flags = open_nothrow_nocloexec path flags 0

  unfoldable pub open_nocloexec_modeless : ℕ → ℕ → Action ℤ
  unfolding open_nocloexec
  open_nocloexec_modeless path flags = open_nocloexec path flags 0

  unfoldable pub open_modeless : ℕ → ℕ → Action ℤ
  unfolding open_nocloexec_modeless
  open_modeless path flags = open_nocloexec_modeless path (bit_or flags o_cloexec)

  unfoldable pub open_nothrow_modeless : ℕ → ℕ → Action SyscallReturn
  unfolding open_nothrow_nocloexec_modeless
  open_nothrow_modeless path flags = open_nothrow_nocloexec_modeless path (bit_or flags o_cloexec)

  unfoldable pub open_file : ℕ → ℕ → ℕ → Action ℤ
  unfolding open_nocloexec
  open_file path flags mode = open_nocloexec path (bit_or flags o_cloexec) mode

  unfoldable pub open_nothrow : ℕ → ℕ → ℕ → Action SyscallReturn
  unfolding open_nothrow_nocloexec
  open_nothrow path flags mode = open_nothrow_nocloexec path (bit_or flags o_cloexec) mode

  -- pipe_fd, pipe_unique_fd and the constructors of pipe, without O_CLOEXEC and with it.
  unfoldable pub pipe_fd_nocloexec : ℕ → Action (ℤ × ℤ)
  pipe_fd_nocloexec flags = do a ← checked kernel (Calls.pipe2 flags); pure (descriptors a.value)

  unfoldable pub pipe_fd : ℕ → Action (ℤ × ℤ)
  unfolding pipe_fd_nocloexec
  pipe_fd flags = pipe_fd_nocloexec (bit_or flags o_cloexec)

  unfoldable pub pipe_unique_fd_nocloexec : ℕ → Action (UniqueFd × UniqueFd)
  unfolding pipe_fd_nocloexec
  pipe_unique_fd_nocloexec flags = do
    fds ← pipe_fd_nocloexec flags
    pure (manage fds.0, manage fds.1)

  unfoldable pub pipe_unique_fd : ℕ → Action (UniqueFd × UniqueFd)
  unfolding pipe_unique_fd_nocloexec
  pipe_unique_fd flags = pipe_unique_fd_nocloexec (bit_or flags o_cloexec)

  unfoldable pub pipe : ℕ → Action Pipe
  unfolding pipe_unique_fd
  pipe flags = do fds ← pipe_unique_fd flags; pure (record { read_fd = fds.0; write_fd = fds.1 })

  unfoldable pub pipe_nocloexec : ℕ → Action Pipe
  unfolding pipe_unique_fd_nocloexec
  pipe_nocloexec flags = do
    fds ← pipe_unique_fd_nocloexec flags
    pure (record { read_fd = fds.0; write_fd = fds.1 })

  -- pipe::write and pipe::read of a buffer.
  unfoldable pub pipe_write_nothrow : Pipe → ℕ → ℕ → Action SyscallReturn
  unfolding pipe_transfer_nothrow
  pipe_write_nothrow p buf size = do
    a ← call kernel (Calls.write (fd_of p.write_fd) buf size)
    pure (pipe_transfer_nothrow a.errno a.ret)

  unfoldable pub pipe_write : Pipe → ℕ → ℕ → Action ℕ
  unfolding pipe_write_nothrow
  pipe_write p buf size = do
    r ← pipe_write_nothrow p buf size
    n ← value_or_throw r
    pure (to_size n)

  unfoldable pub pipe_read_nothrow : Pipe → ℕ → Action SyscallReturn
  unfolding pipe_transfer_nothrow
  pipe_read_nothrow p size = do
    a ← call kernel (Calls.read (fd_of p.read_fd) size)
    pure (pipe_transfer_nothrow a.errno a.ret)

  unfoldable pub pipe_read : Pipe → ℕ → Action ℕ
  unfolding pipe_read_nothrow
  pipe_read p size = do r ← pipe_read_nothrow p size; n ← value_or_throw r; pure (to_size n)

  -- The constructors of eventfd, its reads and writes.
  unfoldable pub eventfd : ℕ → ℕ → Action Eventfd
  unfolding is_set
  eventfd initvalue flags = do
    a ← call kernel (Calls.eventfd initvalue (bit_or flags o_cloexec))
    let fd : UniqueFd = manage a.ret in
        if is_set fd.fd_member
        then pure (record { event_fd = fd })
        else throw (system_error a.errno)

  unfoldable pub eventfd_flags : ℕ → Action Eventfd
  unfolding eventfd
  eventfd_flags flags = eventfd 0 flags

  unfoldable pub eventfd_default : Action Eventfd
  unfolding eventfd
  eventfd_default log = eventfd 0 0 log

  unfoldable pub eventfd_write : Eventfd → ℕ → Action (Unit {0})
  unfolding write
  eventfd_write e value = do _ ← write (fd_of e.event_fd) value 8; pure tt

  unfoldable pub eventfd_signal : Eventfd → Action (Unit {0})
  unfolding eventfd_write
  eventfd_signal e = eventfd_write e 1

  unfoldable pub eventfd_write_nothrow : Eventfd → ℕ → Action SyscallReturn
  unfolding write_nothrow
  eventfd_write_nothrow e value = write_nothrow (fd_of e.event_fd) value 8

  unfoldable pub eventfd_signal_nothrow : Eventfd → Action SyscallReturn
  unfolding eventfd_write_nothrow
  eventfd_signal_nothrow e = eventfd_write_nothrow e 1

  unfoldable pub eventfd_read : Eventfd → Action ℕ
  eventfd_read e = do
    a ← call kernel (Calls.read (fd_of e.event_fd) 8)
    if eqb_ℤ (to_int a.ret) minus_one then throw (system_error a.errno) else pure (counter a.value)
