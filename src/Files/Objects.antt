-- ===== src/Files/Objects.antt =====
-- The templates of linuxpp::pipe that write and read an object (include/liblinuxpp/pipe.hpp), for the
-- types with which they compile: write passes the object where a pointer to a buffer is expected, so
-- it is a pointer, and read returns the result of the transfer, so it is an ssize_t. Both have 8 bytes.
use liblinuxpp.Prelude.{ℕ, Bool, not, ◌||◌, ◌==◌, if◌then◌else◌}
use liblinuxpp.Prelude.Int.{ℤ, pos}
use liblinuxpp.Syscall.{SyscallReturn, of_both, is_good}
use liblinuxpp.Calls.{Kernel, system_error, Action, pure, throw, ◌>>=◌, to_size}
use liblinuxpp.Files.{Pipe, value_or_throw, pipe_write_nothrow, pipe_read_nothrow, enodata}

abbrev pub eagain : ℕ
eagain = 11

abbrev pub object_size : ℕ
object_size = 8

-- `ret.return_value() != sizeof(obj)`, which converts the signed number.
abbrev pub is_partial : SyscallReturn → Bool
is_partial r = not (to_size r.return_member == object_size)

module _ (kernel : Kernel) where
  -- write of a pointer to a buffer that is named.
  unfoldable pub write_object_nothrow : Pipe → ℕ → Action SyscallReturn
  unfolding pipe_write_nothrow is_good
  write_object_nothrow p obj = do
    ret ← pipe_write_nothrow kernel p obj object_size
    if not (is_good ret) || is_partial ret
        then pure (of_both eagain ret.return_member)
        else pure (of_both 0 ret.return_member)

  unfoldable pub write_object : Pipe → ℕ → Action (Unit {0})
  unfolding write_object_nothrow is_good
  write_object p obj = do
    ret ← write_object_nothrow p obj
    if not (is_good ret)
        then throw (system_error ret.errno_member)
        else (if is_partial ret then throw (system_error eagain) else pure tt)

  -- read; the results made by `seterrno` hold an errno value that is not 0, and no object.
  unfoldable pub read_object_nothrow : Pipe → Action SyscallReturn
  unfolding pipe_read_nothrow is_good
  read_object_nothrow p = do
    ret ← pipe_read_nothrow kernel p object_size
    if not (is_good ret)
        then pure (of_both ret.errno_member (pos 0))
        else (if is_partial ret then pure (of_both enodata (pos 0)) else pure ret)

  unfoldable pub read_object : Pipe → Action ℤ
  unfolding read_object_nothrow
  read_object p = do ret ← read_object_nothrow p; value_or_throw ret
