-- ===== src/Subprocess/Popen.antt =====
-- linuxpp::subprocess::popen (include/liblinuxpp/subprocess/popen.hpp, src/subprocess/popen.cpp,
-- src/subprocess/wait.cpp): waiting for the child, polling it and signalling it, and moving the object. The answers of the
-- system calls waitid and kill are arguments.
pub mod Laws
use liblinuxpp.Prelude.{ℕ, Bool, true, false, not, Option, none, some, ◌==◌, if◌then◌else◌}
use liblinuxpp.Prelude.Int.{ℤ, pos}
use liblinuxpp.Descriptor
use liblinuxpp.Descriptor.{
  unique_move, unique_move_assign, IntDescriptor, UniqueFd, is_set, release,
}
use liblinuxpp.Subprocess.Status
use liblinuxpp.Subprocess.Status.{Status, SigInfo, of_siginfo}

-- popen::members_.
pub record Popen : Type 0 where
  pub child_pid : IntDescriptor
  pub stdin_stream : UniqueFd
  pub stdout_stream : UniqueFd
  pub stderr_stream : UniqueFd
  pub child_status : Status

pub data Error : Type 0 where
  pid_not_set : Error
  waitid_failed : ℕ → Error
  kill_failed : ℕ → Error
  bad_siginfo : Status.Error → Error

pub data Result {ℓ} (A : Type ℓ) : Type ℓ where
  ok : A → Result A
  err : Error → Result A

-- The system call waitid: -1 and errno, or what it left in the siginfo, whose si_pid was 0 before.
pub data Answer : Type 0 where
  failed : ℕ → Answer
  filled : SigInfo → Answer

-- linuxpp::subprocess::waitid: whether a child was reported, and the siginfo.
unfoldable pub waitid : Answer → Result (Bool × SigInfo)
waitid (failed errno) = err (waitid_failed errno)
waitid (filled info) = ok (not (info.si_pid == 0), info)

-- `child_pid` is released before the status is constructed.
abbrev pub store_status : Popen → Status.Result Status → Popen × Result Status
store_status p (Status.ok s) = (record p { child_status = s }, ok s)
store_status p (Status.err e) = (p, err (bad_siginfo e))

after_waitid : Popen → Result (Bool × SigInfo) → Popen × Result Status
unfolding release
after_waitid p (err e) = (p, err e)
after_waitid p (ok (child_exited, info)) =
    if child_exited
    then store_status (record p { child_pid = (release p.child_pid).0 }) (of_siginfo info)
    else (p, ok p.child_status)

-- popen::wait(options): the options, which say whether the call blocks, show in the answer only.
unfoldable pub wait : Popen → Answer → Popen × Result Status
unfolding waitid after_waitid is_set
wait p answer =
    if not (is_set p.child_pid) then (p, ok p.child_status) else after_waitid p (waitid answer)

-- popen::poll: with WNOHANG an answer without a child leaves si_pid at 0.
unfoldable pub poll : Popen → Answer → Popen × Result Status
unfolding wait
poll p answer = wait p answer

-- popen::signal, by what kill answers: 0, or an errno value.
unfoldable pub signal : Popen → ℕ → Result (Unit {0})
unfolding is_set
signal p errno =
    if not (is_set p.child_pid)
    then err pid_not_set
    else (if errno == 0 then ok tt else err (kill_failed errno))

-- operator bool.
unfoldable pub is_running : Popen → Bool
unfolding is_set
is_running p = is_set p.child_pid

-- ~popen calls std::terminate while the child has not been waited for.
unfoldable pub terminates : Popen → Bool
unfolding is_set
terminates p = is_set p.child_pid

-- The defaulted moves, member by member, and swap: this object, and the other.
unfoldable pub move : Popen → Popen × Popen
unfolding Descriptor.move unique_move Status.move
move other =
    let (pid, pid_left) = Descriptor.move other.child_pid in
    let (sin, sin_left) = unique_move other.stdin_stream in
    let (sout, sout_left) = unique_move other.stdout_stream in
    let (serr, serr_left) = unique_move other.stderr_stream in
    let (status, status_left) = Status.move other.child_status in
    (
      record {
        child_pid = pid;
        stdin_stream = sin;
        stdout_stream = sout;
        stderr_stream = serr;
        child_status = status;
      },
      record {
        child_pid = pid_left;
        stdin_stream = sin_left;
        stdout_stream = sout_left;
        stderr_stream = serr_left;
        child_status = status_left;
      },
    )

unfoldable pub move_assign : Popen → Popen → Popen × Popen
unfolding Descriptor.move_assign unique_move_assign Status.move
move_assign this other =
    let (pid, pid_left) = Descriptor.move_assign this.child_pid other.child_pid in
    let (sin, sin_left) = unique_move_assign this.stdin_stream other.stdin_stream in
    let (sout, sout_left) = unique_move_assign this.stdout_stream other.stdout_stream in
    let (serr, serr_left) = unique_move_assign this.stderr_stream other.stderr_stream in
    let (status, status_left) = Status.move other.child_status in
    (
      record {
        child_pid = pid;
        stdin_stream = sin;
        stdout_stream = sout;
        stderr_stream = serr;
        child_status = status;
      },
      record {
        child_pid = pid_left;
        stdin_stream = sin_left;
        stdout_stream = sout_left;
        stderr_stream = serr_left;
        child_status = status_left;
      },
    )

unfoldable pub swap : Popen → Popen → Popen × Popen
swap this other = (other, this)
