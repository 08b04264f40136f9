-- ===== src/Subprocess/Status.antt =====
-- linuxpp::subprocess::status (include/liblinuxpp/subprocess/status.hpp, src/subprocess/status.cpp).
pub mod Laws
use liblinuxpp.Prelude.{ℕ, Bool, true, false, not, ◌&&◌, ◌||◌, ◌==◌, if◌then◌else◌}

-- si_code: CLD_EXITED is 1, CLD_KILLED 2, CLD_DUMPED 3.
pub record SigInfo : Type 0 where
  pub si_pid : ℕ
  pub si_status : ℕ
  pub si_code : ℕ

pub data Error : Type 0 where
  pid_is_zero : Error
  not_signaled : Error
  no_exit_code : Error
  no_raw_exit_code : Error

pub data Result {ℓ} (A : Type ℓ) : Type ℓ where
  ok : A → Result A
  err : Error → Result A

pub record Status : Type 0 where
  pub exit_code_raw_ : ℕ
  pub exited_ : Bool
  pub called_exit_ : Bool
  pub signaled_ : Bool
  pub dumped_ : Bool

-- The default constructor.
abbrev pub unknown : Status
unknown = record {
  exit_code_raw_ = 0;
  exited_ = false;
  called_exit_ = false;
  signaled_ = false;
  dumped_ = false;
}

-- status(siginfo_t).
unfoldable pub of_siginfo : SigInfo → Result Status
of_siginfo info =
    let dumped = info.si_code == 3 in
    if info.si_pid == 0
    then err pid_is_zero
    else ok (record {
      exit_code_raw_ = info.si_status;
      exited_ = true;
      called_exit_ = info.si_code == 1;
      signaled_ = info.si_code == 2 || dumped;
      dumped_ = dumped;
    })

-- The move constructor and the move assignment between two objects: the target, and the source.
unfoldable pub move : Status → Status × Status
move other = (other, unknown)

unfoldable pub exited : Status → Bool
exited s = s.exited_

unfoldable pub called_exit : Status → Bool
called_exit s = s.called_exit_

unfoldable pub signaled : Status → Bool
signaled s = s.signaled_

unfoldable pub dumped : Status → Bool
dumped s = s.dumped_

unfoldable pub signal : Status → Result ℕ
unfolding signaled
signal s = if not (signaled s) then err not_signaled else ok s.exit_code_raw_

unfoldable pub exit_code : Status → Result ℕ
unfolding called_exit
exit_code s = if not (called_exit s) then err no_exit_code else ok s.exit_code_raw_

unfoldable pub exit_code_raw : Status → Result ℕ
unfolding signaled
exit_code_raw s =
    if not s.exited_ && not (signaled s) then err no_raw_exit_code else ok s.exit_code_raw_
