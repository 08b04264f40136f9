-- ===== src/Subprocess/Status/Laws.antt =====
-- What the accessors of a status say of the child (src/subprocess/status.cpp).
use liblinuxpp.Prelude.{◌≡◌, ◌≢◌, ◌⊎◌, arith, inl, inr}
use liblinuxpp.Subprocess.Status.{
  SigInfo, Status, ok, err, not_signaled, no_exit_code, of_siginfo, signal, exit_code,
  exit_code_raw,
}

-- What the kernel says of a child that has ended: it exited, was killed, or was killed with a core.
abbrev pub HasEnded : SigInfo → Type 0
HasEnded info = (info.si_code ≡ 1) ⊎ (info.si_code ≡ 2) ⊎ (info.si_code ≡ 3)

-- A status made from what the kernel says of a child that exited or was killed tells an exit from a
-- death by a signal: exactly one of exit_code and signal has a value, the one that the kernel gave,
-- the other throws, and exit_code_raw has that value in both cases.
pub of_siginfo_ended :
    (info : SigInfo) (s : Status)
    → of_siginfo info ≡ ok s
    → HasEnded info
    → (exit_code_raw s ≡ ok info.si_status)
      × ((info.si_code ≡ 1) × (exit_code s ≡ ok info.si_status) × (signal s ≡ err not_signaled)
          ⊎ (info.si_code ≢ 1) × (exit_code s ≡ err no_exit_code) × (signal s ≡ ok info.si_status))
unfolding of_siginfo exit_code signal exit_code_raw
of_siginfo_ended info s e (inl c) = (ground arith, inl (c, ground arith, ground arith))
of_siginfo_ended info s e (inr (inl c)) =
    (ground arith, inr (omega arith, ground arith, ground arith))
of_siginfo_ended info s e (inr (inr c)) =
    (ground arith, inr (omega arith, ground arith, ground arith))
