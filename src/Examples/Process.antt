-- ===== src/Examples/Process.antt =====
-- Examples of descriptors, results of system calls and child processes
-- (include/liblinuxpp/unique_fd.hpp, src/pipe.cpp, src/subprocess/popen.cpp).
use liblinuxpp.Prelude.{ℕ, ◌+◌, ◌≡◌, ◌≢◌, ◌↔◌, ◌⊎◌, refl, true, false, List, [], ◌∷◌, inl, inr}
use liblinuxpp.Prelude.Int.{ℤ, pos, negsuc}
use liblinuxpp.Descriptor.{
  of_value, manage, invalid_value, Op, reset_first, release_first, assign_first, exchange, run,
  leave,
}
use liblinuxpp.Descriptor.Ownership.{count, lost_in, fresh, leave-run}
use liblinuxpp.Subprocess.Status
use liblinuxpp.Subprocess.Status.{
  SigInfo, Status, unknown, of_siginfo, exit_code, exit_code_raw, not_signaled, no_exit_code,
}
use liblinuxpp.Subprocess.Status.Laws.{of_siginfo_ended}
use liblinuxpp.Subprocess.Popen.{
  Popen, ok, err, pid_not_set, Answer, filled, wait, signal, is_running, terminates,
}
use liblinuxpp.Subprocess.Popen.Laws.{IsConsistent, wait_ended, wait_status}

abbrev exchanges : List Op
exchanges = reset_first (pos 5) ∷ exchange ∷ reset_first (pos 6) ∷ assign_first ∷ release_first ∷ []

leave-run_example :
    count 6 (leave (run exchanges fresh))
      + count 6 (run exchanges fresh).taken
      + lost_in 6 exchanges fresh
    ≡ count 6 (run exchanges fresh).given
leave-run_example = leave-run 6 exchanges

abbrev minus_one : ℤ
minus_one = negsuc 0

abbrev child : Popen
child = record {
  child_pid = of_value (pos 42);
  stdin_stream = manage invalid_value;
  stdout_stream = manage invalid_value;
  stderr_stream = manage invalid_value;
  child_status = unknown;
}

child-IsConsistent : IsConsistent child
unfolding is_running
child-IsConsistent = record { awaited = λ e. refl; ended = λ e. cc }

-- The child was killed by the signal 9.
abbrev killed : SigInfo
killed = record { si_pid = 42; si_code = 2; si_status = 9 }

abbrev killed_status : Status
killed_status = record {
  exit_code_raw_ = 9;
  exited_ = true;
  called_exit_ = false;
  signaled_ = true;
  dumped_ = false;
}

wait_ended_example :
    ((later : Answer)
      → wait (wait child (filled killed)).0 later
        ≡ ((wait child (filled killed)).0, ok killed_status))
    × ((errno : ℕ) → signal (wait child (filled killed)).0 errno ≡ err pid_not_set)
    × (terminates (wait child (filled killed)).0 ≡ false)
unfolding wait of_siginfo
wait_ended_example = wait_ended child (filled killed) killed_status child-IsConsistent refl refl

wait_status_example :
    ((killed_status.exited_ ≡ true) ↔ (is_running (wait child (filled killed)).0 ≡ false))
    × (killed_status.exited_ ≡ false → (wait child (filled killed)).0 ≡ child)
unfolding wait of_siginfo
wait_status_example = wait_status child (filled killed) killed_status child-IsConsistent refl

of_siginfo_ended_example :
    (exit_code_raw killed_status ≡ Status.ok 9)
    × ((killed.si_code ≡ 1)
          × (exit_code killed_status ≡ Status.ok 9)
          × (Status.signal killed_status ≡ Status.err not_signaled)
        ⊎ (killed.si_code ≢ 1)
          × (exit_code killed_status ≡ Status.err no_exit_code)
          × (Status.signal killed_status ≡ Status.ok 9))
unfolding of_siginfo
of_siginfo_ended_example = of_siginfo_ended killed killed_status refl (inr (inl refl))
