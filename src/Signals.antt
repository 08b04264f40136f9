-- ===== src/Signals.antt =====
-- linuxpp::signal_mutex (include/liblinuxpp/signal_mutex.hpp, src/signal_mutex.cpp). A sigset_t is the
-- test of a signal; pthread_sigmask is a parameter, which works on the state of the thread.
pub mod Guards
use liblinuxpp.Prelude.{ℕ, Bool, true, ◌==◌, if◌then◌else◌}
use liblinuxpp.Syscall.{Result, ok, err, system_error}

abbrev pub SignalSet : Type 0
SignalSet = ℕ → Bool

pub data How : Type 0 where
  sig_block : How
  sig_setmask : How

-- What pthread_sigmask answers: the returned value, what errno holds then, and the set that it stores.
pub record Answer : Type 0 where
  pub ret : ℕ
  pub errno : ℕ
  pub old_set : SignalSet

pub record Kernel : Type 1 where
  pub Thread : Type 0
  pub sigmask : Thread → How → SignalSet → Thread × Answer

pub record SignalMutex : Type 0 where
  pub sigset : SignalSet
  pub prev_sigset : SignalSet

-- The constructors; sigfillset puts every signal in the set. What prev_sigset_ holds at first is not
-- set by the code.
unfoldable pub of_all : SignalSet → SignalMutex
of_all unset = record { sigset = λ _. true; prev_sigset = unset }

unfoldable pub of_set : SignalSet → SignalSet → SignalMutex
of_set unset sigset = record { sigset = sigset; prev_sigset = unset }

module _ (k : Kernel) where
  unfoldable pub lock : SignalMutex → k.Thread → Result SignalMutex × k.Thread
  lock m t =
      let (after, a) = k.sigmask t sig_block m.sigset in
      if a.ret == 0
      then (ok (record m { prev_sigset = a.old_set }), after)
      else (err (system_error a.errno), after)

  unfoldable pub unlock : SignalMutex → k.Thread → k.Thread
  unlock m t = (k.sigmask t sig_setmask m.prev_sigset).0
