-- ===== src/Subprocess/Popen/Laws.antt =====
-- The life of a popen object after its child has been started (src/subprocess/popen.cpp).
use liblinuxpp.Prelude.{ℕ, ◌≡◌, ◌↔◌, true, false, arith}
use liblinuxpp.Subprocess.Status.{Status, unknown, of_siginfo}
use liblinuxpp.Subprocess.Popen.{
  Popen, ok, err, pid_not_set, Answer, failed, filled, wait, signal, is_running, terminates,
}

-- The object has either a child to wait for or the status of one that has ended.
pub record IsConsistent (p : Popen) : Type 0 where
  pub awaited : is_running p ≡ true → p.child_status ≡ unknown
  pub ended : is_running p ≡ false → p.child_status.exited_ ≡ true

-- Waiting and polling keep a popen object consistent, whatever the kernel answers: it has either a
-- child to wait for or the status of one that has ended.
pub wait-IsConsistent :
    (p : Popen) (answer : Answer) → IsConsistent p → IsConsistent (wait p answer).0
unfolding wait is_running of_siginfo
wait-IsConsistent p (failed errno) v = ground arith
wait-IsConsistent p (filled info) v = ground arith

-- Once a wait or a poll of a consistent object has returned a status that says the child has ended,
-- each later call returns that status and leaves the object as it is whatever the kernel would
-- answer, a signal is refused, and the destructor does not terminate the program.
pub wait_ended :
    (p : Popen) (answer : Answer) (s : Status)
    → IsConsistent p
    → (wait p answer).1 ≡ ok s
    → s.exited_ ≡ true
    → let q = (wait p answer).0 in
      ((later : Answer) → wait q later ≡ (q, ok s))
      × ((errno : ℕ) → signal q errno ≡ err pid_not_set)
      × (terminates q ≡ false)
unfolding wait signal terminates is_running of_siginfo
wait_ended p (failed errno) s v e x = ((λ a. ground arith), (λ n. ground arith), ground arith)
wait_ended p (filled info) s v e x = ((λ a. ground arith), (λ n. ground arith), ground arith)

-- The status that a call on a consistent object returns says that the child has ended exactly when
-- the child is no longer to be waited for; until then a call that returns leaves the object as it
-- was.
pub wait_status :
    (p : Popen) (answer : Answer) (s : Status)
    → IsConsistent p
    → (wait p answer).1 ≡ ok s
    → ((s.exited_ ≡ true) ↔ (is_running (wait p answer).0 ≡ false))
      × (s.exited_ ≡ false → (wait p answer).0 ≡ p)
unfolding wait is_running of_siginfo
wait_status p (failed errno) s v e = (((λ x. ground arith), (λ x. ground arith)), λ x. ground arith)
wait_status p (filled info) s v e = (((λ x. ground arith), (λ x. ground arith)), λ x. ground arith)
