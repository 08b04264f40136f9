-- ===== src/Examples/Threads.antt =====
-- Threads that share a loop, on an event counter that saturates: a thread adds a callback while the loop
-- waits, and another one calls stop.
use liblinuxpp.Prelude.{
  ℕ, ◌≡◌, refl, ◌≢◌, ◌+◌, ◌∷◌, [], ◌++◌, true, false, ltb, ◌≤◌, if◌then◌else◌, arith, length,
}
use liblinuxpp.Ioloop.Loop.{eagain}
use liblinuxpp.Ioloop.Threads.{
  EventCounter, Shared, System, Reach, start, later, by_thread, by_loop, lock, read_vector, push,
  write, unlock, clear, write_stop, begin, enter, wake, read_callbacks, lock_loop, read_moved,
  callbacks_event, idle, pushed, waiting, testing, outside, handling, taking, critical,
  loop_critical, in_hand,
}
use liblinuxpp.Ioloop.Threads.Safety.{mutual_exclusion, callbacks_in_order, no_lost_wakeup}
use liblinuxpp.Ioloop.Threads.Delivery.{LoopRun, callbacks_delivered, stop_ends}
use liblinuxpp.Ioloop.Threads.Progress.{Within, work, stay, then_move, round_bounded}

abbrev full : ℕ
full = 0xfffffffffffffffe

abbrev Writes : ℕ → ℕ → ℕ → Type 0
Writes c errno d =
    (errno ≡ (if ltb c full then 0 else eagain)) × (d ≡ (if ltb c full then c + 1 else c))

write_ok : (c d : ℕ) → Writes c 0 d → ltb 0 d ≡ true
write_ok c d h = ground arith

write_again : (c d : ℕ) → Writes c eagain d → ltb 0 d ≡ true
write_again c d h = ground arith

write_keeps : (c d errno : ℕ) → ltb 0 c ≡ true → Writes c errno d → ltb 0 d ≡ true
write_keeps c d errno r h = ground arith

-- An eventfd that is not a semaphore: a read takes all that was added.
abbrev counter : EventCounter
counter = record {
  Counter = ℕ;
  fresh = 0;
  readable = ltb 0;
  Writes = Writes;
  Reads = λ c d. d ≡ 0;
  write_ok = write_ok;
  write_again = write_again;
  write_keeps = write_keeps;
  read_returns = λ c h. (0, refl);
}

-- The loop waits, and thread 1 has read the vector for its push_back.
abbrev adding : (s : System counter) × Reach counter s
adding = (
  _,
  later
      (later (later (later start (by_loop begin)) (by_loop (enter refl)))
        (by_thread 1 (lock 7 refl)))
      (by_thread 1 read_vector),
)

-- It has put callback 7, woken the loop and left.
abbrev added : (s : System counter) × Reach counter s
added = (
  _,
  later (later (later adding.1 (by_thread 1 push)) (by_thread 1 (write 0 (refl, refl))))
      (by_thread 1 unlock),
)

-- Then thread 2 has called stop.
abbrev stopped : (s : System counter) × Reach counter s
stopped = (_, later (later added.1 (by_thread 2 clear)) (by_thread 2 (write_stop 0 (refl, refl))))

-- Then the loop is about to move the callback out of the vector.
abbrev collected : (s : System counter) × Reach counter s
collected = (
  _,
  later
      (later
        (later (later added.1 (by_loop (wake callbacks_event [] (refl, tt))))
          (by_loop (read_callbacks refl)))
        (by_loop (lock_loop refl)))
      (by_loop read_moved),
)

mutual_exclusion_example :
    ((i j : ℕ) → critical (adding.0.pc i) ≡ true → critical (adding.0.pc j) ≡ true → i ≡ j)
    × ((i : ℕ) → critical (adding.0.pc i) ≡ true → loop_critical adding.0.loop ≡ false)
mutual_exclusion_example = mutual_exclusion counter adding.1

callbacks_in_order_example :
    collected.0.mem.called ++ (in_hand collected.0.loop ++ collected.0.mem.new_callbacks)
    ≡ collected.0.mem.added
callbacks_in_order_example = callbacks_in_order counter collected.1

added-quiet : (i : ℕ) → added.0.pc i ≡ idle
added-quiet i = ground arith

stopped-quiet : (i : ℕ) → stopped.0.pc i ≡ idle
stopped-quiet i = ground arith

added-none_pushed : (i : ℕ) → added.0.pc i ≢ pushed
added-none_pushed i = ground arith

no_lost_wakeup_example : ltb 0 added.0.mem.callbacks_eventfd ≡ true
no_lost_wakeup_example = no_lost_wakeup counter added.1 refl (cc) added-none_pushed refl

callbacks_delivered_example :
    (t : Shared counter) × LoopRun counter added.0.mem waiting t testing
    × (t.called ≡ 7 ∷ [])
    × (t.new_callbacks ≡ [])
callbacks_delivered_example = callbacks_delivered counter added.1 added-quiet refl (cc) refl

stop_ends_example :
    (ltb 0 stopped.0.mem.stop_eventfd ≡ true)
    × ((t : Shared counter) × LoopRun counter stopped.0.mem waiting t outside)
stop_ends_example = stop_ends counter stopped.1 stopped-quiet refl refl refl

abbrev two_steps :
    (u : Shared counter) × Within counter added.0.mem
      (handling (callbacks_event ∷ []))
      2
      u
      (taking [])
two_steps = (_, then_move (then_move stay refl (read_callbacks refl)) refl (lock_loop refl))

round_bounded_example :
    2 + work (length two_steps.0.new_callbacks) (taking [])
    ≤ work (length added.0.mem.new_callbacks) (handling (callbacks_event ∷ []))
round_bounded_example = round_bounded counter two_steps.1
