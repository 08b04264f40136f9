-- ===== src/Ioloop/Threads/Safety.antt =====
-- What holds in every state that the threads reach.
use liblinuxpp.Prelude.{ℕ, ◌≡◌, ◌≢◌, Bool-cases, inl, inr, true, false, [], ◌++◌, arith}
use liblinuxpp.Ioloop.Threads.Defs.{EventCounter, pushed, stopping, System, Reach}
use liblinuxpp.Ioloop.Threads.Inv.{critical, loop_critical, in_hand, is_collecting, is_waiting}
use liblinuxpp.Ioloop.Threads.Invariant.{Reach-Inv}

module _ (k : EventCounter) {s : System k} (r : Reach k s) where
  open (Reach-Inv k r) use {guarded, loop_guarded, kept, awake, stop_seen}
  open k use {readable}

  -- In every state that threads reach of which one runs start and the others call add_callback and
  -- stop, over event counters that behave as documented, no two threads are between the lock and
  -- the unlock of mutex_, and none of the others is where the loop is between them in
  -- process_callbacks.
  pub mutual_exclusion :
      ((i j : ℕ) → critical (s.pc i) ≡ true → critical (s.pc j) ≡ true → i ≡ j)
      × ((i : ℕ) → critical (s.pc i) ≡ true → loop_critical s.loop ≡ false)
  mutual_exclusion = (
    λ i j p q. ground (arith, guarded i p, guarded j q),
    λ i p. ground (arith, guarded i p, loop_guarded),
  )

  -- In every state that threads reach of which one runs start and the others call add_callback and
  -- stop, over event counters that behave as documented, the callbacks that were called, then those
  -- that process_callbacks has moved out and not called yet, then those in new_callbacks_ are the
  -- callbacks that add_callback has put there, in their order: none is lost, called twice or
  -- overtaken, where push_back and the move of the vector each read it and write it in two steps.
  pub callbacks_in_order : s.mem.called ++ (in_hand s.loop ++ s.mem.new_callbacks) ≡ s.mem.added
  callbacks_in_order = kept

  -- In every state that threads reach of which one runs start and the others call add_callback and
  -- stop, over event counters that behave as documented, if add_callback and stop have never
  -- thrown, new_callbacks_ is not empty, no thread is between its push_back and its write of the
  -- eventfd, and process_callbacks is not between its read of the eventfd and its move of the
  -- vector, then the eventfd is readable.
  pub no_lost_wakeup :
      s.mem.thrown ≡ false
      → s.mem.new_callbacks ≢ []
      → ((i : ℕ) → s.pc i ≢ pushed)
      → is_collecting s.loop ≡ false
      → readable s.mem.callbacks_eventfd ≡ true
  no_lost_wakeup t n none_pushed c = elim (Bool-cases (readable s.mem.callbacks_eventfd)) [
    | inl ready ↦ ready
    | inr dry ↦ let (i, at) = awake t n dry c in absurd (none_pushed i at)
  ]

  pub stop_wakes :
      s.mem.thrown ≡ false
      → s.mem.keep_running ≡ false
      → is_waiting s.loop ≡ true
      → ((i : ℕ) → s.pc i ≢ stopping)
      → readable s.mem.stop_eventfd ≡ true
  stop_wakes t n w none_stopping = elim (Bool-cases (readable s.mem.stop_eventfd)) [
    | inl ready ↦ ready
    | inr dry ↦ let (i, at) = stop_seen t n dry w in absurd (none_stopping i at)
  ]
