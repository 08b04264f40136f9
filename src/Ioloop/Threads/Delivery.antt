-- ===== src/Ioloop/Threads/Delivery.antt =====
-- What the loop's thread does by itself once the other threads are outside add_callback and stop.
use mathlib.Core.List.{append-nil, append_assoc}
use liblinuxpp.Prelude.{ℕ, ◌≡◌, refl, ◌≢◌, ◌∙◌, Bool, true, false, List, [], ◌∷◌, ◌++◌, arith}
use liblinuxpp.Ioloop.Threads.Defs.{
  EventCounter, Mutex, free, held_by, held_by_loop, idle, Event, callbacks_event, stop_event,
  other_event, LoopPc, outside, testing, waiting, handling, calling, Shared, LoopMove, leave, wake,
  read_callbacks, read_stop, round_ends, lock_loop, read_moved, move, unlock_loop, call, calls_end,
  System, Reach,
}
use liblinuxpp.Ioloop.Threads.Invariant.{Reach-Inv}
use liblinuxpp.Ioloop.Threads.Safety.{callbacks_in_order, no_lost_wakeup, stop_wakes}

pub free_of : (x : Mutex) → ((i : ℕ) → x ≢ held_by i) → x ≢ held_by_loop → x ≡ free
free_of free h l = refl
free_of (held_by i) h l = absurd (h i refl)
free_of held_by_loop h l = absurd (l refl)

module _ (k : EventCounter) where
  open k use {readable, read_returns}

  -- Whether a step from the one place to the other is what epoll_wait does of itself: it is
  -- interrupted by a signal, or returns an event of another handler.
  abbrev pub has_other : List Event → Bool
  has_other [] = false
  has_other (other_event ∷ es) = true
  has_other (_ ∷ es) = has_other es

  abbrev pub is_spurious : LoopPc → LoopPc → Bool
  is_spurious waiting testing = true
  is_spurious waiting (handling es) = has_other es
  is_spurious _ _ = false

  -- Steps of the loop's thread alone, which the two event counters alone take out of epoll_wait.
  pub data LoopRun (m : Shared k) (l : LoopPc) : Shared k → LoopPc → Type 0 where
    stay : LoopRun m l m l
    then_move :
        {n o : Shared k} {l' l'' : LoopPc}
        → LoopRun m l n l'
        → LoopMove k n l' o l''
        → is_spurious l' l'' ≡ false
        → LoopRun m l o l''

  pub LoopRun-trans :
      {m n : Shared k} {l l' : LoopPc} {o : Shared k} {l'' : LoopPc}
      → LoopRun m l n l'
      → LoopRun n l' o l''
      → LoopRun m l o l''
  LoopRun-trans p stay = p
  LoopRun-trans p (then_move q a h) = then_move (LoopRun-trans p q) a h

  go :
      {m n o : Shared k} {l l' l'' : LoopPc}
      → LoopMove k m l n l'
      → is_spurious l l' ≡ false
      → LoopRun n l' o l''
      → LoopRun m l o l''
  go a h p = LoopRun-trans (then_move stay a h) p

  -- What the calls of process_callbacks leave, one after another.
  pub record Called (m : Shared k) (cs : List ℕ) (es : List Event) : Type 0 where
    pub after : Shared k
    pub run : LoopRun m (calling cs es) after (handling es)
    pub calls : after.called ≡ m.called ++ cs
    pub queue : after.new_callbacks ≡ m.new_callbacks
    pub running : after.keep_running ≡ m.keep_running

  pub calls_run : (m : Shared k) (cs : List ℕ) (es : List Event) → Called m cs es
  calls_run m [] es = record {
    after = m;
    run = go calls_end refl stay;
    calls = rw append-nil;
    queue = refl;
    running = refl;
  }
  calls_run m (c ∷ cs) es =
      let rest = calls_run (record m { called = m.called ++ c ∷ [] }) cs es in
      record {
        after = rest.after;
        run = go call refl rest.run;
        calls = rest.calls ∙ append_assoc m.called (c ∷ []) cs;
        queue = rest.queue;
        running = rest.running;
      }

  -- process_callbacks without interruption, from its event on.
  pub collects :
      (m : Shared k) (es : List Event)
      → m.mutex ≡ free
      → readable m.callbacks_eventfd ≡ true
      → (t : Shared k) × LoopRun m (handling (callbacks_event ∷ es)) t (handling es)
        × (t.called ≡ m.called ++ m.new_callbacks)
        × (t.new_callbacks ≡ [])
        × (t.keep_running ≡ m.keep_running)
  collects m es unlocked ready =
      let (d, w) = read_returns m.callbacks_eventfd ready in
      let rest =
        calls_run (record m { callbacks_eventfd = d; mutex = free; new_callbacks = [] })
          m.new_callbacks es in
      (
        rest.after,
        go (read_callbacks w) refl (
            go (lock_loop unlocked) refl
              (go read_moved refl (go move refl (go unlock_loop refl rest.run)))),
        rest.calls,
        rest.queue,
        rest.running,
      )

  module _ {s : System k} (r : Reach k s) (quiet : (i : ℕ) → s.pc i ≡ idle) where
    open (Reach-Inv k r) use {owner, loop_owner}

    quiet_free : s.loop ≡ waiting → s.mem.mutex ≡ free
    quiet_free e =
        free_of s.mem.mutex (λ i h. ground (arith, owner i h, quiet i))
          (λ h. ground (arith, loop_owner h))

    -- In every state that threads reach of which one runs start and the others call add_callback
    -- and stop, over event counters that behave as documented, if none of the others is in
    -- add_callback or stop, neither of these has ever thrown, the loop is in epoll_wait and
    -- new_callbacks_ is not empty, then steps of the loop's thread alone lead to its next test of
    -- keep_running_ with every callback that was added called, in order, and none left in the
    -- vector, with no signal that interrupts epoll_wait and no event of another handler.
    pub callbacks_delivered :
        s.mem.thrown ≡ false
        → s.mem.new_callbacks ≢ []
        → s.loop ≡ waiting
        → (t : Shared k) × LoopRun s.mem waiting t testing
          × (t.called ≡ s.mem.added)
          × (t.new_callbacks ≡ [])
    callbacks_delivered t n e =
        let ready = no_lost_wakeup k r t n (λ i h. ground (arith, quiet i)) (rw e) in
        let (u, run, calls, queue, running) = collects s.mem [] (quiet_free e) ready in
        (
          u,
          go (wake callbacks_event [] (ready, tt)) refl
              (LoopRun-trans run (go round_ends refl stay)),
          calls ∙ (rw e at (callbacks_in_order k r)),
          queue,
        )

    -- In every state that threads reach of which one runs start and the others call add_callback
    -- and stop, over event counters that behave as documented, if none of the others is in
    -- add_callback or stop, neither of these has ever thrown, keep_running_ is 0 and the loop is in
    -- epoll_wait, then the eventfd of stop is readable, and steps of the loop's thread alone lead
    -- out of start, with no signal that interrupts epoll_wait and no event of another handler.
    pub stop_ends :
        s.mem.thrown ≡ false
        → s.mem.keep_running ≡ false
        → s.loop ≡ waiting
        → (readable s.mem.stop_eventfd ≡ true) × ((t : Shared k) × LoopRun s.mem waiting t outside)
    stop_ends t stopped e =
        let ready = stop_wakes k r t stopped (rw e) (λ i h. ground (arith, quiet i)) in
        let (d, w) = read_returns s.mem.stop_eventfd ready in
        (
          ready,
          (
            record (s.mem) { stop_eventfd = d },
            go (wake stop_event [] (ready, tt)) refl
                (go (read_stop w) refl (go round_ends refl (go (leave stopped) refl stay))),
          ),
        )
