-- ===== src/Ioloop/Threads/Progress.antt =====
-- A round of start ends: each step of its thread between epoll_wait and the next test of keep_running_
-- leaves less to do, and one is there to be made.
use liblinuxpp.Prelude.{
  ℕ, suc, ◌+◌, ◌*◌, ◌≤◌, ◌<◌, ◌≡◌, refl, Bool, true, false, List, [], ◌∷◌, arith, length,
}
use liblinuxpp.Ioloop.Threads.Defs.{
  EventCounter, free, Event, callbacks_event, stop_event, other_event, LoopPc, outside, testing,
  waiting, handling, drained, taking, moving, moved, calling, Shared, LoopMove, begin, handle_other,
  read_callbacks, read_stop, round_ends, lock_loop, read_moved, move, unlock_loop, call, calls_end,
  System, Reach,
}
use liblinuxpp.Ioloop.Threads.Inv.{critical, Inv}
use liblinuxpp.Ioloop.Threads.Invariant.{Reach-Inv}
use liblinuxpp.Ioloop.Threads.Delivery.{free_of}

-- Inside a round: after epoll_wait and before the test.
abbrev pub is_processing : LoopPc → Bool
is_processing outside = false
is_processing testing = false
is_processing waiting = false
is_processing _ = true

-- A bound of the steps left in the round, where `queued` callbacks wait in new_callbacks_.
abbrev pub work : ℕ → LoopPc → ℕ
work queued outside = 0
work queued testing = 0
work queued waiting = 0
work queued (handling es) = 8 * length es + queued + 1
work queued (drained es) = 8 * length es + queued + 7
work queued (taking es) = 8 * length es + queued + 6
work queued (moving cs es) = 8 * length es + length cs + 5
work queued (moved cs es) = 8 * length es + queued + length cs + 4
work queued (calling cs es) = 8 * length es + queued + length cs + 3

module _ (k : EventCounter) where
  open k use {readable, read_returns}

  LoopMove-work :
      {m m' : Shared k} {l l' : LoopPc}
      → LoopMove k m l m' l'
      → is_processing l ≡ true
      → work (length m'.new_callbacks) l' < work (length m.new_callbacks) l
  LoopMove-work begin h = cc
  LoopMove-work mv h = ground arith

  -- `n` steps of the loop's thread, all of them inside the round.
  pub data Within (m : Shared k) (l : LoopPc) : ℕ → Shared k → LoopPc → Type 0 where
    stay : Within m l 0 m l
    then_move :
        {n : ℕ} {u o : Shared k} {l' l'' : LoopPc}
        → Within m l n u l'
        → is_processing l' ≡ true
        → LoopMove k u l' o l''
        → Within m l (suc n) o l''

  -- However many steps the loop's thread has made by itself between a return of epoll_wait and the
  -- next test of keep_running_, these and the bound of what is left are together at most the bound
  -- at the first: 8 for each event, 1 for each callback that waits or was moved out, and what the
  -- place in the code adds.
  pub round_bounded :
      {m : Shared k} {l : LoopPc} {n : ℕ} {o : Shared k} {l' : LoopPc}
      → Within m l n o l'
      → n + work (length o.new_callbacks) l' ≤ work (length m.new_callbacks) l
  round_bounded stay = omega arith
  round_bounded (then_move r p mv) = omega (arith, round_bounded r, LoopMove-work mv p)

  -- The event that is handled next is still there to be read.
  abbrev pub IsReadable : Shared k → LoopPc → Type 0
  IsReadable m (handling (callbacks_event ∷ _)) = readable m.callbacks_eventfd ≡ true
  IsReadable m (handling (stop_event ∷ _)) = readable m.stop_eventfd ≡ true
  IsReadable m _ = Unit

  abbrev pub CanMove : Shared k → LoopPc → Type 0
  CanMove m l = (m' : Shared k) × (l' : LoopPc) × LoopMove k m l m' l'

  enabled :
      (m : Shared k) (l : LoopPc)
      → is_processing l ≡ true
      → IsReadable m l
      → ((es : List Event) → l ≡ drained es → m.mutex ≡ free)
      → CanMove m l
  enabled m outside p r u = cc
  enabled m testing p r u = cc
  enabled m waiting p r u = cc
  enabled m (handling []) p r u = (_, _, round_ends)
  enabled m (handling (callbacks_event ∷ es)) p r u =
      let (d, w) = read_returns m.callbacks_eventfd r in (_, _, read_callbacks w)
  enabled m (handling (stop_event ∷ es)) p r u =
      let (d, w) = read_returns m.stop_eventfd r in (_, _, read_stop w)
  enabled m (handling (other_event ∷ es)) p r u = (_, _, handle_other)
  enabled m (drained es) p r u = (_, _, lock_loop (u es refl))
  enabled m (taking es) p r u = (_, _, read_moved)
  enabled m (moving cs es) p r u = (_, _, move)
  enabled m (moved cs es) p r u = (_, _, unlock_loop)
  enabled m (calling [] es) p r u = (_, _, calls_end)
  enabled m (calling (c ∷ cs) es) p r u = (_, _, call)

  pub never_stuck :
      {s : System k}
      → Reach k s
      → ((i : ℕ) → critical (s.pc i) ≡ false)
      → is_processing s.loop ≡ true
      → IsReadable s.mem s.loop
      → CanMove s.mem s.loop
  never_stuck {s} r quiet p ready = enabled s.mem s.loop p ready λ es e.
      free_of s.mem.mutex (λ i h. ground (arith, inv.owner i h, quiet i))
        (λ h. ground (arith, inv.loop_owner h))
    where
      inv : Inv k s.mem s.loop s.pc
      inv = Reach-Inv k r
