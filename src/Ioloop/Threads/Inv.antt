-- ===== src/Ioloop/Threads/Inv.antt =====
-- What the threads' states say about the members that they share: who holds mutex_, what a thread knows
-- of new_callbacks_, where the added callbacks are, and who is about to wake the loop.
use liblinuxpp.Prelude.{ℕ, ◌≡◌, ◌≢◌, Bool, true, false, List, [], ◌++◌}
use liblinuxpp.Ioloop.Threads.Defs.{
  EventCounter, held_by, held_by_loop, Pc, idle, pushing, pushed, stopping, LoopPc, waiting,
  drained, taking, moving, moved, calling, Shared,
}

-- Between the lock and the unlock of add_callback, and of process_callbacks.
abbrev pub critical : Pc → Bool
critical idle = false
critical stopping = false
critical _ = true

abbrev pub loop_critical : LoopPc → Bool
loop_critical (taking _) = true
loop_critical (moving _ _) = true
loop_critical (moved _ _) = true
loop_critical _ = false

-- The callbacks that process_callbacks has moved out and not called yet.
abbrev pub in_hand : LoopPc → List ℕ
in_hand (moved cs _) = cs
in_hand (calling cs _) = cs
in_hand _ = []

-- Whether process_callbacks has read the counter and not yet emptied new_callbacks_.
abbrev pub is_collecting : LoopPc → Bool
is_collecting (drained _) = true
is_collecting (taking _) = true
is_collecting (moving _ _) = true
is_collecting _ = false

abbrev pub is_waiting : LoopPc → Bool
is_waiting waiting = true
is_waiting _ = false

-- A copy of new_callbacks_ that a thread works on is what the vector holds.
abbrev pub IsFresh : List ℕ → Pc → Type 0
IsFresh v (pushing _ seen) = seen ≡ v
IsFresh v _ = Unit

abbrev pub IsLoopFresh : List ℕ → LoopPc → Type 0
IsLoopFresh v (moving cs _) = cs ≡ v
IsLoopFresh v _ = Unit

module _ (k : EventCounter) where
  open k use {readable}

  pub record Inv (m : Shared k) (loop : LoopPc) (pc : ℕ → Pc) : Type 0 where
    pub guarded : (i : ℕ) → critical (pc i) ≡ true → m.mutex ≡ held_by i
    pub loop_guarded : loop_critical loop ≡ true → m.mutex ≡ held_by_loop
    pub owner : (i : ℕ) → m.mutex ≡ held_by i → critical (pc i) ≡ true
    pub loop_owner : m.mutex ≡ held_by_loop → loop_critical loop ≡ true
    pub seen : (i : ℕ) → IsFresh m.new_callbacks (pc i)
    pub loop_seen : IsLoopFresh m.new_callbacks loop
    pub kept : m.called ++ (in_hand loop ++ m.new_callbacks) ≡ m.added
    pub awake :
        m.thrown ≡ false
        → m.new_callbacks ≢ []
        → readable m.callbacks_eventfd ≡ false
        → is_collecting loop ≡ false
        → (i : ℕ) × (pc i ≡ pushed)
    pub stop_seen :
        m.thrown ≡ false
        → m.keep_running ≡ false
        → readable m.stop_eventfd ≡ false
        → is_waiting loop ≡ true
        → (i : ℕ) × (pc i ≡ stopping)
