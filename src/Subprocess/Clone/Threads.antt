-- ===== src/Subprocess/Clone/Threads.antt =====
-- Threads that construct popen objects (src/subprocess/popen.cpp, popen::clone): what they share is
-- clone_mutex, the signal_mutex with the mask that it saves, and the stack on which every child runs until
-- it executes its program. An access of one of these is a step, and the threads' steps interleave.
use liblinuxpp.Prelude.{ℕ, ◌≡◌, ◌*◌, Option, none, some, ◌==◌, if◌then◌else◌}
use liblinuxpp.Subprocess.Stack
use liblinuxpp.Subprocess.Stack.{Stack, ok, err}

abbrev pub stack_size : ℕ
stack_size = 1024 * 1024

-- The signal masks of threads, and what blocking every signal makes of one; pthread_sigmask with
-- SIG_SETMASK and a mask that a thread has had restores that mask.
pub record Masks : Type 1 where
  pub Mask : Type 0
  pub block : Mask → Mask

module _ (masks : Masks) where
  open masks use {Mask, block}

  -- Where a thread stands: outside clone; with clone_mutex; with every signal blocked; with a stack; with
  -- the streams open; while its child runs on the stack, from that address on; when that is over; and
  -- with the mask restored. `before` is the mask that it had when it called clone.
  pub data Pc : Type 0 where
    outside : Pc
    locked : (before : Mask) → Pc
    masked : (before : Mask) → Pc
    prepared : (before : Mask) → Pc
    opened : (before : Mask) → Pc
    running : (before : Mask) → ℕ → Pc
    leaving : (before : Mask) → Pc
    unmasked : (before : Mask) → Pc

  -- `mask i` is the signal mask of thread `i`.
  pub record Shared : Type 0 where
    pub clone_mutex : Option ℕ
    pub prev_sigset : Mask
    pub child_stack : Option Stack
    pub mask : ℕ → Mask

  abbrev pub set_mask : (ℕ → Mask) → ℕ → Mask → ℕ → Mask
  set_mask f i new j = if i == j then new else f j

  -- A step of thread `i` in clone. CLONE_VFORK suspends it while its child runs.
  pub data Move (i : ℕ) (m : Shared) : Pc → Shared → Pc → Type 0 where
    changes_mask :
        (new : Mask) → Move i m outside (record m { mask = set_mask m.mask i new }) outside
    lock :
        m.clone_mutex ≡ none
        → Move i m outside (record m { clone_mutex = some i }) (locked (m.mask i))
    block_signals :
        {before : Mask}
        → Move i m
            (locked before)
            (record m { prev_sigset = m.mask i; mask = set_mask m.mask i (block (m.mask i)) })
            (masked before)
    block_throws : {before : Mask} → Move i m (locked before) m (unmasked before)
    allocate :
        {before : Mask} (memory : Option ℕ) {s : Stack}
        → m.child_stack ≡ none
        → Stack.construct stack_size memory ≡ ok s
        → Move i m (masked before) (record m { child_stack = some s }) (prepared before)
    allocate_throws :
        {before : Mask} → m.child_stack ≡ none → Move i m (masked before) m (leaving before)
    reuse :
        {before : Mask} {s : Stack}
        → m.child_stack ≡ some s
        → Move i m (masked before) m (prepared before)
    open_streams : {before : Mask} → Move i m (prepared before) m (opened before)
    open_throws : {before : Mask} → Move i m (prepared before) m (leaving before)
    start :
        {before : Mask} {s : Stack}
        → m.child_stack ≡ some s
        → Move i m (opened before) m (running before (Stack.get s))
    clone_throws : {before : Mask} → Move i m (opened before) m (leaving before)
    child_leaves : {before : Mask} {top : ℕ} → Move i m (running before top) m (leaving before)
    restore_signals :
        {before : Mask}
        → Move i m
            (leaving before)
            (record m { mask = set_mask m.mask i m.prev_sigset })
            (unmasked before)
    unlock : {before : Mask} → Move i m (unmasked before) (record m { clone_mutex = none }) outside

  pub record System : Type 0 where
    pub mem : Shared
    pub pc : ℕ → Pc

  abbrev pub update : (ℕ → Pc) → ℕ → Pc → ℕ → Pc
  update pc i p j = if i == j then p else pc j

  pub data Step (s : System) : System → Type 0 where
    step :
        (i : ℕ) {m : Shared} {p : Pc}
        → Move i s.mem (s.pc i) m p
        → Step s (record { mem = m; pc = update s.pc i p })

  -- No thread is in clone. What prev_sigset_ holds at first is not set by the code.
  abbrev pub init : (ℕ → Mask) → Mask → System
  init mask unset = record {
    mem = record { clone_mutex = none; prev_sigset = unset; child_stack = none; mask = mask };
    pc = λ _. outside;
  }

  pub data Reach (mask : ℕ → Mask) (unset : Mask) : System → Type 0 where
    begin : Reach mask unset (init mask unset)
    later : {s t : System} → Reach mask unset s → Step s t → Reach mask unset t
