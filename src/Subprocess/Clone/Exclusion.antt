-- ===== src/Subprocess/Clone/Exclusion.antt =====
-- The threads in popen::clone keep out of each other's way (src/subprocess/popen.cpp): one child at a
-- time runs on the shared stack, and every thread leaves with the signal mask that it came with.
use mathlib.Core.Path.{subst}
use liblinuxpp.Prelude.{
  ℕ, ◌+◌, ◌≡◌, refl, Bool, true, false, Option, none, some, arith, ◌==◌, Bool-cases, inl, inr,
}
use liblinuxpp.Subprocess.Stack.{Stack}
use liblinuxpp.Subprocess.Clone.Threads.{
  Masks, stack_size, Pc, outside, locked, masked, prepared, opened, running, leaving, unmasked,
  Shared, Move, lock, allocate, start, System, update, Step, step, Reach, begin, later,
}

module _ (masks : Masks) where
  open masks use {Mask, block}

  abbrev pub inside : Pc masks → Bool
  inside outside = false
  inside _ = true

  -- What a thread's place says of its mask and of the one that is saved.
  abbrev pub IsMasked : Mask → Mask → Pc masks → Type 0
  IsMasked mask saved outside = Unit
  IsMasked mask saved (locked before) = mask ≡ before
  IsMasked mask saved (unmasked before) = mask ≡ before
  IsMasked mask saved (masked before) = (saved ≡ before) × (mask ≡ block before)
  IsMasked mask saved (prepared before) = (saved ≡ before) × (mask ≡ block before)
  IsMasked mask saved (opened before) = (saved ≡ before) × (mask ≡ block before)
  IsMasked mask saved (running before top) = (saved ≡ before) × (mask ≡ block before)
  IsMasked mask saved (leaving before) = (saved ≡ before) × (mask ≡ block before)

  -- The stack on which a child runs is the shared one.
  abbrev pub IsOnStack : Option Stack → Pc masks → Type 0
  IsOnStack stack (running before top) =
      (s : Stack) × (stack ≡ some s) × (top ≡ s.memory + stack_size)
  IsOnStack stack _ = Unit

  abbrev pub IsSized : Option Stack → Type 0
  IsSized none = Unit
  IsSized (some s) = s.size ≡ stack_size

  pub record Inv (m : Shared masks) (pc : ℕ → Pc masks) : Type 0 where
    pub guarded : (i : ℕ) → inside (pc i) ≡ true → m.clone_mutex ≡ some i
    pub saved : (i : ℕ) → IsMasked (m.mask i) m.prev_sigset (pc i)
    pub sized : IsSized m.child_stack
    pub on_stack : (i : ℕ) → IsOnStack m.child_stack (pc i)

  module _ {m : Shared masks} {pc : ℕ → Pc masks} (inv : Inv m pc) (i : ℕ) where
    open inv use {guarded, saved, sized, on_stack}

    Move-guarded :
        {p p' : Pc masks} {m' : Shared masks}
        → Move masks i m p m' p'
        → pc i ≡ p
        → (j : ℕ) → inside (update masks pc i p' j) ≡ true
        → m'.clone_mutex ≡ some j
    Move-guarded (lock g) e j h = ground (arith, guarded j)
    Move-guarded mv e j h = ground (arith, guarded i, guarded j)

    Move-IsMasked :
        {p p' : Pc masks} {m' : Shared masks}
        → Move masks i m p m' p'
        → pc i ≡ p
        → (j : ℕ) → IsMasked (m'.mask j) m'.prev_sigset (update masks pc i p' j)
    Move-IsMasked (lock g) e j = ground (arith, saved j, guarded j)
    Move-IsMasked mv e j = ground (arith, saved i, saved j, guarded i, guarded j)

    Move-IsSized :
        {p p' : Pc masks} {m' : Shared masks} → Move masks i m p m' p' → IsSized m'.child_stack
    Move-IsSized (lock g) = sized
    Move-IsSized (allocate memory free made) = ground (arith, made)
    Move-IsSized mv = sized

    Move-IsOnStack :
        {p p' : Pc masks} {m' : Shared masks}
        → Move masks i m p m' p'
        → pc i ≡ p
        → (j : ℕ) → IsOnStack m'.child_stack (update masks pc i p' j)
    Move-IsOnStack (lock g) e j = ground (arith, on_stack j)
    Move-IsOnStack (allocate memory free made) e j = ground (arith, on_stack j)
    Move-IsOnStack (start {before} {s} shared) e j = elim (Bool-cases (i == j)) [
      | inl same ↦ rw same (s, shared, ground arith)
      | inr other ↦ rw other (on_stack j)
    ]
    Move-IsOnStack mv e j = ground (arith, on_stack j)

  Step-Inv : {s t : System masks} → Step masks s t → Inv s.mem s.pc → Inv t.mem t.pc
  Step-Inv (step i mv) inv = record {
    guarded = Move-guarded inv i mv refl;
    saved = Move-IsMasked inv i mv refl;
    sized = Move-IsSized inv i mv;
    on_stack = Move-IsOnStack inv i mv refl;
  }

  Reach-Inv :
      {mask : ℕ → Mask} {unset : Mask} {s : System masks}
      → Reach masks mask unset s
      → Inv s.mem s.pc
  Reach-Inv begin = record { guarded = λ i h. cc; saved = λ i. tt; sized = tt; on_stack = λ i. tt }
  Reach-Inv (later r st) = Step-Inv st (Reach-Inv r)

  module _ {mask : ℕ → Mask} {unset : Mask} {s : System masks} (r : Reach masks mask unset s) where
    -- In every state that threads reach which construct popen objects, at most one thread has a
    -- child that runs on the shared stack, and that child started at the end of its memory of 1
    -- MiB.
    pub stack_exclusive :
        ((i j : ℕ) (b c : Mask) (top other : ℕ)
          → s.pc i ≡ running b top
          → s.pc j ≡ running c other
          → i ≡ j)
        × ((i : ℕ) (b : Mask) (top : ℕ)
            → s.pc i ≡ running b top
            → (stack : Stack) × (s.mem.child_stack ≡ some stack)
              × (top ≡ stack.memory + stack_size))
    stack_exclusive = (
      λ i j b c top other p q. ground (arith, inv.guarded i, inv.guarded j),
      λ i b top p. subst (IsOnStack s.mem.child_stack) p (inv.on_stack i),
    )
      where
        inv : Inv s.mem s.pc
        inv = Reach-Inv r

    -- In every state that threads reach which construct popen objects and outside of that change
    -- their masks, a thread that is about to release clone_mutex, be it after a return or a throw,
    -- has the signal mask with which it took it, and one whose child runs has every signal blocked,
    -- although all save the mask in one signal_mutex.
    pub signals_restored :
        (i : ℕ) (b : Mask)
        → (s.pc i ≡ unmasked b → s.mem.mask i ≡ b)
          × ((top : ℕ) → s.pc i ≡ running b top → s.mem.mask i ≡ block b)
    signals_restored i b = (
      λ p. subst (IsMasked (s.mem.mask i) s.mem.prev_sigset) p ((Reach-Inv r).saved i),
      λ top p. (subst (IsMasked (s.mem.mask i) s.mem.prev_sigset) p ((Reach-Inv r).saved i)).1,
    )
