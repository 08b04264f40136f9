-- ===== src/Examples/Launch.antt =====
-- Two threads that construct popen objects: the first one's child runs on the shared stack while the
-- second one waits for clone_mutex, and leaves with the mask that it had.
use liblinuxpp.Prelude.{ℕ, ◌+◌, ◌≡◌, refl, some}
use liblinuxpp.Subprocess.Stack.{Stack}
use liblinuxpp.Subprocess.Clone.Threads.{
  Masks, stack_size, System, Reach, begin, later, step, changes_mask, lock, block_signals, allocate,
  open_streams, start, child_leaves, restore_signals, running, unmasked,
}
use liblinuxpp.Subprocess.Clone.Exclusion.{stack_exclusive, signals_restored}

-- A mask as a number, where 99 blocks every signal.
abbrev numbered : Masks
numbered = record { Mask = ℕ; block = λ mask. 99 }

abbrev launched : (s : System numbered) × Reach numbered (λ i. i) 0 s
launched = (
  _,
  later
      (later
        (later
          (later (later (later begin (step 1 (changes_mask 5))) (step 1 (lock refl)))
            (step 1 block_signals))
          (step 1 (allocate (some 4096) refl refl)))
        (step 1 open_streams))
      (step 1 (start refl)),
)

abbrev restored : (s : System numbered) × Reach numbered (λ i. i) 0 s
restored = (
  _,
  later (later (later launched.1 (step 2 (changes_mask 7))) (step 1 child_leaves))
      (step 1 restore_signals),
)

stack_exclusive_example :
    ((i j b c top other : ℕ)
      → launched.0.pc i ≡ running b top
      → launched.0.pc j ≡ running c other
      → i ≡ j)
    × ((i b top : ℕ)
        → launched.0.pc i ≡ running b top
        → (stack : Stack) × (launched.0.mem.child_stack ≡ some stack)
          × (top ≡ stack.memory + stack_size))
stack_exclusive_example = stack_exclusive numbered launched.1

signals_restored_example :
    (restored.0.pc 1 ≡ unmasked 5 → restored.0.mem.mask 1 ≡ 5)
    × ((top : ℕ) → restored.0.pc 1 ≡ running 5 top → restored.0.mem.mask 1 ≡ 99)
signals_restored_example = signals_restored numbered restored.1 1 5

restored_mask : restored.0.mem.mask 1 ≡ 5
restored_mask = (signals_restored numbered restored.1 1 5).0 refl
