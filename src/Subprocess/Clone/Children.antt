-- ===== src/Subprocess/Clone/Children.antt =====
-- What becomes of the child that the constructor of popen starts (src/subprocess/popen.cpp).
use liblinuxpp.Prelude.{
  ap, none, some, arith, ℕ, ◌≡◌, refl, ◌⊎◌, inl, inr, Bool, true, false, List, ◌∷◌, map, Option,
  ◌==◌, arith, Bool-cases,
}
use liblinuxpp.Prelude.Int.{ℤ, negsuc, eqb_ℤ}
use liblinuxpp.Descriptor.{is_set, move_assign, of_value}
use liblinuxpp.Subprocess.Status.{unknown}
use liblinuxpp.Subprocess.Popen.{Popen, is_running}
use liblinuxpp.Subprocess.Popen.Laws.{IsConsistent}
use liblinuxpp.Subprocess.Argv.{of_arguments, received, until_nul, received-cmdline}
use liblinuxpp.Subprocess.Streams.{Kernel, StreamDescriptors, child_streams}
use liblinuxpp.Subprocess.Streams.Handler.{clone_handler, handler_end, handler_after}
use liblinuxpp.Subprocess.Clone.{
  Launch, CloneAnswers, Result, ok, err, no_child, Parent, Opener, open_streams, keep_streams,
  ChildEnd, executes, stores, dies, returned_end, child_end, exec_status, launch, execute,
  clone_opened, clone, construct, destroy_members,
}

-- The program that was asked for, with its arguments as it receives them.
abbrev pub Runs : List ℕ → List (List ℕ) → Launch → Type 0
Runs executable ss l = received l.arguments ≡ map until_nul (executable ∷ ss)

-- The program executes exactly where no signal has ended the child before.
abbrev pub Executed :
    Bool → ℤ → List ℕ → List (List ℕ) → List (ℤ × Launch) → List (ℤ × Launch) → Type 0
Executed true pid executable ss before after = after ≡ before
Executed false pid executable ss before after =
    (l : Launch) × (after ≡ (pid, l) ∷ before) × Runs executable ss l

-- A constructor that returns has started one child, which is the object's to wait for, and executes
-- the program unless a signal has ended it before; one that throws leaves no child that executes a
-- program, and has called waitid for the child that it has started, if any.
abbrev pub Accounted :
    {T : Type 0} → Bool → List ℕ → List (List ℕ) → Parent T → Result Popen × Parent T → Type 0
Accounted killed executable ss before (ok p, after) =
    IsConsistent p
    × (is_running p ≡ true)
    × (after.started ≡ p.child_pid.descriptor ∷ before.started)
    × (after.waited ≡ before.waited)
    × Executed killed p.child_pid.descriptor executable ss before.executing after.executing
Accounted killed executable ss before (err e, after) =
    (after.executing ≡ before.executing)
    × (((after.started ≡ before.started) × (after.waited ≡ before.waited))
        ⊎ ((pid : ℤ) × (after.started ≡ pid ∷ before.started)
            × (after.waited ≡ pid ∷ before.waited)))

-- The same of clone, on an object without a child.
abbrev Cloned :
    {T : Type 0} → Bool → List ℕ → List (List ℕ) → Parent T → Result ℤ × (Popen × Parent T) → Type 0
Cloned killed executable ss before (ok pid, (p, after)) =
    (p.child_status ≡ unknown)
    × (eqb_ℤ pid (negsuc 0) ≡ false)
    × (after.started ≡ pid ∷ before.started)
    × (after.waited ≡ before.waited)
    × Executed killed pid executable ss before.executing after.executing
Cloned killed executable ss before (err e, (p, after)) =
    (after.executing ≡ before.executing)
    × (((after.started ≡ before.started) × (after.waited ≡ before.waited))
        ⊎ ((pid : ℤ) × (after.started ≡ pid ∷ before.started)
            × (after.waited ≡ pid ∷ before.waited)))

module _ (k : Kernel) (executable : List ℕ) (ss : List (List ℕ)) (a : CloneAnswers) where
  launch-Runs : Runs executable ss (launch executable (of_arguments ss))
  unfolding launch
  launch-Runs = received-cmdline executable ss

  end_stored :
      (t : k.Table)
      → exec_status (returned_end (handler_end k t a.child).1) ≡ 0
      → (handler_end k t a.child).1 ≡ none
  unfolding handler_end
  end_stored t e = ground arith

  after_stored :
      (r : k.Table × Option (ℕ × ℕ))
      → (exec_status (returned_end r.1) ≡ 0 → r.1 ≡ none)
      → exec_status (returned_end (handler_after k r a.child).1) ≡ 0
      → (handler_after k r a.child).1 ≡ none
  unfolding handler_after
  after_stored (t, none) h e = end_stored t e
  after_stored (t, some stored) h e = h e

  -- clone_handler stores no 0 where it returns.
  handler_stored :
      (t : k.Table) (din dout derr : StreamDescriptors)
      → exec_status (returned_end (clone_handler k t din dout derr a.child).1) ≡ 0
      → (clone_handler k t din dout derr a.child).1 ≡ none
  unfolding clone_handler child_streams
  handler_stored t din dout derr e =
      after_stored (child_streams k t din dout derr) (λ h. ground arith) e

  not_executing :
      (c : ChildEnd) (pid : ℤ) (l : Launch) (xs : List (ℤ × Launch))
      → (exec_status c == 0) ≡ false
      → execute pid l c xs ≡ xs
  not_executing executes pid l xs e = ground arith
  not_executing (stores errno) pid l xs e = refl
  not_executing dies pid l xs e = refl

  -- Where the status is 0, the program executes unless the child was killed.
  child_end-Executed :
      (killed : Bool) (o : Option (ℕ × ℕ)) (pid : ℤ) (xs : List (ℤ × Launch))
      → (exec_status (returned_end o) ≡ 0 → o ≡ none)
      → exec_status (child_end killed o) ≡ 0
      → Executed killed pid executable ss xs
          (execute pid (launch executable (of_arguments ss)) (child_end killed o) xs)
  child_end-Executed true o pid xs h e = refl
  child_end-Executed false o pid xs h e =
      let l = launch executable (of_arguments ss) in
      (l, ap (λ r. execute pid l (returned_end r) xs) (h e), launch-Runs)

  clone_opened-Cloned :
      (ds : StreamDescriptors × (StreamDescriptors × StreamDescriptors)) (parent : Parent k.Table)
      → Cloned a.killed executable ss parent
          (clone_opened k executable (of_arguments ss) a ds no_child parent)
  unfolding clone_opened keep_streams
  clone_opened-Cloned (din, (dout, derr)) parent =
      let handled = (clone_handler k parent.table din dout derr a.child).1 in
      let ending = child_end a.killed handled in
      let l = launch executable (of_arguments ss) in
      elim (Bool-cases (eqb_ℤ a.ret (negsuc 0))) [
        | inl failed ↦ rw failed (refl, inl (refl, refl))
        | inr cloned ↦ elim (Bool-cases (exec_status ending == 0)) [
          | inl executed ↦
              rw (cloned, executed)
                (
                  refl,
                  cloned,
                  refl,
                  refl,
                  child_end-Executed a.killed handled a.ret parent.executing
                      (handler_stored parent.table din dout derr) (ground (arith, executed)),
                )
          | inr not_executed ↦
              rw (cloned, not_executed)
                (
                  not_executing ending a.ret l parent.executing not_executed,
                  inr (a.ret, refl, refl),
                )
        ]
      ]

  clone-Cloned :
      (sin sout serr : Option (Opener k)) (parent : Parent k.Table)
      → Cloned a.killed executable ss parent
          (clone k executable (of_arguments ss) sin sout serr a no_child parent)
  unfolding clone
  clone-Cloned sin sout serr parent = by_result (open_streams k sin sout serr parent.table)
    where
      by_result :
          (r : k.Table × Result (StreamDescriptors × (StreamDescriptors × StreamDescriptors)))
          → Cloned a.killed executable ss parent (elim r.1 [
            | err e ↦ (err e, (no_child, record parent { table = r.0 }))
            | ok ds ↦
                clone_opened k executable
                  (of_arguments ss)
                  a
                  ds
                  no_child
                  (record parent { table = r.0 })
          ])
      by_result (t, ok ds) = clone_opened-Cloned ds (record parent { table = t })
      by_result (t, err e) = (refl, inl (refl, refl))

  -- Whatever the streams, the kernel and the child do, the constructor of popen leaves no child
  -- unaccounted for: where it returns, the object is consistent and holds the pid of the one child
  -- that it started, and if no signal has ended that child before, it executes the program, which
  -- receives the executable and the arguments, each up to its first NUL; where one has, no program
  -- executes; where the constructor throws, no child executes a program, and waitid has been called
  -- for the one that was started, if any.
  pub construct-Accounted :
      (sin sout serr : Option (Opener k)) (parent : Parent k.Table)
      → Accounted a.killed executable ss parent
          (construct k executable (of_arguments ss) sin sout serr a parent)
  unfolding construct move_assign is_running is_set
  construct-Accounted sin sout serr parent =
      by_result (clone k executable (of_arguments ss) sin sout serr a no_child parent)
        (clone-Cloned sin sout serr parent)
    where
      by_result :
          (r : Result ℤ × (Popen × Parent k.Table))
          → Cloned a.killed executable ss parent r
          → Accounted a.killed executable ss parent (elim r.0 [
            | ok pid ↦ (
              ok (record (r.1.0) { child_pid = (move_assign r.1.0.child_pid (of_value pid)).0 }),
              r.1.1,
            )
            | err e ↦ (err e, record (r.1.1) { table = destroy_members k r.1.0 r.1.1.table })
          ])
      by_result (ok pid, (p, after)) c = (
        record { awaited = λ _. c.0; ended = λ e. ground (arith, c.1, e) },
        ground (arith, c.1),
        c.2,
        c.3,
        c.4,
      )
      by_result (err e, (p, after)) c = c
