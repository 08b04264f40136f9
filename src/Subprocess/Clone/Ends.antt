-- ===== src/Subprocess/Clone/Ends.antt =====
-- The ends of the streams in the parent once a child has been started, or has not
-- (src/subprocess/popen.cpp).
use mathlib.Core.Path.{subst}
use liblinuxpp.Prelude.{
  ℕ, ◌≡◌, refl, sym, ap, ◌∙◌, inl, inr, Bool, not, ◌&&◌, ◌||◌, List, Option, none, ◌==◌,
  if◌then◌else◌, arith, Bool-cases,
}
use liblinuxpp.Prelude.Int.{ℤ, negsuc, eqb_ℤ}
use liblinuxpp.Descriptor.{
  UniqueFd, invalid_value, manage, move_assign, unique_reset, unique_destroy, of_value,
}
use liblinuxpp.Subprocess.Popen.{Popen}
use liblinuxpp.Subprocess.Argv.{Argv}
use liblinuxpp.Subprocess.Streams.{
  Kernel, IsKernel, StreamDescriptors, is_open, closed_fd, handle_parent_stream,
}
use liblinuxpp.Subprocess.Streams.Handler.{clone_handler}
use liblinuxpp.Subprocess.Clone.{
  CloneAnswers, Result, ok, err, no_child, Parent, Opener, open_streams, keep_stream, keep_streams,
  child_end, exec_status, clone_opened, clone, construct, destroy_members,
}

-- The descriptor that the parent keeps of a stream, and whether a descriptor is the child's end of it.
abbrev pub kept : StreamDescriptors → ℤ → ℤ → ℤ
kept d parent_fd child_fd =
    if is_open d && not (eqb_ℤ parent_fd child_fd) then parent_fd else closed_fd

abbrev pub is_end : StreamDescriptors → ℤ → ℤ → Bool
is_end d child_fd j = is_open d && eqb_ℤ j child_fd

abbrev pub is_child_end : StreamDescriptors → StreamDescriptors → StreamDescriptors → ℤ → Bool
is_child_end din dout derr j =
    is_end din din.read_fd j || is_end dout dout.write_fd j || is_end derr derr.write_fd j

abbrev pub fd_of : UniqueFd → ℤ
fd_of u = u.fd_member.descriptor

module _ (k : Kernel) (law : IsKernel k) where
  -- A started child leaves the parent its own ends of the streams, and closes the child's; where no
  -- child was started, the table is the one after the opening of the streams.
  abbrev pub Kept :
      {A : Type 0}
      → (A → Popen)
      → StreamDescriptors
      → StreamDescriptors
      → StreamDescriptors
      → k.Table
      → Result A
      → k.Table
      → Type 0
  Kept object din dout derr t (ok r) after =
      (fd_of (object r).stdin_stream ≡ kept din din.write_fd din.read_fd)
      × (fd_of (object r).stdout_stream ≡ kept dout dout.read_fd dout.write_fd)
      × (fd_of (object r).stderr_stream ≡ kept derr derr.read_fd derr.write_fd)
      × ((j : ℤ) → k.file after j ≡ (if is_child_end din dout derr j then none else k.file t j))
  Kept object din dout derr t (err e) after = after ≡ t

  abbrev Held :
      StreamDescriptors
      → StreamDescriptors
      → StreamDescriptors
      → k.Table
      → Result ℤ × (Popen × Parent k.Table)
      → Type 0
  Held din dout derr t (ok pid, (p, after)) = Kept (λ q. q) din dout derr t (ok p) after.table
  Held din dout derr t (err e, (p, after)) = (after.table ≡ t) × (p ≡ no_child)

  keep_stream_lem :
      (d : StreamDescriptors) (parent_fd child_fd : ℤ) (t : k.Table) (j : ℤ)
      → let (u, after) = keep_stream k d parent_fd child_fd (manage invalid_value, t) in
        (fd_of u ≡ kept d parent_fd child_fd)
        × (k.file after j ≡ (if is_end d child_fd j then none else k.file t j))
  unfolding keep_stream handle_parent_stream unique_reset
  keep_stream_lem d parent_fd child_fd t j = elim (Bool-cases (is_open d)) [
    | inl opened ↦ rw opened (ground arith, law.file_after_close t child_fd j)
    | inr closed ↦ rw closed (refl, refl)
  ]

  keep_streams_lem :
      (din dout derr : StreamDescriptors) (t : k.Table)
      → let (p, after) = keep_streams k din dout derr (no_child, t) in
        Kept (λ q. q) din dout derr t (ok p) after
  unfolding keep_streams
  keep_streams_lem din dout derr t =
      let table1 = (keep_stream k din din.write_fd din.read_fd (manage invalid_value, t)).1 in
      let table2 =
        (keep_stream k dout dout.read_fd dout.write_fd (manage invalid_value, table1)).1 in
      (
        (keep_stream_lem din din.write_fd din.read_fd t (negsuc 0)).0,
        (keep_stream_lem dout dout.read_fd dout.write_fd table1 (negsuc 0)).0,
        (keep_stream_lem derr derr.read_fd derr.write_fd table2 (negsuc 0)).0,
        λ j. ground (
          arith,
          (keep_stream_lem din din.write_fd din.read_fd t j).1,
          (keep_stream_lem dout dout.read_fd dout.write_fd table1 j).1,
          (keep_stream_lem derr derr.read_fd derr.write_fd table2 j).1,
        ),
      )

  module _ (executable : List ℕ) (argv : Argv) (a : CloneAnswers)
      (din dout derr : StreamDescriptors) where
    clone_opened-Held :
        (parent : Parent k.Table)
        → Held din dout derr parent.table
            (clone_opened k executable argv a (din, (dout, derr)) no_child parent)
    unfolding clone_opened
    clone_opened-Held parent = elim (Bool-cases (eqb_ℤ a.ret (negsuc 0))) [
      | inl failed ↦ rw failed (refl, refl)
      | inr cloned ↦
          elim (Bool-cases (
            exec_status (child_end a.killed (clone_handler k parent.table din dout derr a.child).1)
            == 0)) [
              | inl executed ↦ rw (cloned, executed) (keep_streams_lem din dout derr parent.table)
              | inr not_executed ↦ rw (cloned, not_executed) (refl, refl)
            ]
    ]

    clone_step :
        (sin sout serr : Option (Opener k)) (t : k.Table) (parent : Parent k.Table)
        → open_streams k sin sout serr parent.table ≡ (t, ok (din, (dout, derr)))
        → clone k executable argv sin sout serr a no_child parent
          ≡ clone_opened k executable argv a
              (din, (dout, derr))
              no_child
              (record parent { table = t })
    unfolding clone
    clone_step sin sout serr t parent opened =
        ap
          (λ r. elim r.1 as (λ _. Result ℤ × (Popen × Parent k.Table)) [
            | err e ↦ (err e, (no_child, record parent { table = r.0 }))
            | ok ds ↦ clone_opened k executable argv a ds no_child (record parent { table = r.0 })
          ])
          opened

    -- Over a kernel that obeys the law of close, once the streams have been opened, a constructor
    -- of popen that returns keeps of each open stream the end that is not the child's, where the
    -- stream has two, has closed the child's ends of the open streams, and leaves every other
    -- descriptor as it was; one that throws leaves the descriptors as the opening of the streams
    -- left them.
    pub construct-Kept :
        (sin sout serr : Option (Opener k)) (t : k.Table) (parent : Parent k.Table)
        → open_streams k sin sout serr parent.table ≡ (t, ok (din, (dout, derr)))
        → let (r, after) = construct k executable argv sin sout serr a parent in
          Kept (λ p. p) din dout derr t r after.table
    unfolding construct move_assign destroy_members unique_destroy unique_reset
    construct-Kept sin sout serr t parent opened =
        by_result (clone k executable argv sin sout serr a no_child parent) (
          subst (λ r. Held din dout derr t r) (sym (clone_step sin sout serr t parent opened))
            (clone_opened-Held (record parent { table = t })))
      where
        by_result :
            (r : Result ℤ × (Popen × Parent k.Table))
            → Held din dout derr t r
            → let (q, after) : Result Popen × Parent k.Table = elim r.0 [
              | ok pid ↦ (
                ok (record (r.1.0) { child_pid = (move_assign r.1.0.child_pid (of_value pid)).0 }),
                r.1.1,
              )
              | err e ↦ (err e, record (r.1.1) { table = destroy_members k r.1.0 r.1.1.table })
            ] in
              Kept (λ p. p) din dout derr t q after.table
        by_result (ok pid, (p, after)) h = h
        by_result (err e, (p, after)) h = ap (λ q. destroy_members k q after.table) h.1 ∙ h.0
