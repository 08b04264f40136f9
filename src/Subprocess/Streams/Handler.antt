-- ===== src/Subprocess/Streams/Handler.antt =====
-- clone_handler of src/subprocess/popen.cpp from end to end: the streams, the closing of all other
-- descriptors, the signal mask and execve, by what the kernel answers.
use liblinuxpp.Prelude.{
  ℕ, ◌≡◌, ◌≢◌, refl, sym, ap, ◌∙◌, Bool, true, false, not, ◌&&◌, ◌||◌, ◌==◌, if◌then◌else◌, List,
  [], ◌∷◌, Option, none, some, arith, inl, inr, Bool-cases, Option-cases,
}
use liblinuxpp.Prelude.Int.{ℤ, pos, negsuc, eqb_ℤ, eqb_ℤ_iff, to_int}
use liblinuxpp.Subprocess.Streams.{Kernel, IsKernel, StreamDescriptors, child_streams, close_below}

-- What the calls of clone_handler answer, an errno value being 0 where a call succeeds: the entries of
-- /proc/self/fd that readdir returned and how that ended, the descriptor of the directory if it was
-- opened, the limit of getrlimit if there is one, and the errors of pthread_sigmask and execve.
pub record Answers : Type 0 where
  pub listing : List ℤ
  pub dirfd : Option ℤ
  pub proc_error : ℕ
  pub rlimit_error : ℕ
  pub rlim_cur : Option ℕ
  pub sigmask_error : ℕ
  pub exec_error : ℕ

unfoldable pub is_standard : ℤ → Bool
is_standard fd = eqb_ℤ fd (pos 0) || eqb_ℤ fd (pos 1) || eqb_ℤ fd (pos 2)

abbrev pub is_listed : ℤ → List ℤ → Bool
is_listed j [] = false
is_listed j (fd ∷ fds) = if eqb_ℤ j fd then true else is_listed j fds

-- The rounds of `for (int i = 0; i < static_cast<int>(rlim_cur); ++i)`.
abbrev pub rounds_below : ℤ → ℕ
rounds_below (pos n) = n
rounds_below (negsuc n) = 0

abbrev pub int_limit : ℕ → ℕ
int_limit rlim_cur = rounds_below (to_int (pos rlim_cur))

module _ (k : Kernel) where
  -- The loop of close_all_descriptors_via_proc.
  unfoldable pub close_listed : ℤ → List ℤ → k.Table → k.Table
  unfolding is_standard
  close_listed dirfd [] t = t
  close_listed dirfd (fd ∷ fds) t =
      if is_standard fd || eqb_ℤ fd dirfd
      then close_listed dirfd fds t
      else close_listed dirfd fds (k.close t fd)

  -- close_all_descriptors_via_proc: the directory is closed at the end.
  unfoldable pub close_all_descriptors_via_proc : k.Table → Answers → k.Table × ℕ
  unfolding close_listed
  close_all_descriptors_via_proc t a = elim a.dirfd [
    | none ↦ (t, a.proc_error)
    | some fd ↦ (k.close (close_listed fd a.listing t) fd, a.proc_error)
  ]

  -- The closing of the other descriptors, with the errno value of getrlimit if that fails.
  unfoldable pub close_others : k.Table → Answers → k.Table × ℕ
  unfolding close_all_descriptors_via_proc
  close_others t a =
      let (u, close_via_proc) = close_all_descriptors_via_proc t a in
      if close_via_proc == 0
      then (u, 0)
      else (if a.rlimit_error == 0
          then elim a.rlim_cur [ none ↦ (u, 0) | some n ↦ (close_below k (int_limit n) u, 0) ]
          else (u, a.rlimit_error))

  -- From the closing on: the value that is returned and the errno value that is stored, or nothing where
  -- execve has replaced the program.
  unfoldable pub handler_end : k.Table → Answers → k.Table × Option (ℕ × ℕ)
  unfolding close_others
  handler_end t a =
      let (u, errno) = close_others t a in
      if errno == 0
      then (if a.sigmask_error == 0
          then (if a.exec_error == 0 then (u, none) else (u, some (1, a.exec_error)))
          else (u, some (5, a.sigmask_error)))
      else (u, some (6, errno))

  unfoldable pub handler_after : k.Table × Option (ℕ × ℕ) → Answers → k.Table × Option (ℕ × ℕ)
  unfolding handler_end
  handler_after (t, none) a = handler_end t a
  handler_after (t, some e) a = (t, some e)

  unfoldable pub clone_handler :
      k.Table
      → StreamDescriptors
      → StreamDescriptors
      → StreamDescriptors
      → Answers
      → k.Table × Option (ℕ × ℕ)
  unfolding handler_after
  clone_handler t sin sout serr a = handler_after (child_streams k t sin sout serr) a

some-none {ℓ} : {A : Type ℓ} (a : A) → some a ≢ none
some-none a e = cc

module _ (k : Kernel) (law : IsKernel k) where
  close_listed_lem :
      (fd : ℤ) (fds : List ℤ) (t : k.Table) (j : ℤ)
      → k.file (close_listed k fd fds t) j
        ≡ (if is_listed j fds && not (is_standard j || eqb_ℤ j fd) then none else k.file t j)
  unfolding close_listed
  close_listed_lem fd [] t j = refl
  close_listed_lem fd (x ∷ fds) t j = elim (Bool-cases (eqb_ℤ j x)) [
    | inl same ↦
        let p = (eqb_ℤ_iff j x).0 same in
        ground (
          arith,
          close_listed_lem fd fds t j,
          close_listed_lem fd fds (k.close t x) j,
          law.file_after_close t x j,
          ap is_standard p,
          ap (λ y. eqb_ℤ y fd) p,
        )
    | inr apart ↦ ground (
      arith,
      close_listed_lem fd fds t j,
      close_listed_lem fd fds (k.close t x) j,
      law.file_after_close t x j,
    )
  ]

  closed_file :
      (fd : ℤ) (fds : List ℤ) (t : k.Table) (j : ℤ)
      → k.file t fd ≡ none
      → (k.file t j ≢ none → is_listed j fds ≡ true)
      → k.file (k.close (close_listed k fd fds t) fd) j
        ≡ (if is_standard j then k.file t j else none)
  closed_file fd fds t j free all = elim (Bool-cases (eqb_ℤ j fd)) [
    | inl same ↦
        let p = (eqb_ℤ_iff j fd).0 same in
        ground (arith, law.file_after_close (close_listed k fd fds t) fd j, ap (λ y. k.file t y) p)
    | inr apart ↦ elim (Option-cases (k.file t j)) [
      | inl closed ↦
          ground (
            arith,
            law.file_after_close (close_listed k fd fds t) fd j,
            close_listed_lem fd fds t j,
          )
      | inr (f, opened) ↦ ground (
        arith,
        law.file_after_close (close_listed k fd fds t) fd j,
        close_listed_lem fd fds t j,
        all (λ e. some-none f (sym opened ∙ e)),
      )
    ]
  ]

  others_closed :
      (t : k.Table) (a : Answers) (fd : ℤ)
      → a.dirfd ≡ some fd
      → a.proc_error ≡ 0
      → (close_others k t a).0 ≡ k.close (close_listed k fd a.listing t) fd
  unfolding close_others close_all_descriptors_via_proc
  others_closed t a fd opened complete = ground arith

  handler_end_ok : (t : k.Table) (a : Answers) → (handler_end k t a).0 ≡ (close_others k t a).0
  unfolding handler_end
  handler_end_ok t a = ground arith

  handler_after_ok :
      (r : k.Table × Option (ℕ × ℕ)) (a : Answers)
      → (handler_after k r a).1 ≡ none
      → (handler_after k r a).0 ≡ (close_others k r.0 a).0
  unfolding handler_after
  handler_after_ok (t, none) a e = handler_end_ok t a
  handler_after_ok (t, some x) a e = absurd (some-none x e)

  handler_after-none :
      (r : k.Table × Option (ℕ × ℕ)) (a : Answers) → (handler_after k r a).1 ≡ none → r.1 ≡ none
  unfolding handler_after
  handler_after-none (t, none) a e = refl
  handler_after-none (t, some x) a e = absurd (some-none x e)

  -- Over a kernel that obeys the laws of close and dup2, where clone_handler ends in a successful
  -- execve and the listing of /proc/self/fd was read to its end, has every descriptor that was open
  -- after the streams, and was read by a descriptor that was free, the three streams were set up,
  -- and the program starts with the standard descriptors as these left them and with no other.
  pub clone_handler_lem :
      (t : k.Table) (sin sout serr : StreamDescriptors) (a : Answers) (fd j : ℤ)
      → let u = (child_streams k t sin sout serr).0 in
        (clone_handler k t sin sout serr a).1 ≡ none
        → a.dirfd ≡ some fd
        → a.proc_error ≡ 0
        → k.file u fd ≡ none
        → (k.file u j ≢ none → is_listed j a.listing ≡ true)
        → ((child_streams k t sin sout serr).1 ≡ none)
          × (k.file (clone_handler k t sin sout serr a).0 j
              ≡ (if is_standard j then k.file u j else none))
  unfolding clone_handler
  clone_handler_lem t sin sout serr a fd j done opened complete free all =
      let r = child_streams k t sin sout serr in
      (
        handler_after-none r a done,
        ap (λ u. k.file u j) (handler_after_ok r a done ∙ others_closed r.0 a fd opened complete)
            ∙ closed_file fd a.listing r.0 j free all,
      )
