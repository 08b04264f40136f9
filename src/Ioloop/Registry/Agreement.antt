-- ===== src/Ioloop/Registry/Agreement.antt =====
-- The handlers with their epoll object do what Ioloop/Handlers says, for some answers of the kernel.
use liblinuxpp.Prelude.{
  ℕ, suc, ◌≡◌, refl, sym, ap, ◌∙◌, inl, inr, false, List, [], ◌∷◌, Option, none, some, arith,
  Bool-cases,
}
use liblinuxpp.Prelude.Int.{ℤ, pos}
use liblinuxpp.Epoll
use liblinuxpp.Epoll.{Kernel, Epoll, epfd}
use liblinuxpp.Epoll.Interest.{Interest, IsKernel}
use liblinuxpp.Epoll.Refinement.{length-forget}
use liblinuxpp.Ioloop.Entries.{has_handle, erase}
use liblinuxpp.Ioloop.State.{Handler, Handlers}
use liblinuxpp.Ioloop.Handlers
use liblinuxpp.Ioloop.Handlers.{Error, epoll_events, enoent, fd_of, epoll_del, prune_from}
use liblinuxpp.Ioloop.Registry.{
  Registry, view, add_handler, del_error, remove_handler, prune_each, prune,
}
use liblinuxpp.Ioloop.Registry.Agree.{deleted_is}
use liblinuxpp.Ioloop.Registry.Laws.{IsFaithful, Inv, interest, add_cases, del_cases, del-Inv}
use liblinuxpp.Ioloop.Handlers.Pruning.{
  prune_from-none, prune_from-some, epoll_del-some, prune_from-ext, answers, answers_self,
}

module _ (k : Kernel) (watched : k.State → ℤ → Interest) (law : IsKernel k watched)
    (faithful : IsFaithful k watched) where
  pub add_handler_agrees :
      (r : Registry k) (h : Handler)
      → Inv k watched law faithful r
      → (errno : ℕ) × (view k (add_handler k r h).0 ≡ (Handlers.add_handler (view k r) h errno).0)
        × ((add_handler k r h).1 ≡ (Handlers.add_handler (view k r) h errno).1)
  unfolding add_handler Handlers.add_handler
  add_handler_agrees r h v = elim (Bool-cases (has_handle fd_of h.fd r.handlers)) [
    | inl there ↦ (0, rw there refl, rw there refl)
    | inr new ↦
        elim (add_cases k watched law faithful (pos h.fd) (epoll_events h.events) h.fd r.epoll
          r.kernel) [
            | inl (after, added, _) ↦ (
              0,
              rw (new, added, added) (ground (arith, v.1, law.few r.kernel (epfd r.epoll))),
              rw (new, added) refl,
            )
            | inr (after, errno, failed, nonzero, _) ↦
                (errno, rw (new, failed, failed) (ground arith), rw (new, failed) (ground arith))
          ]
  ]

  -- `epoll_.del(std::nothrow, fd)`, as its caller sees it.
  del_agrees :
      (r : Registry k) (fd : ℕ)
      → Inv k watched law faithful r
      → let (ret, (epoll, kernel)) = Epoll.del_nothrow k (pos fd) r.epoll r.kernel in
        (errno : ℕ) × ((t : Handlers)
          → t.size_events ≡ r.epoll.size_events
          → ((epoll_del t errno).0 ≡ record t { size_events = epoll.size_events })
            × ((epoll_del t errno).1 ≡ del_error k ret))
  unfolding del_error
  del_agrees r fd v = elim (del_cases k watched law faithful (pos fd) r.epoll r.kernel) [
    | inl (after, deleted, changed) ↦ (
      0,
      λ t e. rw deleted (
          ground (
            arith,
            v.1,
            length-forget (pos fd) (interest k watched law faithful r)
                (deleted_is (pos fd) (interest k watched law faithful r) _ changed).0,
            law.few r.kernel (epfd r.epoll),
          )),
    )
    | inr (after, errno, failed, nonzero, kept, gone) ↦ (errno, λ t e. rw failed (ground arith))
  ]

  -- What del_agrees says of an answer.
  abbrev DelAgrees : Registry k → ℕ → ℕ → Type 0
  DelAgrees r fd errno =
      let (ret, (epoll, kernel)) = Epoll.del_nothrow k (pos fd) r.epoll r.kernel in
      (t : Handlers)
      → t.size_events ≡ r.epoll.size_events
      → ((epoll_del t errno).0 ≡ record t { size_events = epoll.size_events })
        × ((epoll_del t errno).1 ≡ del_error k ret)

  remove_with :
      (r : Registry k) (fd errno : ℕ)
      → DelAgrees r fd errno
      → (view k (remove_handler k r fd).0 ≡ (Handlers.remove_handler (view k r) fd errno).0)
        × ((remove_handler k r fd).1 ≡ (Handlers.remove_handler (view k r) fd errno).1)
  unfolding remove_handler Handlers.remove_handler
  remove_with r fd errno agrees =
      let after =
        agrees (record (view k r) { handlers = erase fd_of fd r.handlers; processing = false })
          refl in
      elim (Bool-cases (has_handle fd_of fd r.handlers)) [
        | inl there ↦ elim (Bool-cases r.processing) [
          | inl busy ↦ (rw (there, busy) refl, rw (there, busy) refl)
          | inr idle ↦ (rw (there, idle) (sym after.0), rw (there, idle) (sym after.1))
        ]
        | inr gone ↦ (rw gone refl, rw gone refl)
      ]

  pub remove_handler_agrees :
      (r : Registry k) (fd : ℕ)
      → Inv k watched law faithful r
      → (errno : ℕ) × (view k (remove_handler k r fd).0
          ≡ (Handlers.remove_handler (view k r) fd errno).0)
        × ((remove_handler k r fd).1 ≡ (Handlers.remove_handler (view k r) fd errno).1)
  remove_handler_agrees r fd v =
      let (errno, agrees) = del_agrees r fd v in
      let (states, errors) = remove_with r fd errno agrees in (errno, states, errors)

  -- The pruning from answer number `i` on: one step, and the whole.
  abbrev seen : Registry k × Option Error → Handlers × Option Error
  seen (r, e) = (view k r, e)

  abbrev deleted : Registry k → ℕ → Registry k
  deleted r fd =
      let (ret, (epoll, kernel)) = Epoll.del_nothrow k (pos fd) r.epoll r.kernel in
      record r { handlers = erase fd_of fd r.handlers; epoll = epoll; kernel = kernel }

  prune_each-none :
      (fd : ℕ) (fds : List ℕ) (r : Registry k)
      → del_error k (Epoll.del_nothrow k (pos fd) r.epoll r.kernel).0 ≡ none
      → prune_each k (fd ∷ fds) r ≡ prune_each k fds (deleted r fd)
  unfolding prune_each
  prune_each-none fd fds r fine = rw (fine, prune_each) refl

  prune_each-some :
      (fd : ℕ) (fds : List ℕ) (r : Registry k) {x : Error}
      → del_error k (Epoll.del_nothrow k (pos fd) r.epoll r.kernel).0 ≡ some x
      → seen (prune_each k (fd ∷ fds) r)
        ≡ (record (view k r) { size_events = (deleted r fd).epoll.size_events }, some x)
  unfolding prune_each
  prune_each-some fd fds r thrown = rw (thrown, prune_each) refl

  prune_step :
      (i fd errno : ℕ) (fds : List ℕ) (r : Registry k) (rest : ℕ → ℕ)
      → DelAgrees r fd errno
      → del_error k (Epoll.del_nothrow k (pos fd) r.epoll r.kernel).0 ≡ none
      → seen (prune_each k fds (deleted r fd)) ≡ prune_from rest (suc i) fds (view k (deleted r fd))
      → seen (prune_each k (fd ∷ fds) r) ≡ prune_from (answers i errno rest) i (fd ∷ fds) (view k r)
  prune_step i fd errno fds r rest agrees fine later =
      let answer = answers i errno rest in
      let now = agrees (view k r) refl in
      let self = answers_self i errno rest in
      let first : prune_each k (fd ∷ fds) r ≡ prune_each k fds (deleted r fd) =
        prune_each-none fd fds r fine in
      let out = ap (λ n. (epoll_del (view k r) n).0) self ∙ now.0 in
      ap seen first
      ∙ later
      ∙ prune_from-ext rest answer (suc i) fds (view k (deleted r fd)) (λ j h. ground arith)
      ∙ ap (prune_from answer (suc i) fds)
          (sym (ap (λ (p : Handlers). record p { handlers = erase fd_of fd p.handlers }) out))
      ∙ sym (
          prune_from-none answer i fd fds (view k r)
            (ap (λ n. (epoll_del (view k r) n).1) self ∙ now.1 ∙ fine))

  prune_each_agrees :
      (i : ℕ) (fds : List ℕ) (r : Registry k)
      → Inv k watched law faithful r
      → (answer : ℕ → ℕ) × (seen (prune_each k fds r) ≡ prune_from answer i fds (view k r))
  prune_each_agrees i [] r v = ((λ j. 0), unfold prune_from prune_each in refl)
  prune_each_agrees i (fd ∷ fds) r v =
      let (errno, agrees) = del_agrees r fd v in
      elim (del-Inv k watched law faithful r fd v) [
        | inl (fine, kept) ↦
            let (rest, later) = prune_each_agrees (suc i) fds (deleted r fd) kept in
            (answers i errno rest, prune_step i fd errno fds r rest agrees fine later)
        | inr (x, thrown, _) ↦ (
          (λ j. errno),
          (let now = agrees (view k r) refl in
              prune_each-some fd fds r thrown
              ∙ ap (λ (t : Handlers). (t, some x))
                  (sym now.0 ∙ epoll_del-some (view k r) errno (now.1 ∙ thrown))
              ∙ sym (prune_from-some (λ j. errno) i fd fds (view k r) (now.1 ∙ thrown))),
        )
      ]

  pub prune_agrees :
      (r : Registry k)
      → Inv k watched law faithful r
      → (answer : ℕ → ℕ) × ((view k (prune k r).0, (prune k r).1)
          ≡ Handlers.prune answer (view k r))
  unfolding prune Handlers.prune
  prune_agrees r v = prune_each_agrees 0 r.removed_handlers r v
