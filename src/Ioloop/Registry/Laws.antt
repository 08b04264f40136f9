-- ===== src/Ioloop/Registry/Laws.antt =====
-- The operations on the handlers of ioloop, with the calls of epoll that they make, keep the map and the
-- interest list about the same descriptors.
use native.Mathlib.Decide.{ℕ_discrete}
use liblinuxpp.Prelude.{
  ℕ, ◌≡◌, ◌≢◌, refl, ◌⊎◌, inl, inr, false, List, [], ◌∷◌, none, some, arith, All, Bool-cases,
  get_elem?, length, length-append,
}
use liblinuxpp.Prelude.Int.{ℤ, pos}
use liblinuxpp.Syscall.{of_return, of_both, ok, err, system_error}
use liblinuxpp.Epoll
use liblinuxpp.Epoll.{
  EpollEvent, EventData, Answer, ptr, Kernel, Epoll, epfd, minus_one, ctl_add, ctl_del,
  make_epoll_event,
}
use liblinuxpp.Epoll.Interest.{Interest, has, change, IsKernel}
use liblinuxpp.Epoll.Refinement.{length-forget}
use liblinuxpp.Ioloop.Entries.{has_handle, erase}
use liblinuxpp.Ioloop.State.{Handler}
use liblinuxpp.Ioloop.Handlers.{Error, epoll_del_failed, epoll_events, enoent, fd_of}
use liblinuxpp.Ioloop.Handlers.Laws.{erase-head}
use liblinuxpp.Ioloop.Registry.{Registry, add_handler, del_error, remove_handler, prune_each, prune}
use liblinuxpp.Ioloop.Registry.Agree.{Agree, add-Agree, del-Agree, gone-Agree, added_is, deleted_is}

-- The event has the data of an entry of the list.
abbrev pub IsFrom : Interest → EpollEvent → Type 0
IsFrom xs event =
    (i : ℕ) × (fd : ℤ) × (entry : EpollEvent) × (get_elem? xs i ≡ some (fd, entry))
    × (event.data_ ≡ entry.data_)

-- What is documented of the kernel besides the laws of the interest list: ENOENT says that the
-- descriptor is not in it, and the events of a wait are as many as it returns, each with the data of
-- an entry.
pub record IsFaithful (k : Kernel) (watched : k.State → ℤ → Interest) : Type 0 where
  pub absent :
      (s : k.State) (e fd : ℤ)
      → (k.epoll_ctl s e fd ctl_del).1.ret ≡ minus_one
      → (k.epoll_ctl s e fd ctl_del).1.errno ≡ enoent
      → has fd (watched s e) ≡ false
  pub wait_errno :
      (s : k.State) (e max timeout : ℤ)
      → (k.epoll_wait s e max timeout).1.ret ≡ minus_one
      → (k.epoll_wait s e max timeout).1.errno ≢ 0
  pub stored_count :
      (s : k.State) (e max timeout : ℤ) (n : ℕ)
      → (k.epoll_wait s e max timeout).1.ret ≡ pos n
      → length (k.epoll_wait s e max timeout).1.stored ≡ n
  pub stored_from :
      (s : k.State) (e max timeout : ℤ)
      → All (IsFrom (watched s e)) (k.epoll_wait s e max timeout).1.stored

module _ (k : Kernel) (watched : k.State → ℤ → Interest) (law : IsKernel k watched)
    (faithful : IsFaithful k watched) where
  -- What add and del of the epoll object do, by what the kernel answers.
  pub add_cases :
      (fd : ℤ) (events p : ℕ) (e : Epoll) (s : k.State)
      → ((after : k.State) × (Epoll.add_context k fd events (ptr p) e s
            ≡ (ok tt, (record e { size_events = Epoll.increment e.size_events }, after)))
          × (change fd (ctl_add (make_epoll_event events (ptr p))) (watched s (epfd e))
              ≡ some (watched after (epfd e))))
        ⊎ ((after : k.State) × (errno : ℕ) × (Epoll.add_context k fd events (ptr p) e s
              ≡ (err (system_error errno), (e, after)))
            × (errno ≢ 0)
            × (watched after (epfd e) ≡ watched s (epfd e)))
  unfolding Epoll.add_context Epoll.add
  add_cases fd events p e s =
      elim (law.controlled s (epfd e) fd (ctl_add (make_epoll_event events (ptr p)))) [
        | inl good ↦ inl (answer.0, rw good.0, good.1)
        | inr bad ↦ inr (answer.0, answer.1.errno, rw bad.0, bad.1, bad.2)
      ]
    where
      answer : k.State × Answer
      answer = k.epoll_ctl s (epfd e) fd (ctl_add (make_epoll_event events (ptr p)))

  pub del_cases :
      (fd : ℤ) (e : Epoll) (s : k.State)
      → ((after : k.State) × (Epoll.del_nothrow k fd e s ≡ (
        of_return (pos 0),
        (record e { size_events = Epoll.decrement e.size_events }, after),
      ))
          × (change fd ctl_del (watched s (epfd e)) ≡ some (watched after (epfd e))))
        ⊎ ((after : k.State) × (errno : ℕ) × (Epoll.del_nothrow k fd e s
              ≡ (of_both errno minus_one, (e, after)))
            × (errno ≢ 0)
            × (watched after (epfd e) ≡ watched s (epfd e))
            × (errno ≡ enoent → has fd (watched s (epfd e)) ≡ false))
  unfolding Epoll.del_nothrow
  del_cases fd e s = elim (law.controlled s (epfd e) fd ctl_del) [
    | inl good ↦ inl (answer.0, rw good.0, good.1)
    | inr bad ↦
        inr (answer.0, answer.1.errno, rw bad.0, bad.1, bad.2, faithful.absent s (epfd e) fd bad.0)
  ]
    where
      answer : k.State × Answer
      answer = k.epoll_ctl s (epfd e) fd ctl_del

  abbrev pub interest : Registry k → Interest
  interest r = watched r.kernel (epfd r.epoll)

  abbrev pub Inv : Registry k → Type 0
  Inv r = Agree r.handlers (interest r) × (r.epoll.size_events ≡ length (interest r))

  pub add_handler-Inv : (r : Registry k) (h : Handler) → Inv r → Inv (add_handler k r h).0
  unfolding add_handler
  add_handler-Inv r h v = elim (Bool-cases (has_handle fd_of h.fd r.handlers)) [
    | inl there ↦ rw there v
    | inr new ↦ elim (add_cases (pos h.fd) (epoll_events h.events) h.fd r.epoll r.kernel) [
      | inl (after, added, changed) ↦
          let is = added_is (pos h.fd) _ _ _ changed in
          rw (new, added, added, is)
            (
              add-Agree h (make_epoll_event (epoll_events h.events) (ptr h.fd)) r.handlers
                  (interest r) v.0 new refl,
              ground (
                arith,
                v.1,
                length-append (interest r)
                    ((pos h.fd, make_epoll_event (epoll_events h.events) (ptr h.fd)) ∷ []),
                law.few r.kernel (epfd r.epoll),
              ),
            )
      | inr (after, errno, failed, _, kept) ↦ rw (new, failed, failed, erase-head, kept) v
    ]
  ]

  -- What the handlers and the list are after `epoll_.del(std::nothrow, fd)`, if the handler goes where it
  -- does not count as an error.
  pub del-Inv :
      (r : Registry k) (fd : ℕ)
      → Inv r
      → let (ret, (epoll, kernel)) = Epoll.del_nothrow k (pos fd) r.epoll r.kernel in
        ((del_error k ret ≡ none)
          × Inv (record r { handlers = erase fd_of fd r.handlers; epoll = epoll; kernel = kernel }))
        ⊎ ((e : Error) × (del_error k ret ≡ some e)
            × Inv (record r { epoll = epoll; kernel = kernel }))
  unfolding del_error
  del-Inv r fd v = elim (del_cases (pos fd) r.epoll r.kernel) [
    | inl (after, deleted, changed) ↦
        let (there, is) = deleted_is (pos fd) (interest r) _ changed in
        rw (deleted, is)
          (inl (
            refl,
            (
              del-Agree fd r.handlers (interest r) v.0,
              ground (
                arith,
                v.1,
                length-forget (pos fd) (interest r) there,
                law.few r.kernel (epfd r.epoll),
              ),
            ),
          ))
    | inr (after, errno, failed, nonzero, kept, gone) ↦
        rw (failed, kept)
          (elim (ℕ_discrete errno enoent) [
            | yes e ↦ inl (ground arith, (gone-Agree fd r.handlers (interest r) v.0 (gone e), v.1))
            | no other ↦ inr (epoll_del_failed errno, ground arith, v)
          ])
  ]

  pub remove_handler-Inv :
      (r : Registry k) (fd : ℕ)
      → (remove_handler k r fd).1 ≡ none
      → Inv r
      → Inv (remove_handler k r fd).0
  unfolding remove_handler
  remove_handler-Inv r fd fine v = elim (Bool-cases (has_handle fd_of fd r.handlers)) [
    | inl there ↦ elim (Bool-cases r.processing) [
      | inl busy ↦ rw (there, busy) v
      | inr idle ↦ elim (del-Inv r fd v) [
        | inl (_, kept) ↦ rw (there, idle) kept
        | inr (e, thrown, _) ↦ let none_thrown = rw (there, idle) at fine in cc
      ]
    ]
    | inr gone ↦ rw gone v
  ]

  prune_each-Inv : (fds : List ℕ) (r : Registry k) → Inv r → Inv (prune_each k fds r).0
  unfolding prune_each
  prune_each-Inv [] r v = v
  prune_each-Inv (fd ∷ fds) r v = elim (del-Inv r fd v) [
    | inl (fine, kept) ↦ rw (fine, prune_each) (prune_each-Inv fds _ kept)
    | inr (e, thrown, kept) ↦ rw (thrown, prune_each) kept
  ]

  pub prune-Inv : (r : Registry k) → Inv r → Inv (prune k r).0
  unfolding prune
  prune-Inv r v = prune_each-Inv r.removed_handlers r v
