-- ===== src/Ioloop/Registry/Waits.antt =====
-- The events that start gets from its epoll object point to handlers that are in the map.
use mathlib.Core.Path.{ap₂, subst}
use mathlib.Core.List.{append-nil}
use liblinuxpp.Prelude.{
  ℕ, zero, suc, ◌-◌, ◌^◌, ◌<◌, ◌≤◌, ◌≡◌, refl, sym, ◌∙◌, ap, inl, inr, true, List, [], ◌∷◌, ◌++◌,
  map, arith, All, length, length-append, take, drop,
}
use liblinuxpp.Prelude.Int.{ℤ, pos, to_int}
use liblinuxpp.Syscall.{is_good}
use liblinuxpp.Epoll
use liblinuxpp.Epoll.{EpollEvent, ptr, Kernel, Epoll, epfd, minus_one, resize, store}
use liblinuxpp.Epoll.Interest.{Interest, IsKernel}
use liblinuxpp.Epoll.Refinement.{length-resize, room_lem}
use liblinuxpp.Ioloop.Entries.{has_handle}
use liblinuxpp.Ioloop.State.{Handler}
use liblinuxpp.Ioloop.Handlers.{fd_of}
use liblinuxpp.Ioloop.Registry.{Registry}
use liblinuxpp.Ioloop.Registry.Interests.{get_elem?-has}
use liblinuxpp.Ioloop.Registry.Agree.{Agree}
use liblinuxpp.Ioloop.Registry.Laws.{IsFrom, IsFaithful, Inv}

take-all : (n : ℕ) (es : List EpollEvent) → length es ≤ n → take n es ≡ es
take-all zero [] h = refl
take-all zero (e ∷ es) h = absurd (omega arith)
take-all (suc n) [] h = refl
take-all (suc n) (e ∷ es) h = ap (λ l. e ∷ l) (take-all n es (omega arith))

take-append : (es fs : List EpollEvent) → take (length es) (es ++ fs) ≡ es
take-append [] fs = refl
take-append (e ∷ es) fs = ap (λ l. e ∷ l) (take-append es fs)

resize-append : (es fs : List EpollEvent) → resize (length es) (es ++ fs) ≡ es
resize-append es fs =
    let none_missing : length es - length (es ++ fs) ≡ 0 = omega (arith, length-append es fs) in
    rw (take-append es fs, none_missing) (append-nil es)

-- A vector that is cut to the number of stored events holds these.
stored_lem :
    (new room : List EpollEvent)
    → length new ≤ length room
    → resize (length new) (store new room) ≡ new
stored_lem new room fits =
    rw (take-all (length room) new fits) (resize-append new (drop (length new) room))

-- The handlers that the events point to.
pub record Handled (hs : List Handler) (events : List EpollEvent) : Type 0 where
  pub fds : List ℕ
  pub pointers : map (λ e. e.data_) events ≡ map ptr fds
  pub present : All (λ fd. has_handle fd_of fd hs ≡ true) fds

handled :
    (hs : List Handler) (xs : Interest) (events : List EpollEvent)
    → Agree hs xs
    → All (IsFrom xs) events
    → Handled hs events
handled hs xs [] a from = record { fds = []; pointers = refl; present = tt }
handled hs xs (e ∷ es) a ((i, fd, entry, at, points), from) =
    let (n, to, there) = get_elem?-has xs i a.points at in
    let rest = handled hs xs es a from in
    record {
      fds = n ∷ rest.fds;
      pointers = ap₂ ◌∷◌ (points ∙ to) rest.pointers;
      present = (sym (a.same n) ∙ there, rest.present);
    }

module _ (k : Kernel) (watched : k.State → ℤ → Interest) (law : IsKernel k watched)
    (faithful : IsFaithful k watched) where
  -- A wait that succeeds leaves in the vector the events that the kernel has stored.
  wait_stored :
      (es : List EpollEvent) (e : Epoll) (s : k.State)
      → e.size_events ≡ length (watched s (epfd e))
      → is_good (Epoll.wait_nothrow k es e s).0 ≡ true
      → (max : ℤ) × ((Epoll.wait_nothrow k es e s).1.0
          ≡ (k.epoll_wait s (epfd e) max minus_one).1.stored)
        × ((Epoll.wait_nothrow k es e s).1.1 ≡ (k.epoll_wait s (epfd e) max minus_one).0)
  unfolding Epoll.wait_nothrow is_good
  wait_stored es e s c good = elim (law.wait_answer s (epfd e) max minus_one) [
    | inl failed ↦
        let zero_errno = rw failed at good in
        absurd (faithful.wait_errno s (epfd e) max minus_one failed (ground arith))
    | inr (m, n, max_is, few, ret) ↦
        let counted = faithful.stored_count s (epfd e) max minus_one n ret in
        let fits : n ≤ length room = omega (arith, few, room_lem (length room) m small max_is) in
        (
          max,
          rw ret (
              subst (λ q. resize q (store stored room) ≡ stored) counted
                (stored_lem stored room (rw counted fits))),
          rw ret refl,
        )
  ]
    where
      room : List EpollEvent
      room = resize e.size_events es

      max : ℤ
      max = to_int (pos (length room))

      stored : List EpollEvent
      stored = (k.epoll_wait s (epfd e) max minus_one).1.stored

      small : length room < 2 ^ 31
      small = omega (arith, length-resize e.size_events es, c, law.few s (epfd e))

  pub wait-Handled :
      (r : Registry k) (es : List EpollEvent)
      → Inv k watched law faithful r
      → is_good (Epoll.wait_nothrow k es r.epoll r.kernel).0 ≡ true
      → Handled r.handlers (Epoll.wait_nothrow k es r.epoll r.kernel).1.0
  wait-Handled r es v good =
      let (max, is, _) = wait_stored es r.epoll r.kernel v.1 good in
      rw is (
        handled r.handlers (watched r.kernel (epfd r.epoll)) _ v.0
          (faithful.stored_from r.kernel (epfd r.epoll) max minus_one))
