-- ===== src/Ioloop/Handlers/Laws.antt =====
-- The handler map under add_handler, remove_handler and the pruning of start (src/ioloop.cpp).
use liblinuxpp.Prelude.{
  ℕ, ◌≡◌, ◌≢◌, refl, Bool, true, false, not, ◌&&◌, if◌then◌else◌, suc, List, [], ◌∷◌, none, arith,
  ◌==◌, inl, inr, ◌⊎◌, ◌+◌, ◌-◌,
}
use liblinuxpp.Ioloop.Entries.{has_handle, erase}
use liblinuxpp.Ioloop.State.{Handler, Handlers}
use liblinuxpp.Ioloop.Handlers.{fd_of, add_handler, remove_handler, prune_from, prune}

-- The handlers that are there while events are dispatched: none of `hs` goes.
pub record Safe (hs : List Handler) (t : Handlers) : Type 0 where
  pub busy : t.processing ≡ true
  pub holds : (fd : ℕ) → has_handle fd_of fd hs ≡ true → has_handle fd_of fd t.handlers ≡ true

pub erase-head : (h : Handler) (hs : List Handler) → erase fd_of h.fd (h ∷ hs) ≡ hs
erase-head h hs = ground arith

-- add_handler either keeps everything and throws, or puts the handler in the map, where its
-- descriptor was not, and counts it.
pub add_handler_cases :
    (t : Handlers) (h : Handler) (errno : ℕ)
    → ((add_handler t h errno).1 ≢ none) × ((add_handler t h errno).0 ≡ t)
      ⊎ (has_handle fd_of h.fd t.handlers ≡ false)
        × (errno ≡ 0)
        × (add_handler t h errno
            ≡ (record t { handlers = h ∷ t.handlers; size_events = t.size_events + 1 }, none))
unfolding add_handler
add_handler_cases t h errno = ground (arith, erase-head h t.handlers)

has-cons :
    (fd : ℕ) (h : Handler) (hs : List Handler)
    → has_handle fd_of fd hs ≡ true
    → has_handle fd_of fd (h ∷ hs) ≡ true
has-cons fd h hs e = ground arith

pub add_handler-Safe :
    (hs : List Handler) (t : Handlers) (h : Handler) (errno : ℕ)
    → Safe hs t
    → Safe hs (add_handler t h errno).0
add_handler-Safe hs t h errno s = elim (add_handler_cases t h errno) [
  | inl (_, e) ↦ rw e s
  | inr (_, _, e) ↦
      rw e (record { busy = s.busy; holds = λ fd e'. has-cons fd h t.handlers (s.holds fd e') })
]

pub remove_handler_busy :
    (t : Handlers) (fd errno : ℕ)
    → t.processing ≡ true
    → ((remove_handler t fd errno).0.handlers ≡ t.handlers)
      × ((remove_handler t fd errno).0.processing ≡ true)
unfolding remove_handler
remove_handler_busy t fd errno b = ground arith

pub remove_handler-Safe :
    (hs : List Handler) (t : Handlers) (fd errno : ℕ)
    → Safe hs t
    → Safe hs (remove_handler t fd errno).0
remove_handler-Safe hs t fd errno s = record {
  busy = (remove_handler_busy t fd errno s.busy).1;
  holds = λ k e. rw (remove_handler_busy t fd errno s.busy).0 (s.holds k e);
}

-- No descriptor has two handlers.
abbrev pub IsDistinct : List Handler → Type 0
IsDistinct [] = Unit
IsDistinct (h ∷ hs) = (has_handle fd_of h.fd hs ≡ false) × IsDistinct hs

pub has-erase :
    (k fd : ℕ) (hs : List Handler)
    → IsDistinct hs
    → has_handle fd_of k (erase fd_of fd hs) ≡ (has_handle fd_of k hs && not (fd == k))
has-erase k fd [] d = refl
has-erase k fd (h ∷ hs) d = ground (arith, has-erase k fd hs d.1)

pub erase-IsDistinct : (fd : ℕ) (hs : List Handler) → IsDistinct hs → IsDistinct (erase fd_of fd hs)
erase-IsDistinct fd [] d = d
erase-IsDistinct fd (h ∷ hs) d =
    ground (arith, erase-IsDistinct fd hs d.1, has-erase h.fd fd hs d.1)

pub add_handler-IsDistinct :
    (t : Handlers) (h : Handler) (errno : ℕ)
    → IsDistinct t.handlers
    → IsDistinct (add_handler t h errno).0.handlers
add_handler-IsDistinct t h errno d = elim (add_handler_cases t h errno) [
  | inl (_, e) ↦ rw e d
  | inr (new, _, e) ↦ rw e (new, d)
]

pub remove_handler-IsDistinct :
    (t : Handlers) (fd errno : ℕ)
    → IsDistinct t.handlers
    → IsDistinct (remove_handler t fd errno).0.handlers
unfolding remove_handler
remove_handler-IsDistinct t fd errno d = ground (arith, erase-IsDistinct fd t.handlers d)

abbrev pub contains : ℕ → List ℕ → Bool
contains k [] = false
contains k (fd ∷ fds) = if fd == k then true else contains k fds

prune_from_ok :
    (answer : ℕ → ℕ) (k i : ℕ) (fds : List ℕ) (t : Handlers)
    → IsDistinct t.handlers
    → (prune_from answer i fds t).1 ≡ none
    → ((prune_from answer i fds t).0.removed_handlers ≡ [])
      × (has_handle fd_of k (prune_from answer i fds t).0.handlers
          ≡ (has_handle fd_of k t.handlers && not (contains k fds)))
unfolding prune_from
prune_from_ok answer k i [] t d ok = (refl, ground arith)
prune_from_ok answer k i (fd ∷ fds) t d ok =
    let shrunk = erase fd_of fd t.handlers in
    ground (
      arith,
      has-erase k fd t.handlers d,
      prune_from_ok answer k (suc i) fds
          (record t { handlers = shrunk; size_events = t.size_events - 1 })
          (erase-IsDistinct fd t.handlers d),
      prune_from_ok answer k (suc i) fds (record t { handlers = shrunk })
          (erase-IsDistinct fd t.handlers d),
    )

-- Pruning that does not throw takes from a map without duplicates exactly the handlers that were
-- marked for removal, and leaves no mark.
pub prune_ok :
    (answer : ℕ → ℕ) (t : Handlers) (k : ℕ)
    → IsDistinct t.handlers
    → (prune answer t).1 ≡ none
    → ((prune answer t).0.removed_handlers ≡ [])
      × (has_handle fd_of k (prune answer t).0.handlers
          ≡ (has_handle fd_of k t.handlers && not (contains k t.removed_handlers)))
unfolding prune
prune_ok answer t k d ok = prune_from_ok answer k 0 t.removed_handlers t d ok

prune_from-IsDistinct :
    (answer : ℕ → ℕ) (i : ℕ) (fds : List ℕ) (t : Handlers)
    → IsDistinct t.handlers
    → IsDistinct (prune_from answer i fds t).0.handlers
unfolding prune_from
prune_from-IsDistinct answer i [] t d = d
prune_from-IsDistinct answer i (fd ∷ fds) t d =
    let shrunk = erase fd_of fd t.handlers in
    ground (
      arith,
      prune_from-IsDistinct answer (suc i) fds
          (record t { handlers = shrunk; size_events = t.size_events - 1 })
          (erase-IsDistinct fd t.handlers d),
      prune_from-IsDistinct answer (suc i) fds (record t { handlers = shrunk })
          (erase-IsDistinct fd t.handlers d),
    )

pub prune-IsDistinct :
    (answer : ℕ → ℕ) (t : Handlers) → IsDistinct t.handlers → IsDistinct (prune answer t).0.handlers
unfolding prune
prune-IsDistinct answer t d = prune_from-IsDistinct answer 0 t.removed_handlers t d

prune_from-processing :
    (answer : ℕ → ℕ) (i : ℕ) (fds : List ℕ) (t : Handlers)
    → (prune_from answer i fds t).0.processing ≡ t.processing
unfolding prune_from
prune_from-processing answer i [] t = refl
prune_from-processing answer i (fd ∷ fds) t =
    let shrunk = erase fd_of fd t.handlers in
    ground (
      arith,
      prune_from-processing answer (suc i) fds
          (record t { handlers = shrunk; size_events = t.size_events - 1 }),
      prune_from-processing answer (suc i) fds (record t { handlers = shrunk }),
    )

pub prune-processing :
    (answer : ℕ → ℕ) (t : Handlers) → (prune answer t).0.processing ≡ t.processing
unfolding prune
prune-processing answer t = prune_from-processing answer 0 t.removed_handlers t
