-- ===== src/Ioloop/Handlers.antt =====
-- File descriptor handlers (src/ioloop.cpp): epoll_events, add_handler, remove_handler, and the
-- pruning of removed handlers in start. What epoll_ctl answers is an argument: 0, or an errno value.
pub mod Laws
pub mod Pruning
use liblinuxpp.Prelude.{
  ℕ, zero, suc, ◌+◌, ◌-◌, ◌/◌, ◌%◌, ◌^◌, Bool, true, false, List, [], ◌∷◌, ◌++◌, Option, none, some,
  ◌==◌, if◌then◌else◌,
}
use liblinuxpp.Ioloop.Entries.{has_handle, erase}
use liblinuxpp.Ioloop.State.{Handler, Handlers}

abbrev pub enoent : ℕ
enoent = 2

-- Is the bit of weight 2 ^ k set in the mask?
abbrev pub test_bit : ℕ → ℕ → Bool
test_bit mask k = mask / 2 ^ k % 2 == 1

-- epoll_events: EPOLLIN is 1, EPOLLOUT is 4, EPOLLERR is 8, joined by `|` (here by `+`, the bits
-- being distinct).
pub epoll_events : ℕ → ℕ
epoll_events events =
    (if test_bit events 0 then 1 else 0)
    + (if test_bit events 1 then 4 else 0)
    + (if test_bit events 2 then 8 else 0)

-- The exceptions of the handler operations.
pub data Error : Type 0 where
  already_handled : Error
  epoll_add_failed : Error
  epoll_del_failed : ℕ → Error

abbrev pub fd_of : Handler → ℕ
fd_of h = h.fd

-- ioloop::add_handler. `unordered_map::emplace` leaves a key that is there alone.
unfoldable pub add_handler : Handlers → Handler → ℕ → Handlers × Option Error
add_handler t h errno =
    if has_handle fd_of h.fd t.handlers
    then (t, some already_handled)
    else (let emplaced = record t { handlers = h ∷ t.handlers } in
        if errno == 0 then (record emplaced { size_events = t.size_events + 1 }, none) else (
          record emplaced { handlers = erase fd_of h.fd emplaced.handlers },
          some epoll_add_failed,
        ))

-- epoll::del(std::nothrow, fd) seen from its caller, by the answer of epoll_ctl.
abbrev pub epoll_del : Handlers → ℕ → Handlers × Option Error
epoll_del t errno =
    if errno == 0
    then (record t { size_events = t.size_events - 1 }, none)
    else (if errno == enoent then (t, none) else (t, some (epoll_del_failed errno)))

-- ioloop::remove_handler.
unfoldable pub remove_handler : Handlers → ℕ → ℕ → Handlers × Option Error
remove_handler t fd errno =
    if has_handle fd_of fd t.handlers
    then (if t.processing
        then (record t { removed_handlers = t.removed_handlers ++ fd ∷ [] }, none)
        else epoll_del (record t { handlers = erase fd_of fd t.handlers }) errno)
    else (t, none)

-- "prune any handlers marked for removal" in ioloop::start. `answer i` is what epoll_ctl answers to
-- the call number `i` of this round. A throw leaves the rest of the vector as it is.
unfoldable pub prune_from : (ℕ → ℕ) → ℕ → List ℕ → Handlers → Handlers × Option Error
prune_from answer i [] t = (record t { removed_handlers = [] }, none)
prune_from answer i (fd ∷ fds) t = elim (epoll_del t (answer i)).1 [
  | some e ↦ (t, some e)
  | none ↦
      let u = (epoll_del t (answer i)).0 in
      prune_from answer (suc i) fds (record u { handlers = erase fd_of fd u.handlers })
]

unfoldable pub prune : (ℕ → ℕ) → Handlers → Handlers × Option Error
unfolding prune_from
prune answer t = prune_from answer 0 t.removed_handlers t
