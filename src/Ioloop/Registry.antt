-- ===== src/Ioloop/Registry.antt =====
-- The handlers of ioloop together with its epoll object and the kernel behind that (src/ioloop.cpp over
-- src/epoll.cpp): add_handler, remove_handler and the pruning of start with the calls of epoll that
-- they make, in place of the answers that Ioloop/Handlers is given.
pub mod Interests
pub mod Agree
pub mod Laws
pub mod Waits
pub mod Runs
pub mod Agreement
use liblinuxpp.Prelude.{
  ℕ, Bool, true, false, List, [], ◌∷◌, ◌++◌, Option, none, some, ◌==◌, if◌then◌else◌,
}
use liblinuxpp.Prelude.Int.{pos}
use liblinuxpp.Syscall.{SyscallReturn, is_good, ok, err}
use liblinuxpp.Epoll
use liblinuxpp.Epoll.{Kernel, Epoll, ptr}
use liblinuxpp.Ioloop.Entries.{has_handle, erase}
use liblinuxpp.Ioloop.State.{Handler, Handlers}
use liblinuxpp.Ioloop.Handlers.{
  Error, already_handled, epoll_add_failed, epoll_del_failed, enoent, epoll_events, fd_of,
}

module _ (k : Kernel) where
  -- The file descriptor related members, with the state of the kernel.
  pub record Registry : Type 0 where
    pub handlers : List Handler
    pub processing : Bool
    pub removed_handlers : List ℕ
    pub epoll : Epoll
    pub kernel : k.State

  -- What Ioloop/Handlers sees of it.
  abbrev pub view : Registry → Handlers
  view r = record {
    handlers = r.handlers;
    processing = r.processing;
    removed_handlers = r.removed_handlers;
    size_events = r.epoll.size_events;
  }

  -- ioloop::add_handler. The pointer that epoll keeps is that to the map's element, which is named by
  -- its descriptor.
  unfoldable pub add_handler : Registry → Handler → Registry × Option Error
  add_handler r h =
      if has_handle fd_of h.fd r.handlers
      then (r, some already_handled)
      else (let emplaced = h ∷ r.handlers in
          let (answer, (epoll, kernel)) =
            Epoll.add_context k (pos h.fd) (epoll_events h.events) (ptr h.fd) r.epoll r.kernel in
          elim answer [
            | ok _ ↦ (record r { handlers = emplaced; epoll = epoll; kernel = kernel }, none)
            | err _ ↦ (
              record r { handlers = erase fd_of h.fd emplaced; epoll = epoll; kernel = kernel },
              some epoll_add_failed,
            )
          ])

  -- The test of what `epoll_.del(std::nothrow, fd)` returned.
  unfoldable pub del_error : SyscallReturn → Option Error
  unfolding is_good
  del_error ret =
      if is_good ret
      then none
      else (if ret.errno_member == enoent then none else some (epoll_del_failed ret.errno_member))

  -- ioloop::remove_handler.
  unfoldable pub remove_handler : Registry → ℕ → Registry × Option Error
  unfolding del_error
  remove_handler r fd =
      if has_handle fd_of fd r.handlers
      then (if r.processing
          then (record r { removed_handlers = r.removed_handlers ++ fd ∷ [] }, none)
          else (let (ret, (epoll, kernel)) = Epoll.del_nothrow k (pos fd) r.epoll r.kernel in
              (
                record r { handlers = erase fd_of fd r.handlers; epoll = epoll; kernel = kernel },
                del_error ret,
              )))
      else (r, none)

  -- The loop over removed_handlers_ in ioloop::start. A throw leaves that vector as it is.
  unfoldable pub prune_each : List ℕ → Registry → Registry × Option Error
  unfolding del_error
  prune_each [] r = (record r { removed_handlers = [] }, none)
  prune_each (fd ∷ fds) r =
      let (ret, (epoll, kernel)) = Epoll.del_nothrow k (pos fd) r.epoll r.kernel in
      elim (del_error ret) [
        | some e ↦ (record r { epoll = epoll; kernel = kernel }, some e)
        | none ↦
            prune_each fds
              (record r { handlers = erase fd_of fd r.handlers; epoll = epoll; kernel = kernel })
      ]

  unfoldable pub prune : Registry → Registry × Option Error
  unfolding prune_each
  prune r = prune_each r.removed_handlers r
