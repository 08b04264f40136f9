-- ===== src/Ioloop/Start/Dispatch.antt =====
-- Dispatching events to handlers that call the loop as they like (src/ioloop.cpp).
use liblinuxpp.Prelude.{
  ℕ, ◌≡◌, true, false, List, [], ◌∷◌, some, arith, ◌==◌, All, inl, inr, Bool-cases, map,
}
use liblinuxpp.Ioloop.Entries.{has_handle}
use liblinuxpp.Ioloop.State.{
  Handler, HandlerFunction, user, callbacks_function, stop_function, timeouts_function,
  periodic_function,
}
use liblinuxpp.Ioloop.Handlers.{fd_of}
use liblinuxpp.Ioloop.Handlers.Laws.{Safe, add_handler-Safe, remove_handler-Safe}
use liblinuxpp.Ioloop.Loop.{
  Ioloop, Script, Invocation, called, Action, adds_timeout, removes_timeout, adds_periodic,
  removes_periodic, adds_handler, removes_handler, adds_callback, stops, add_callback, stop,
  perform, invoke, invoke_all, process_timeouts, process_periodic_timeouts, process_callbacks,
  process_stop,
}
use liblinuxpp.Ioloop.Loop.Perform.{perform_all_keeps}
use liblinuxpp.Ioloop.Loop.PeriodicRound.{run_periodic_keeps}
use liblinuxpp.Ioloop.Loop.TimeoutRound.{run_expired_keeps}
use liblinuxpp.Ioloop.Start.{Round, find_handler, run_handler, dispatch, continued}

-- No handler of `hs` has gone, and no pointer that dangles has been followed.
abbrev IsSound : List Handler → Ioloop → Type 0
IsSound hs s = Safe hs s.table × (s.dangling ≡ false)

perform-IsSound :
    (hs : List Handler) (a : Action) (s : Ioloop) → IsSound hs s → IsSound hs (perform a s)
unfolding perform add_callback stop
perform-IsSound hs (adds_handler h e) s (safe, ok) = (add_handler-Safe hs s.table h e safe, ok)
perform-IsSound hs (removes_handler fd e) s (safe, ok) =
    (remove_handler-Safe hs s.table fd e safe, ok)
perform-IsSound hs (adds_callback c e) s (safe, ok) = ground arith
perform-IsSound hs (adds_timeout timeout c) s v = v
perform-IsSound hs (removes_timeout h) s v = v
perform-IsSound hs (adds_periodic now period c) s v = v
perform-IsSound hs (removes_periodic h) s v = v
perform-IsSound hs (stops e) s v = v

invoke-IsSound :
    (hs : List Handler) (script : Script) (c : Invocation) (s : Ioloop)
    → IsSound hs s
    → IsSound hs (invoke script c s)
unfolding invoke
invoke-IsSound hs script c s v =
    perform_all_keeps (IsSound hs) (perform-IsSound hs) (script c s) _ v

invoke_all-IsSound :
    (hs : List Handler) (script : Script) (cs : List ℕ) (s : Ioloop)
    → IsSound hs s
    → IsSound hs (invoke_all script cs s)
unfolding invoke_all
invoke_all-IsSound hs script [] s v = v
invoke_all-IsSound hs script (c ∷ cs) s v =
    invoke_all-IsSound hs script cs (invoke script (called c) s)
      (invoke-IsSound hs script (called c) s v)

run_handler-IsSound :
    (hs : List Handler) (script : Script) (r : Round) (h : Handler) (f : HandlerFunction)
    (s : Ioloop)
    → IsSound hs s
    → IsSound hs (run_handler script r h f s).0
unfolding run_handler process_callbacks process_stop process_timeouts process_periodic_timeouts
run_handler-IsSound hs script r h (user c) s v = invoke-IsSound hs script _ s v
run_handler-IsSound hs script r h callbacks_function s v =
    elim (Bool-cases (s.callbacks_eventfd == 0)) [
      | inl dry ↦ rw dry v
      | inr full ↦ rw full (invoke_all-IsSound hs script s.new_callbacks _ v)
    ]
run_handler-IsSound hs script r h stop_function s v = v
run_handler-IsSound hs script r h timeouts_function s v =
    run_expired_keeps (IsSound hs) script r.now (λ c u. invoke-IsSound hs script c u) _ 0 _ v
run_handler-IsSound hs script r h periodic_function s v =
    run_periodic_keeps (IsSound hs) script r.periodic_now (λ c u. invoke-IsSound hs script c u)
      (λ q u w. w) _ 0 _ v

pub find-has :
    (fd : ℕ) (hs : List Handler)
    → has_handle fd_of fd hs ≡ true
    → (h : Handler) × (find_handler fd hs ≡ some h)
find-has fd [] e = cc
find-has fd (h ∷ hs) e = elim (Bool-cases (h.fd == fd)) [
  | inl hit ↦ (h, rw hit)
  | inr miss ↦ let (g, found) = find-has fd hs (ground arith) in (g, rw miss found)
]

dispatch-IsSound :
    (script : Script) (r : Round) (hs : List Handler) (fds : List ℕ) (s : Ioloop)
    → All (λ fd. has_handle fd_of fd hs ≡ true) fds
    → IsSound hs s
    → IsSound hs (dispatch script r (map some fds) s).0
unfolding dispatch
dispatch-IsSound script r hs [] s a v = v
dispatch-IsSound script r hs (fd ∷ fds) s a v =
    let (h, found) = find-has fd s.table.handlers (v.0.holds fd a.0) in
    let x = run_handler script r h h.callback s in
    let w = run_handler-IsSound hs script r h h.callback s v in
    rw (found, dispatch)
      (continued (λ y. IsSound hs y.0) x (dispatch script r (map some fds)) (λ e _. w)
        (λ _. dispatch-IsSound script r hs fds x.0 a.1 w))

-- While handlers are being processed, if no dangling pointer has been followed before and each
-- event of a round points to a handler that is in the map when the dispatch begins, no pointer is
-- followed to a handler that is gone, and no handler goes while the events are dispatched, whatever
-- the handlers and callbacks do.
pub dispatch_sound :
    (script : Script) (r : Round) (fds : List ℕ) (s : Ioloop)
    → s.table.processing ≡ true
    → s.dangling ≡ false
    → All (λ fd. has_handle fd_of fd s.table.handlers ≡ true) fds
    → let u = (dispatch script r (map some fds) s).0 in
      (u.dangling ≡ false)
      × ((fd : ℕ)
          → has_handle fd_of fd s.table.handlers ≡ true
          → has_handle fd_of fd u.table.handlers ≡ true)
dispatch_sound script r fds s busy ok a =
    let v =
      dispatch-IsSound script r s.table.handlers fds s a
        (record { busy = busy; holds = λ fd e. e }, ok) in
    (v.1, v.0.holds)
