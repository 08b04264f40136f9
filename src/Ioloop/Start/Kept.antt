-- ===== src/Ioloop/Start/Kept.antt =====
-- What the handler of an event keeps of the handlers and of keep_running_ (src/ioloop.cpp).
use liblinuxpp.Prelude.{
  ℕ, ◌≡◌, refl, inl, inr, Bool, true, false, List, [], ◌∷◌, some, arith, ◌==◌, Bool-cases,
}
use liblinuxpp.Ioloop.Entries.{has_handle}
use liblinuxpp.Ioloop.State.{
  Handler, HandlerFunction, user, callbacks_function, stop_function, timeouts_function,
  periodic_function, Handlers,
}
use liblinuxpp.Ioloop.Handlers
use liblinuxpp.Ioloop.Handlers.{fd_of, epoll_del}
use liblinuxpp.Ioloop.Loop.{
  Ioloop, Script, Invocation, called, Action, adds_timeout, removes_timeout, adds_periodic,
  removes_periodic, adds_handler, removes_handler, adds_callback, stops, add_callback, stop,
  perform, invoke, invoke_all, process_timeouts, process_periodic_timeouts, process_callbacks,
  process_stop,
}
use liblinuxpp.Ioloop.Handlers.Laws.{add_handler_cases, remove_handler_busy}
use liblinuxpp.Ioloop.Loop.Perform.{perform_all_keeps}
use liblinuxpp.Ioloop.Loop.PeriodicRound.{run_periodic_keeps}
use liblinuxpp.Ioloop.Loop.TimeoutRound.{run_expired_keeps}
use liblinuxpp.Ioloop.Start.{Round, find_handler, run_handler}

add_callback-same :
    (s : Ioloop) (c e : ℕ)
    → ((add_callback s c e).0.table ≡ s.table)
      × ((add_callback s c e).0.keep_running ≡ s.keep_running)
unfolding add_callback
add_callback-same s c e = ground arith

-- A property of the handlers and the flag that every operation keeps is kept by the handler of an event.
module _ (Q : Handlers → Bool → Type 0)
    (adds : (t : Handlers) (b : Bool) (h : Handler) (e : ℕ)
      → Q t b
      → Q (Handlers.add_handler t h e).0 b)
    (removes : (t : Handlers) (b : Bool) (fd e : ℕ)
      → Q t b
      → Q (Handlers.remove_handler t fd e).0 b)
    (halts : (t : Handlers) (b : Bool) → Q t b → Q t false) where
  abbrev pub Holds : Ioloop → Type 0
  Holds s = Q s.table s.keep_running

  pub perform-Holds : (a : Action) (s : Ioloop) → Holds s → Holds (perform a s)
  unfolding perform stop
  perform-Holds (adds_handler h e) s v = adds s.table s.keep_running h e v
  perform-Holds (removes_handler fd e) s v = removes s.table s.keep_running fd e v
  perform-Holds (adds_callback c e) s v =
      rw ((add_callback-same s c e).0, (add_callback-same s c e).1, perform) v
  perform-Holds (adds_timeout timeout c) s v = v
  perform-Holds (removes_timeout h) s v = v
  perform-Holds (adds_periodic now period c) s v = v
  perform-Holds (removes_periodic h) s v = v
  perform-Holds (stops e) s v = halts s.table s.keep_running v

  invoke-Holds :
      (script : Script) (c : Invocation) (s : Ioloop) → Holds s → Holds (invoke script c s)
  unfolding invoke
  invoke-Holds script c s v = perform_all_keeps Holds perform-Holds (script c s) _ v

  invoke_all-Holds :
      (script : Script) (cs : List ℕ) (s : Ioloop) → Holds s → Holds (invoke_all script cs s)
  unfolding invoke_all
  invoke_all-Holds script [] s v = v
  invoke_all-Holds script (c ∷ cs) s v =
      invoke_all-Holds script cs (invoke script (called c) s) (invoke-Holds script (called c) s v)

  pub run_handler-Holds :
      (script : Script) (r : Round) (h : Handler) (f : HandlerFunction) (s : Ioloop)
      → Holds s
      → Holds (run_handler script r h f s).0
  unfolding run_handler process_callbacks process_stop process_timeouts process_periodic_timeouts
  run_handler-Holds script r h (user c) s v = invoke-Holds script _ s v
  run_handler-Holds script r h callbacks_function s v =
      elim (Bool-cases (s.callbacks_eventfd == 0)) [
        | inl dry ↦ rw dry v
        | inr full ↦ rw full (invoke_all-Holds script s.new_callbacks _ v)
      ]
  run_handler-Holds script r h stop_function s v = v
  run_handler-Holds script r h timeouts_function s v =
      run_expired_keeps Holds script r.now (λ c u. invoke-Holds script c u) _ 0 _ v
  run_handler-Holds script r h periodic_function s v =
      run_periodic_keeps Holds script r.periodic_now (λ c u. invoke-Holds script c u) (λ q u w. w) _
        0 _ v

pub find_handler-has :
    (fd : ℕ) (hs : List Handler) (h : Handler)
    → find_handler fd hs ≡ some h
    → has_handle fd_of fd hs ≡ true
find_handler-has fd [] h e = ground arith
find_handler-has fd (g ∷ gs) h e = elim (Bool-cases (g.fd == fd)) [
  | inl hit ↦ rw hit refl
  | inr miss ↦ rw miss (find_handler-has fd gs h (ground arith))
]

find-cons :
    (fd : ℕ) (h g : Handler) (hs : List Handler)
    → has_handle fd_of h.fd hs ≡ false
    → find_handler fd hs ≡ some g
    → find_handler fd (h ∷ hs) ≡ some g
find-cons fd h g hs absent found = ground (arith, find_handler-has fd hs g found)

-- While handlers are processed, a handler that is found stays the one that is found.
pub record Same (hs : List Handler) (t : Handlers) : Type 0 where
  pub busy : t.processing ≡ true
  pub finds :
      (fd : ℕ) (h : Handler) → find_handler fd hs ≡ some h → find_handler fd t.handlers ≡ some h

pub add_handler-Same :
    (hs : List Handler) (t : Handlers) (b : Bool) (h : Handler) (e : ℕ)
    → Same hs t
    → Same hs (Handlers.add_handler t h e).0
add_handler-Same hs t b h e s = elim (add_handler_cases t h e) [
  | inl (_, same) ↦ rw same s
  | inr (absent, _, added) ↦ rw added (record {
    busy = s.busy;
    finds = λ fd g found. find-cons fd h g t.handlers absent (s.finds fd g found);
  })
]

pub remove_handler-Same :
    (hs : List Handler) (t : Handlers) (b : Bool) (fd e : ℕ)
    → Same hs t
    → Same hs (Handlers.remove_handler t fd e).0
remove_handler-Same hs t b fd e s =
    let kept = remove_handler_busy t fd e s.busy in
    record { busy = kept.1; finds = λ k h found. rw kept.0 (s.finds k h found) }
