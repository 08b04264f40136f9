-- ===== src/Ioloop/Start/Halting.antt =====
-- What a handler that calls stop leaves of keep_running_ while the events are dispatched
-- (src/ioloop.cpp).
use liblinuxpp.Prelude.{
  ℕ, ◌≡◌, refl, Bool, true, false, List, [], ◌∷◌, ◌++◌, Option, some, arith, All, map, none,
}
use liblinuxpp.Ioloop.State.{Handler, HandlerFunction, user, Handlers}
use liblinuxpp.Ioloop.Handlers.{fd_of}
use liblinuxpp.Ioloop.Entries.{has_handle}
use liblinuxpp.Ioloop.Loop
use liblinuxpp.Ioloop.Loop.{
  Ioloop, Script, handled, Action, stops, stop, perform, perform_all, invoke,
}
use liblinuxpp.Ioloop.Loop.Perform.{perform_all_keeps}
use liblinuxpp.Ioloop.Start.{Round, find_handler, run_handler, dispatch, continued}
use liblinuxpp.Ioloop.Start.Kept.{
  find_handler-has, Same, add_handler-Same, remove_handler-Same, perform-Holds, run_handler-Holds,
}

abbrev pub contains_stop : List Action → Bool
contains_stop [] = false
contains_stop (stops errno ∷ actions) = true
contains_stop (_ ∷ actions) = contains_stop actions

-- A handler whose callback calls stop, whatever the state.
abbrev pub CallsStop : Script → Handler → Type 0
CallsStop script h =
    (c : ℕ) × (h.callback ≡ user c)
    × ((s : Ioloop) → contains_stop (script (handled c h.fd h.events) s) ≡ true)

abbrev Halted : Handlers → Bool → Type 0
Halted t running = running ≡ false

perform-halted :
    (a : Action) (s : Ioloop) → s.keep_running ≡ false → (perform a s).keep_running ≡ false
perform-halted a s e = perform-Holds Halted (λ t b h n v. v) (λ t b fd n v. v) (λ t b v. refl) a s e

run_handler-halted :
    (script : Script) (r : Round) (h : Handler) (f : HandlerFunction) (s : Ioloop)
    → s.keep_running ≡ false
    → (run_handler script r h f s).0.keep_running ≡ false
run_handler-halted script r h f s e =
    run_handler-Holds Halted (λ t b g n v. v) (λ t b fd n v. v) (λ t b v. refl) script r h f s e

run_handler-Same :
    (hs : List Handler) (script : Script) (r : Round) (h : Handler) (f : HandlerFunction)
    (s : Ioloop)
    → Same hs s.table
    → Same hs (run_handler script r h f s).0.table
run_handler-Same hs script r h f s v =
    run_handler-Holds (λ t b. Same hs t) (add_handler-Same hs) (remove_handler-Same hs) (λ t b w. w)
      script r h f s v

perform_all_stops :
    (actions : List Action) (s : Ioloop)
    → contains_stop actions ≡ true
    → (perform_all actions s).keep_running ≡ false
unfolding perform_all perform stop
perform_all_stops [] s e = ground arith
perform_all_stops (stops errno ∷ actions) s e =
    perform_all_keeps (λ u. u.keep_running ≡ false) perform-halted actions (stop s errno).0 refl
perform_all_stops (a ∷ actions) s e = perform_all_stops actions (perform a s) e

run_handler_stops :
    (script : Script) (r : Round) (h : Handler) (s : Ioloop)
    → CallsStop script h
    → (run_handler script r h h.callback s).0.keep_running ≡ false
unfolding run_handler invoke
run_handler_stops script r h s (c, is_user, calls) = rw is_user (perform_all_stops _ _ (calls _))

-- A dispatch that has not thrown leaves keep_running_ 0.
abbrev pub HaltedOrThrown : Ioloop × Option Loop.Error → Type 0
HaltedOrThrown (u, none) = u.keep_running ≡ false
HaltedOrThrown (u, some e) = Unit {0}

abbrev pub IsFound : List Handler → ℕ → Type 0
IsFound hs fd = (h : Handler) × (find_handler fd hs ≡ some h)

pub found-has :
    (hs : List Handler) (fds : List ℕ)
    → All (IsFound hs) fds
    → All (λ fd. has_handle fd_of fd hs ≡ true) fds
found-has hs [] a = tt
found-has hs (fd ∷ fds) ((h, e), a) = (find_handler-has fd hs h e, found-has hs fds a)

module _ (script : Script) (r : Round) (hs : List Handler) where
  dispatch-halted :
      (fds : List ℕ) (s : Ioloop)
      → All (IsFound hs) fds
      → Same hs s.table
      → s.keep_running ≡ false
      → HaltedOrThrown (dispatch script r (map some fds) s)
  unfolding dispatch
  dispatch-halted [] s a same e = e
  dispatch-halted (fd ∷ fds) s a same e =
      let (h, found) = a.0 in
      let x = run_handler script r h h.callback s in
      rw (same.finds fd h found, dispatch)
        (continued HaltedOrThrown x (dispatch script r (map some fds)) (λ _ _. tt)
          (λ _.
            dispatch-halted fds x.0 a.1 (run_handler-Same hs script r h h.callback s same)
              (run_handler-halted script r h h.callback s e)))

  pub dispatch_stops :
      (before after : List ℕ) (fd : ℕ) (h : Handler) (s : Ioloop)
      → All (IsFound hs) before
      → All (IsFound hs) after
      → Same hs s.table
      → find_handler fd hs ≡ some h
      → CallsStop script h
      → HaltedOrThrown (dispatch script r (map some (before ++ fd ∷ after)) s)
  unfolding dispatch
  dispatch_stops [] after fd h s a b same found calls =
      let x = run_handler script r h h.callback s in
      rw (same.finds fd h found, dispatch)
        (continued HaltedOrThrown x (dispatch script r (map some after)) (λ _ _. tt)
          (λ _.
            dispatch-halted after x.0 b (run_handler-Same hs script r h h.callback s same)
              (run_handler_stops script r h s calls)))
  dispatch_stops (y ∷ ys) after fd h s a b same found calls =
      let (g, here) = a.0 in
      let x = run_handler script r g g.callback s in
      rw (same.finds y g here, dispatch)
        (continued HaltedOrThrown x (dispatch script r (map some (ys ++ fd ∷ after))) (λ _ _. tt)
          (λ _.
            dispatch_stops ys after fd h x.0 a.1 b
              (run_handler-Same hs script r g g.callback s same) found calls))
