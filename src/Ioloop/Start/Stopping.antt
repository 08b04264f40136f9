-- ===== src/Ioloop/Start/Stopping.antt =====
-- How stop ends start from a handler (src/ioloop.cpp): the callback of an event that is dispatched calls
-- it.
use mathlib.Core.Path.{subst}
use liblinuxpp.Prelude.{
  ℕ, ◌≡◌, refl, sym, inl, inr, Bool, true, false, List, [], ◌∷◌, ◌++◌, Option, some, All,
  Option-cases, map, none, All-append,
}
use liblinuxpp.Ioloop.State.{Handler}
use liblinuxpp.Ioloop.Handlers
use liblinuxpp.Ioloop.Handlers.{fd_of, epoll_del}
use liblinuxpp.Ioloop.Entries.{has_handle}
use liblinuxpp.Ioloop.Start.Dispatch.{dispatch_sound}
use liblinuxpp.Ioloop.Loop
use liblinuxpp.Ioloop.Loop.{
  Ioloop, Script, handled, Action, stops, stop, perform, perform_all, invoke,
}
use liblinuxpp.Ioloop.Start.{
  Round, ready, find_handler, dispatch, round, run_rounds, start, finish_round, dispatch_round,
  round_by, Progress, returned, waiting, failed_with, failed_in_handler, undefined_behaviour,
  Outcome, next, threw, handler_threw, dangled, end_round,
}
use liblinuxpp.Ioloop.Start.Kept.{find_handler-has}
use liblinuxpp.Ioloop.Start.Halting.{CallsStop, IsFound, HaltedOrThrown, found-has, dispatch_stops}

-- start is over: it has returned, or thrown.
abbrev pub is_over : Progress → Bool
is_over (returned s) = true
is_over (waiting s) = false
is_over (failed_with e s) = true
is_over (failed_in_handler e s) = true
is_over (undefined_behaviour s) = false

abbrev pub IsHalted : Outcome → Type 0
IsHalted (next u es) = u.keep_running ≡ false
IsHalted (threw e u) = Unit {0}
IsHalted (handler_threw e u) = Unit {0}
IsHalted (dangled u) = ⊥

finish_round-IsHalted :
    (fds : List ℕ) (r : Round) (es : List (Option ℕ)) (s : Ioloop)
    → s.keep_running ≡ false
    → IsHalted (finish_round fds r es s)
unfolding finish_round
finish_round-IsHalted [] r es s e = e
finish_round-IsHalted (fd ∷ fds) r es s e =
    elim (Option-cases (Handlers.prune r.answer s.table).1) [
      | inl ok ↦ rw (ok, finish_round) e
      | inr (x, thrown) ↦ rw (thrown, finish_round) tt
    ]

end_round-IsHalted :
    (dangles : Bool) (x : Ioloop × Option Loop.Error) (r : Round) (es : List (Option ℕ))
    → dangles ≡ false
    → HaltedOrThrown x
    → IsHalted (
        end_round dangles x.1 r es
          (record (x.0) { table = record (x.0.table) { processing = false } }))
unfolding end_round
end_round-IsHalted true x r es d e = cc
end_round-IsHalted false (u, some y) r es d e = tt
end_round-IsHalted false (u, none) r es d e =
    finish_round-IsHalted u.table.removed_handlers r es _ e

halted_over :
    (script : Script) (rs : List Round) (es : List (Option ℕ)) (s : Ioloop)
    → s.keep_running ≡ false
    → is_over (run_rounds script rs es s) ≡ true
halted_over script [] es s e = rw e refl
halted_over script (r ∷ rs) es s e = rw e refl

outcome_over :
    (more : List (Option ℕ) → Ioloop → Progress) (o : Outcome)
    → IsHalted o
    → ((es : List (Option ℕ)) (u : Ioloop) → u.keep_running ≡ false → is_over (more es u) ≡ true)
    → is_over (elim o [
      | next u es ↦ more es u
      | threw e u ↦ failed_with e u
      | handler_threw e u ↦ failed_in_handler e u
      | dangled u ↦ undefined_behaviour u
    ])
      ≡ true
outcome_over more (next u es) e over = over es u e
outcome_over more (threw e u) _ over = refl
outcome_over more (handler_threw e u) _ over = refl
outcome_over more (dangled u) e over = absurd e

module _ (script : Script) (r : Round) (es : List (Option ℕ)) (before after : List ℕ) (fd : ℕ)
    (h : Handler) where
  round_by-IsHalted :
      (s : Ioloop)
      → All (IsFound s.table.handlers) before
      → All (IsFound s.table.handlers) after
      → find_handler fd s.table.handlers ≡ some h
      → CallsStop script h
      → s.dangling ≡ false
      → IsHalted (round_by (ready (before ++ fd ∷ after)) script r es s)
  unfolding round_by dispatch_round
  round_by-IsHalted s a b found calls sound =
      let begun = record s { table = record (s.table) { processing = true } } in
      end_round-IsHalted _ (dispatch script r (map some (before ++ fd ∷ after)) begun) r _
        (dispatch_sound script r (before ++ fd ∷ after) begun refl sound (
          All-append (λ x. has_handle fd_of x s.table.handlers ≡ true) before (fd ∷ after)
            (found-has s.table.handlers before a)
            (find_handler-has fd s.table.handlers h found, found-has s.table.handlers after b))).0
        (dispatch_stops script r s.table.handlers before after fd h begun a b
          (record { busy = refl; finds = λ k g e. e }) found calls)

  -- If no dangling pointer has been followed before, the first wait of start reports events whose
  -- handlers are all in the map, and the callback of one of them calls stop whatever else it does,
  -- then start is over after that round: it has returned, or has thrown, whatever the other
  -- handlers do and whatever the later rounds would be.
  pub start_stops :
      (s : Ioloop) (rs : List Round)
      → r.wait ≡ ready (before ++ fd ∷ after)
      → All (IsFound s.table.handlers) before
      → All (IsFound s.table.handlers) after
      → find_handler fd s.table.handlers ≡ some h
      → CallsStop script h
      → s.dangling ≡ false
      → is_over (start script (r ∷ rs) es s) ≡ true
  unfolding start round
  start_stops s rs waited a b found calls sound =
      outcome_over (λ fs u. run_rounds script rs fs u) _
        (subst (λ w. IsHalted (round_by w script r es (record s { keep_running = true })))
          (sym waited) (round_by-IsHalted (record s { keep_running = true }) a b found calls sound))
        (λ fs u e. halted_over script rs fs u e)
