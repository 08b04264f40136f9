-- ===== src/Examples/Loop.antt =====
-- Examples of rounds of the event loop (src/ioloop.cpp).
use liblinuxpp.Prelude.{
  ℕ, ◌≡◌, ◌≢◌, none, refl, true, false, [], ◌∷◌, some, map, arith, ◌==◌, if◌then◌else◌, ◌&&◌, not,
}
use liblinuxpp.Ioloop.Entries.{has_handle}
use liblinuxpp.Ioloop.State.{TimeoutCallback, Timeouts, Periodics, Handler, Handlers, user}
use liblinuxpp.Ioloop.Timeouts
use liblinuxpp.Ioloop.Periodic
use liblinuxpp.Ioloop.Handlers
use liblinuxpp.Ioloop.Handlers.{fd_of}
use liblinuxpp.Ioloop.Handlers.Laws.{contains, prune_ok}
use liblinuxpp.Ioloop.Loop.{
  Ioloop, Script, called, handled, adds_timeout, removes_timeout, adds_periodic, removes_periodic,
  removes_handler, adds_callback, stops, process_timeouts, process_callbacks, invoke, perform_all,
  perform, add_callback, eventfd_read_failed, eagain,
}
use liblinuxpp.Ioloop.Loop.TimeoutRound.{Round, process_timeouts_fires}
use liblinuxpp.Ioloop.Loop.SparingRound.{Spares, process_timeouts_sparing}
use liblinuxpp.Ioloop.Loop.CallbackRound.{added_in, process_callbacks_lem}
use liblinuxpp.Ioloop.Start
use liblinuxpp.Ioloop.Start.{Descriptors, construct, start, dispatch, ready, failed, eintr}
use liblinuxpp.Ioloop.Start.Dispatch.{dispatch_sound}
use liblinuxpp.Ioloop.Start.Stopping.{is_over, start_stops}
use liblinuxpp.Ioloop.Start.Rounds.{Reached, construct-Settled, start-Reached}

abbrev descriptors : Descriptors
descriptors = record {
  callbacks_fd = 4;
  stop_fd = 5;
  timeout_fd = 6;
  periodic_fd = 7;
  answer = λ i. 0;
}

abbrev fresh_loop : Ioloop
unfolding construct
fresh_loop = (construct descriptors).0

-- Callback 1 adds a timeout and removes a handler; callback 2 adds itself and stops the loop; a handler
-- removes itself and a timeout.
abbrev busy_script : Script
busy_script (called c) s =
    if c == 1
    then adds_timeout 30 3 ∷ removes_handler 9 0 ∷ adds_periodic 20 5 4 ∷ []
    else adds_callback 2 0 ∷ stops 0 ∷ removes_periodic 0 ∷ []
busy_script (handled c fd events) s = removes_handler fd 0 ∷ removes_timeout 1 ∷ []

-- Callbacks that only hand over other callbacks.
abbrev calm_script : Script
calm_script c s = adds_callback 2 0 ∷ []

abbrev entry : ℕ → ℕ → ℕ → TimeoutCallback
entry h due callback = record { handle = h; timeout = due; callback = callback; remove = false }

abbrev two_timeouts : Timeouts
two_timeouts = record {
  timeouts = entry 0 10 1 ∷ entry 1 20 2 ∷ [];
  processing = false;
  pending_additions = [];
  timerfd = some 10;
  next_id = 2;
}

two_timeouts-Inv : Timeouts.Order.Inv two_timeouts
two_timeouts-Inv = record {
  sorted = ((omega arith, tt), (tt, tt));
  armed = λ e. omega arith;
  settled = λ e. refl;
}

abbrev one_periodic : Periodics
one_periodic = record {
  periodic_timeouts =
      record {
        handle = 0;
        period = 5;
        timeout = 12;
        callback = 1;
        remove = false;
        processed = false;
      }
      ∷ [];
  processing = false;
  pending_additions = [];
  timerfd = some 12;
  next_id = 1;
  undefined = false;
}

one_periodic-Inv : Periodic.Order.Inv one_periodic
one_periodic-Inv = record { sorted = (tt, tt); armed = λ e. omega arith; settled = λ e. refl }

abbrev guest : ℕ → Handler
guest fd = record { fd = fd; events = 1; callback = user fd }

abbrev three_handlers : Handlers
three_handlers = record {
  handlers = guest 8 ∷ guest 9 ∷ guest 10 ∷ [];
  processing = true;
  removed_handlers = 9 ∷ [];
  size_events = 3;
}

abbrev running_loop : Ioloop
running_loop = record {
  one = two_timeouts;
  periodic = one_periodic;
  table = three_handlers;
  new_callbacks = 1 ∷ 2 ∷ [];
  callbacks_eventfd = 2;
  stop_eventfd = 0;
  keep_running = true;
  dangling = false;
  calls = [];
}

abbrev events_round : Start.Round
events_round = record {
  wait = ready (6 ∷ 7 ∷ []);
  now = 15;
  periodic_now = 16;
  reset_now = 17;
  answer = λ i. 0;
}

abbrev interrupted_round : Start.Round
interrupted_round = record events_round { wait = failed eintr }

start-Reached_example :
    Reached (start busy_script (events_round ∷ interrupted_round ∷ []) [] fresh_loop)
unfolding construct
start-Reached_example =
    start-Reached busy_script (events_round ∷ interrupted_round ∷ []) [] fresh_loop
      (construct-Settled descriptors)

dispatch_sound_example :
    ((dispatch busy_script events_round (map some (9 ∷ 8 ∷ [])) running_loop).0.dangling ≡ false)
    × ((fd : ℕ)
        → has_handle fd_of fd (guest 8 ∷ guest 9 ∷ guest 10 ∷ []) ≡ true
        → has_handle fd_of fd
            (dispatch busy_script events_round
              (map some (9 ∷ 8 ∷ []))
              running_loop).0.table.handlers
          ≡ true)
dispatch_sound_example =
    dispatch_sound busy_script events_round (9 ∷ 8 ∷ []) running_loop refl refl (refl, (refl, tt))

calm_script-Spares : Spares calm_script
unfolding invoke perform_all perform add_callback
calm_script-Spares c s = refl

process_timeouts_sparing_example :
    ((process_timeouts calm_script 15 running_loop).calls ≡ called 1 ∷ [])
    × ((process_timeouts calm_script 15 running_loop).one.timeouts ≡ [])
process_timeouts_sparing_example =
    process_timeouts_sparing calm_script calm_script-Spares 15 running_loop two_timeouts-Inv.sorted
      (refl, (refl, tt)) refl

process_timeouts_fires_example :
    Round 15 ((10, 1) ∷ (20, 2) ∷ []) running_loop (process_timeouts busy_script 15 running_loop)
process_timeouts_fires_example = process_timeouts_fires busy_script 15 running_loop

process_callbacks_lem_example :
    let (u, thrown) = process_callbacks busy_script running_loop in
    let begun = record running_loop { callbacks_eventfd = 0; new_callbacks = [] } in
    (running_loop.callbacks_eventfd ≡ 0
      → (u ≡ running_loop) × (thrown ≡ some (eventfd_read_failed eagain)))
    × (running_loop.callbacks_eventfd ≢ 0
        → (thrown ≡ none)
          × (u.calls ≡ called 1 ∷ called 2 ∷ [])
          × (u.new_callbacks ≡ added_in busy_script (1 ∷ 2 ∷ []) begun))
process_callbacks_lem_example = process_callbacks_lem busy_script running_loop

prune_ok_example :
    ((Handlers.prune (λ i. 0) three_handlers).0.removed_handlers ≡ [])
    × (has_handle fd_of 9 (Handlers.prune (λ i. 0) three_handlers).0.handlers ≡ (
        has_handle fd_of 9 three_handlers.handlers
        && not (contains 9 three_handlers.removed_handlers)))
unfolding Handlers.prune
prune_ok_example = prune_ok (λ i. 0) three_handlers 9 (refl, (refl, (refl, tt))) refl

-- The handler of descriptor 9 stops the loop.
abbrev stopping_script : Script
stopping_script c s = adds_callback 1 0 ∷ stops 0 ∷ []

abbrev guests_round : Start.Round
guests_round = record events_round { wait = ready (8 ∷ 9 ∷ 10 ∷ []) }

start_stops_example :
    is_over (start stopping_script (guests_round ∷ events_round ∷ []) [] running_loop) ≡ true
start_stops_example =
    start_stops stopping_script guests_round [] (8 ∷ []) (10 ∷ []) 9 (guest 9) running_loop
      (events_round ∷ []) refl ((guest 8, refl), tt) ((guest 10, refl), tt) refl
      (9, refl, λ s. refl) refl
