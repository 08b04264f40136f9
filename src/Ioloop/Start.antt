-- ===== src/Ioloop/Start.antt =====
-- ioloop::start and the constructor (src/ioloop.cpp): waiting for events, dispatching them to their
-- handlers, and pruning the handlers that were removed meanwhile.
pub mod Dispatch
pub mod Steady
pub mod Kept
pub mod Halting
pub mod Stopping
pub mod Rounds
use liblinuxpp.Prelude.{
  ℕ, zero, suc, ◌+◌, ◌≡◌, refl, Bool, true, false, List, [], ◌∷◌, Option, none, some, map, ◌==◌,
  if◌then◌else◌,
}
use liblinuxpp.Ioloop.State.{
  Handler, HandlerFunction, user, callbacks_function, stop_function, timeouts_function,
  periodic_function, Handlers, Timeouts, Periodics,
}
use liblinuxpp.Ioloop.Handlers
use liblinuxpp.Ioloop.Handlers.{fd_of}
use liblinuxpp.Ioloop.Loop
use liblinuxpp.Ioloop.Loop.{
  Ioloop, Script, Invocation, handled, invoke, process_timeouts, process_periodic_timeouts,
  process_callbacks, process_stop,
}

abbrev pub eintr : ℕ
eintr = 4

-- What epoll_wait answers: the `data.ptr` of the events, each by the descriptor of the handler that
-- it points to, or an errno value.
pub data Wait : Type 0 where
  ready : List ℕ → Wait
  failed : ℕ → Wait

-- What the clock and the kernel answer in one round of the loop.
pub record Round : Type 0 where
  pub wait : Wait
  pub now : ℕ
  pub periodic_now : ℕ
  pub reset_now : ℕ
  pub answer : ℕ → ℕ

abbrev pub find_handler : ℕ → List Handler → Option Handler
find_handler fd [] = none
find_handler fd (h ∷ hs) = if h.fd == fd then some h else find_handler fd hs

-- `handler->second.callback(handler->first, handler->second.events)`.
unfoldable pub run_handler :
    Script → Round → Handler → HandlerFunction → Ioloop → Ioloop × Option Loop.Error
run_handler script r h (user c) s = (invoke script (handled c h.fd h.events) s, none)
run_handler script r h callbacks_function s = process_callbacks script s
run_handler script r h stop_function s = (process_stop s, none)
run_handler script r h timeouts_function s = (process_timeouts script r.now s, none)
run_handler script r h periodic_function s =
    (process_periodic_timeouts script r.periodic_now r.reset_now s, none)

-- The loop over epoll_events_, which an exception leaves. Following a null pointer, or one to a handler
-- that is no longer in the map, is undefined: the model marks the state and stops.
unfoldable pub dispatch : Script → Round → List (Option ℕ) → Ioloop → Ioloop × Option Loop.Error
dispatch script r [] s = (s, none)
dispatch script r (none ∷ es) s = (record s { dangling = true }, none)
dispatch script r (some fd ∷ es) s = elim (find_handler fd s.table.handlers) [
  | none ↦ (record s { dangling = true }, none)
  | some h ↦
      let (u, thrown) = run_handler script r h h.callback s in
      elim thrown [ none ↦ dispatch script r es u | some e ↦ (u, some e) ]
]

-- What holds of a handler that throws, and of the rest where it does not, holds of both.
pub continued {ℓ} :
    (Q : Ioloop × Option Loop.Error → Type ℓ) (x : Ioloop × Option Loop.Error)
    (more : Ioloop → Ioloop × Option Loop.Error)
    → ((e : Loop.Error) → x.1 ≡ some e → Q (x.0, some e))
    → (x.1 ≡ none → Q (more x.0))
    → Q (elim x.1 [ none ↦ more x.0 | some e ↦ (x.0, some e) ])
continued Q (u, none) more thrown rest = rest refl
continued Q (u, some e) more thrown rest = thrown e refl

-- `events.resize(n)`: the elements that are added are null.
abbrev pub resize : ℕ → List (Option ℕ) → List (Option ℕ)
resize zero es = []
resize (suc n) [] = none ∷ resize n []
resize (suc n) (e ∷ es) = e ∷ resize n es

-- What a round of start leads to: the next round, an exception of the pruning or of a handler, or, where
-- a pointer dangled, nothing that is defined.
pub data Outcome : Type 0 where
  next : Ioloop → List (Option ℕ) → Outcome
  threw : Handlers.Error → Ioloop → Outcome
  handler_threw : Loop.Error → Ioloop → Outcome
  dangled : Ioloop → Outcome

-- The pruning at the end of a round, by what removed_handlers_ holds.
finish_round : List ℕ → Round → List (Option ℕ) → Ioloop → Outcome
finish_round [] r es s = next s es
finish_round (fd ∷ fds) r es s =
    let (table, thrown) = Handlers.prune r.answer s.table in
    elim thrown [
      | none ↦ next (record s { table = table }) es
      | some e ↦ threw e (record s { table = table })
    ]

-- The round after its dispatch, by whether a pointer dangled and what was thrown.
end_round : Bool → Option Loop.Error → Round → List (Option ℕ) → Ioloop → Outcome
unfolding finish_round
end_round true thrown r es s = dangled s
end_round false (some e) r es s = handler_threw e s
end_round false none r es s = finish_round s.table.removed_handlers r es s

-- A round from its dispatch on. The sentry resets the flag also where a handler throws.
dispatch_round : Script → Round → List (Option ℕ) → Ioloop → Outcome
unfolding end_round
dispatch_round script r es s =
    let begun = record s { table = record (s.table) { processing = true } } in
    let (after, thrown) = dispatch script r es begun in
    let settled = record after { table = record (after.table) { processing = false } } in
    end_round settled.dangling thrown r es settled

-- One round of `while (keep_running_)`; `es` is epoll_events_, which a failed wait leaves as it was,
-- resized.
round_by : Wait → Script → Round → List (Option ℕ) → Ioloop → Outcome
unfolding dispatch_round
round_by (ready fds) script r es s = dispatch_round script r (map some fds) s
round_by (failed errno) script r es s =
    let stale = resize s.table.size_events es in
    let rest = dispatch_round script r stale s in if errno == eintr then next s stale else rest

unfoldable pub round : Script → Round → List (Option ℕ) → Ioloop → Outcome
unfolding round_by
round script r es s = round_by r.wait script r es s

-- Where start stands after the rounds that have been seen.
pub data Progress : Type 0 where
  returned : Ioloop → Progress
  waiting : Ioloop → Progress
  failed_with : Handlers.Error → Ioloop → Progress
  failed_in_handler : Loop.Error → Ioloop → Progress
  undefined_behaviour : Ioloop → Progress

abbrev pub run_rounds : Script → List Round → List (Option ℕ) → Ioloop → Progress
run_rounds script [] es s = if s.keep_running then waiting s else returned s
run_rounds script (r ∷ rs) es s = elim s.keep_running [
  | false ↦ returned s
  | true ↦ elim (round script r es s) [
    | next u fs ↦ run_rounds script rs fs u
    | threw e u ↦ failed_with e u
    | handler_threw e u ↦ failed_in_handler e u
    | dangled u ↦ undefined_behaviour u
  ]
]

-- ioloop::start, with what epoll_events_ holds.
unfoldable pub start : Script → List Round → List (Option ℕ) → Ioloop → Progress
start script rounds es s = run_rounds script rounds es (record s { keep_running = true })

-- The descriptors that the constructor's members open, and what epoll_ctl answers for each.
pub record Descriptors : Type 0 where
  pub callbacks_fd : ℕ
  pub stop_fd : ℕ
  pub timeout_fd : ℕ
  pub periodic_fd : ℕ
  pub answer : ℕ → ℕ

abbrev pub no_timeouts : Timeouts
no_timeouts = record {
  timeouts = [];
  processing = false;
  pending_additions = [];
  timerfd = none;
  next_id = 0;
}

abbrev pub no_periodics : Periodics
no_periodics = record {
  periodic_timeouts = [];
  processing = false;
  pending_additions = [];
  timerfd = none;
  next_id = 0;
  undefined = false;
}

abbrev pub no_handlers : Handlers
no_handlers = record { handlers = []; processing = false; removed_handlers = []; size_events = 0 }

-- add_handler once more, unless an earlier call has thrown.
abbrev pub and_add :
    Handlers × Option Handlers.Error → Handler → ℕ → Handlers × Option Handlers.Error
and_add (t, some e) h errno = (t, some e)
and_add (t, none) h errno = Handlers.add_handler t h errno

abbrev pub internal : ℕ → HandlerFunction → Handler
internal fd f = record { fd = fd; events = 1; callback = f }

-- ioloop::ioloop: the members, and a read handler for each of the four internal descriptors.
unfoldable pub construct : Descriptors → Ioloop × Option Handlers.Error
construct d =
    let (table, thrown) =
      and_add
        (and_add
          (and_add
            (and_add (no_handlers, none) (internal d.callbacks_fd callbacks_function) (d.answer 0))
            (internal d.stop_fd stop_function) (d.answer 1))
          (internal d.timeout_fd timeouts_function) (d.answer 2))
        (internal d.periodic_fd periodic_function) (d.answer 3) in
    (
      record {
        one = no_timeouts;
        periodic = no_periodics;
        table = table;
        new_callbacks = [];
        callbacks_eventfd = 0;
        stop_eventfd = 0;
        keep_running = true;
        dangling = false;
        calls = [];
      },
      thrown,
    )
