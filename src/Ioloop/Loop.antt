-- ===== src/Ioloop/Loop.antt =====
-- ioloop as a whole (include/liblinuxpp/ioloop.hpp, src/ioloop.cpp): the members that are left, the
-- public operations as a callback may call them, and the processing of timeouts, callbacks and
-- handlers.
pub mod Perform
pub mod CallbackRound
pub mod PeriodicRound
pub mod SparingRound
pub mod TimeoutRound
use liblinuxpp.Prelude.{
  ℕ, zero, suc, ◌+◌, Bool, true, false, List, [], ◌∷◌, ◌++◌, Option, none, some, leb, ◌==◌,
  if◌then◌else◌, get_elem?, length,
}
use liblinuxpp.Ioloop.State.{
  TimeoutCallback, Timeouts, PeriodicCallback, Periodics, Handler, Handlers,
}
use liblinuxpp.Ioloop.Timeouts
use liblinuxpp.Ioloop.Periodic
use liblinuxpp.Ioloop.Handlers

-- What was invoked: a callback by its name; a handler with the descriptor and the mask it is given.
pub data Invocation : Type 0 where
  called : ℕ → Invocation
  handled : ℕ → ℕ → ℕ → Invocation

-- `calls` records the invocations; the two eventfd members are the counters of the descriptors.
pub record Ioloop : Type 0 where
  pub one : Timeouts
  pub periodic : Periodics
  pub table : Handlers
  pub new_callbacks : List ℕ
  pub callbacks_eventfd : ℕ
  pub stop_eventfd : ℕ
  pub keep_running : Bool
  pub dangling : Bool
  pub calls : List Invocation

-- The calls that a callback may make on the loop that runs it, with what the clock and the kernel
-- answer to each.
pub data Action : Type 0 where
  adds_timeout : ℕ → ℕ → Action
  removes_timeout : ℕ → Action
  adds_periodic : ℕ → ℕ → ℕ → Action
  removes_periodic : ℕ → Action
  adds_handler : Handler → ℕ → Action
  removes_handler : ℕ → ℕ → Action
  adds_callback : ℕ → ℕ → Action
  stops : ℕ → Action

abbrev pub eagain : ℕ
eagain = 11

-- The exceptions of the reads and writes of the eventfds.
pub data Error : Type 0 where
  eventfd_write_failed : ℕ → Error
  eventfd_read_failed : ℕ → Error

-- ioloop::add_callback; `errno` is the answer to the write of the eventfd.
unfoldable pub add_callback : Ioloop → ℕ → ℕ → Ioloop × Option Error
add_callback s callback errno =
    let pushed = record s { new_callbacks = s.new_callbacks ++ callback ∷ [] } in
    if errno == 0
    then (record pushed { callbacks_eventfd = s.callbacks_eventfd + 1 }, none)
    else (if errno == eagain then (pushed, none) else (pushed, some (eventfd_write_failed errno)))

-- ioloop::stop; `errno` is the answer to the write of the eventfd.
unfoldable pub stop : Ioloop → ℕ → Ioloop × Option Error
stop s errno = (
  record s {
    keep_running = false;
    stop_eventfd = if errno == 0 then s.stop_eventfd + 1 else s.stop_eventfd;
  },
  if errno == 0 then none else some (eventfd_write_failed errno),
)

unfoldable pub perform : Action → Ioloop → Ioloop
perform (adds_timeout timeout callback) s = record s {
  one = (Timeouts.add_timeout s.one timeout callback).0;
}
perform (removes_timeout h) s = record s { one = Timeouts.remove_timeout s.one h }
perform (adds_periodic now period callback) s = record s {
  periodic = (Periodic.add_periodic_timeout s.periodic now period callback).0;
}
perform (removes_periodic h) s = record s {
  periodic = Periodic.remove_periodic_timeout s.periodic h;
}
perform (adds_handler h errno) s = record s { table = (Handlers.add_handler s.table h errno).0 }
perform (removes_handler fd errno) s = record s {
  table = (Handlers.remove_handler s.table fd errno).0;
}
perform (adds_callback callback errno) s = (add_callback s callback errno).0
perform (stops errno) s = (stop s errno).0

unfoldable pub perform_all : List Action → Ioloop → Ioloop
perform_all [] s = s
perform_all (a ∷ actions) s = perform_all actions (perform a s)

-- What each callback does when it is invoked, which may depend on all that the loop holds.
abbrev pub Script : Type 0
Script = Invocation → Ioloop → List Action

unfoldable pub invoke : Script → Invocation → Ioloop → Ioloop
invoke script c s = perform_all (script c s) (record s { calls = s.calls ++ c ∷ [] })

-- What the loop of process_timeouts finds at its iterator: the end, an entry marked for removal, one
-- whose time has come (its callback), or one whose time has not.
pub data Found : Type 0 where
  ended : Found
  removed : Found
  expired : ℕ → Found
  later : Found

unfoldable pub look : ℕ → Option TimeoutCallback → Found
look now none = ended
look now (some t) =
    if t.remove then removed else (if leb t.timeout now then expired t.callback else later)

-- The loop of process_timeouts from index `i`, with at most as many rounds as there are entries: the
-- entries keep their places while the loop runs. The index that it stops at is the iterator, which
-- the code advances before it looks at the entry.
unfoldable pub run_expired : Script → ℕ → ℕ → ℕ → Ioloop → Ioloop × ℕ
run_expired script now zero i s = (s, i)
run_expired script now (suc n) i s = elim (look now (get_elem? s.one.timeouts i)) [
  | ended ↦ (s, i)
  | removed ↦ run_expired script now n (suc i) s
  | expired c ↦ run_expired script now n (suc i) (invoke script (called c) s)
  | later ↦ (s, suc i)
]

-- ioloop::process_timeouts. Reading the timer disarms it.
unfoldable pub process_timeouts : Script → ℕ → Ioloop → Ioloop
unfolding run_expired
process_timeouts script now s =
    let begun = record s { one = record (s.one) { timerfd = none; processing = true } } in
    let (after, i) = run_expired script now (length s.one.timeouts) 0 begun in
    record after { one = Timeouts.finish_processing i after.one }

abbrev pub set_processed : ℕ → List PeriodicCallback → List PeriodicCallback
set_processed i [] = []
set_processed zero (t ∷ ts) = Periodic.invoked t ∷ ts
set_processed (suc i) (t ∷ ts) = t ∷ set_processed i ts

unfoldable pub look_periodic : ℕ → Option PeriodicCallback → Found
look_periodic now none = ended
look_periodic now (some t) =
    if t.remove then removed else (if leb t.timeout now then expired t.callback else later)

-- `timeout.invoke()` on the entry at index `i`.
abbrev pub invoke_periodic : Script → ℕ → ℕ → Ioloop → Ioloop
invoke_periodic script i callback s = invoke script (called callback) (record s {
  periodic = record (s.periodic) {
    periodic_timeouts = set_processed i s.periodic.periodic_timeouts;
  };
})

-- The loop of process_periodic_timeouts from index `i`.
unfoldable pub run_periodic : Script → ℕ → ℕ → ℕ → Ioloop → Ioloop
run_periodic script now zero i s = s
run_periodic script now (suc n) i s =
    elim (look_periodic now (get_elem? s.periodic.periodic_timeouts i)) [
      | ended ↦ s
      | removed ↦ run_periodic script now n (suc i) s
      | expired c ↦ run_periodic script now n (suc i) (invoke_periodic script i c s)
      | later ↦ s
    ]

-- ioloop::process_periodic_timeouts, which reads the clock twice.
unfoldable pub process_periodic_timeouts : Script → ℕ → ℕ → Ioloop → Ioloop
unfolding run_periodic
process_periodic_timeouts script now reset_now s =
    let begun = record s { periodic = record (s.periodic) { timerfd = none; processing = true } } in
    let after = run_periodic script now (length s.periodic.periodic_timeouts) 0 begun in
    record after { periodic = Periodic.finish_processing reset_now after.periodic }

unfoldable pub invoke_all : Script → List ℕ → Ioloop → Ioloop
invoke_all script [] s = s
invoke_all script (c ∷ cs) s = invoke_all script cs (invoke script (called c) s)

-- ioloop::process_callbacks: the callbacks are moved out before they are called. The read of the
-- eventfd, which does not block, fails where nothing has been written.
unfoldable pub process_callbacks : Script → Ioloop → Ioloop × Option Error
process_callbacks script s =
    if s.callbacks_eventfd == 0 then (s, some (eventfd_read_failed eagain)) else (
      invoke_all script s.new_callbacks (record s { callbacks_eventfd = 0; new_callbacks = [] }),
      none,
    )

-- ioloop::process_stop, where stop has written the eventfd: its read waits until then.
unfoldable pub process_stop : Ioloop → Ioloop
process_stop s = record s { stop_eventfd = 0 }
