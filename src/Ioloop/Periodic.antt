-- ===== src/Ioloop/Periodic.antt =====
-- Periodic timeouts (include/liblinuxpp/ioloop.hpp, src/ioloop.cpp): add_periodic_timeout,
-- insert_periodic_timeout, the overload of remove_timeout, and the end of
-- process_periodic_timeouts. `now` is what std::chrono::steady_clock::now() returns in the call.
pub mod Order
use liblinuxpp.Prelude.{
  ℕ, ◌+◌, Bool, true, false, not, List, [], ◌∷◌, ◌++◌, ◌||◌, Option, none, some, ltb, ◌==◌,
  if◌then◌else◌, filter,
}
use liblinuxpp.Prelude.Sorted.{insert}
use liblinuxpp.Ioloop.Entries.{has_handle, erase, mark, insert_all, rearm}
use liblinuxpp.Ioloop.State.{PeriodicCallback, Periodics, next_handle}

-- The key by which `operator <` compares periodic_timeout_callback objects.
abbrev pub due : PeriodicCallback → ℕ
due t = t.timeout

abbrev pub id_of : PeriodicCallback → ℕ
id_of t = t.handle

-- `it->remove = true`: the entry is dropped when the round ends.
abbrev pub marked : PeriodicCallback → PeriodicCallback
marked t = record t { remove = true }

-- The constructor of periodic_timeout_callback, at the next handle.
abbrev pub make : Periodics → ℕ → ℕ → ℕ → PeriodicCallback
make q period timeout callback = record {
  handle = q.next_id;
  period = period;
  timeout = timeout;
  callback = callback;
  remove = false;
  processed = false;
}

-- periodic_timeout_callback::reset.
abbrev pub reset : ℕ → PeriodicCallback → PeriodicCallback
reset now t = record t { timeout = now + t.period; processed = false }

-- periodic_timeout_callback::invoke, less the call itself.
abbrev pub invoked : PeriodicCallback → PeriodicCallback
invoked t = record t { processed = true }

-- insert_periodic_timeout.
abbrev pub insert_periodic_timeout : Periodics → ℕ → ℕ → ℕ → Periodics × ℕ
insert_periodic_timeout q now period callback = (
  record q {
    periodic_timeouts = insert due (make q period (now + period) callback) q.periodic_timeouts;
    next_id = next_handle q.next_id;
  },
  q.next_id,
)

-- The timer after an insertion: set anew if the front is earlier than it was.
abbrev pub rearm_earlier : ℕ → List PeriodicCallback → Option ℕ → Option ℕ
rearm_earlier earliest [] armed = armed
rearm_earlier earliest (t ∷ ts) armed = if ltb t.timeout earliest then some t.timeout else armed

-- `pending_periodic_timeout_additions_.front().handle`; the front of an empty vector is undefined.
abbrev pub front_handle : List PeriodicCallback → Option ℕ
front_handle [] = none
front_handle (t ∷ ts) = some t.handle

abbrev pub is_undefined : Option ℕ → Bool
is_undefined none = true
is_undefined (some h) = false

-- add_periodic_timeout by what the vector holds.
add_idle : List PeriodicCallback → Periodics → ℕ → ℕ → ℕ → Periodics × Option ℕ
add_idle [] q now period callback =
    let handle = front_handle q.pending_additions in
    (
      record q {
        periodic_timeouts = make q period (now + period) callback ∷ [];
        timerfd = some (now + period);
        next_id = next_handle q.next_id;
        undefined = is_undefined handle || q.undefined;
      },
      handle,
    )
add_idle (front ∷ _) q now period callback =
    let (r, handle) = insert_periodic_timeout q now period callback in
    (record r { timerfd = rearm_earlier front.timeout r.periodic_timeouts r.timerfd }, some handle)

-- ioloop::add_periodic_timeout. The handle is `none` where the code reads it from nowhere.
unfoldable pub add_periodic_timeout : Periodics → ℕ → ℕ → ℕ → Periodics × Option ℕ
unfolding add_idle
add_periodic_timeout q now period callback =
    if q.processing
    then (
      record q {
        pending_additions = q.pending_additions ++ make q period (now + period) callback ∷ [];
        next_id = next_handle q.next_id;
      },
      some q.next_id,
    )
    else add_idle q.periodic_timeouts q now period callback

-- ioloop::remove_timeout(periodic_timeout_handle). In its second loop the code erases from
-- periodic_timeouts_ at an iterator of the other vector, which C++ leaves undefined.
unfoldable pub remove_periodic_timeout : Periodics → ℕ → Periodics
remove_periodic_timeout q h =
    if has_handle id_of h q.periodic_timeouts
    then (if q.processing
        then record q { periodic_timeouts = mark id_of marked h q.periodic_timeouts }
        else record q { periodic_timeouts = erase id_of h q.periodic_timeouts })
    else (if has_handle id_of h q.pending_additions then record q { undefined = true } else q)

abbrev pub kept : PeriodicCallback → Bool
kept t = not t.remove

-- "Reset timeout values": the entries up to the first that was not processed.
abbrev pub reset_processed : ℕ → List PeriodicCallback → List PeriodicCallback
reset_processed now [] = []
reset_processed now (t ∷ ts) = elim t.processed [
  | true ↦ reset now t ∷ reset_processed now ts
  | false ↦ t ∷ ts
]

-- std::sort by `operator <` (equal keys may stand in any order; here they keep theirs).
abbrev pub sort : List PeriodicCallback → List PeriodicCallback
sort [] = []
sort (t ∷ ts) = insert due t (sort ts)

-- process_periodic_timeouts after its loop.
unfoldable pub finish_processing : ℕ → Periodics → Periodics
finish_processing now q =
    let rest = reset_processed now (filter kept q.periodic_timeouts) in
    let merged = insert_all due q.pending_additions (sort rest) in
    record q {
      periodic_timeouts = merged;
      processing = false;
      pending_additions = [];
      timerfd = rearm due merged q.timerfd;
    }
