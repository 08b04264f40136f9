-- ===== src/Ioloop/Timeouts.antt =====
-- One-shot timeouts (src/ioloop.cpp): add_timeout, insert_timeout, remove_timeout, and the end of
-- process_timeouts, which removes what has run and merges what the callbacks added.
pub mod Order
use liblinuxpp.Prelude.{
  ℕ, suc, Bool, true, false, not, List, [], ◌∷◌, ◌++◌, ◌||◌, Option, none, some, ltb, ◌==◌,
  if◌then◌else◌, drop, filter,
}
use liblinuxpp.Prelude.Sorted.{insert}
use liblinuxpp.Ioloop.Entries.{has_handle, erase, mark, insert_all, rearm}
use liblinuxpp.Ioloop.State.{TimeoutCallback, Timeouts, next_handle}

-- The key by which `operator <` compares timeout_callback objects.
abbrev pub due : TimeoutCallback → ℕ
due t = t.timeout

abbrev pub id_of : TimeoutCallback → ℕ
id_of t = t.handle

-- `it->remove = true`: the entry is dropped when the round ends.
abbrev pub marked : TimeoutCallback → TimeoutCallback
marked t = record t { remove = true }

-- The timeout_callback that a constructor call makes from the next handle.
abbrev pub make : Timeouts → ℕ → ℕ → TimeoutCallback
make q timeout callback = record {
  handle = q.next_id;
  timeout = timeout;
  callback = callback;
  remove = false;
}

-- insert_timeout: emplace at the lower bound.
abbrev pub insert_timeout : Timeouts → ℕ → ℕ → Timeouts × ℕ
insert_timeout q timeout callback = (
  record q {
    timeouts = insert due (make q timeout callback) q.timeouts;
    next_id = next_handle q.next_id;
  },
  q.next_id,
)

-- The branch of add_timeout for timeouts that exist already: re-arm if the new one is earlier.
abbrev pub add_among : Timeouts → TimeoutCallback → ℕ → ℕ → Timeouts × ℕ
add_among q front timeout callback =
    let (r, handle) = insert_timeout q timeout callback in
    (if ltb timeout front.timeout then record r { timerfd = some timeout } else r, handle)

-- add_timeout by what the vector holds.
add_idle : List TimeoutCallback → Timeouts → ℕ → ℕ → Timeouts × ℕ
add_idle [] q timeout callback = (
  record q {
    timeouts = make q timeout callback ∷ [];
    timerfd = some timeout;
    next_id = next_handle q.next_id;
  },
  q.next_id,
)
add_idle (front ∷ _) q timeout callback = add_among q front timeout callback

-- ioloop::add_timeout: while timeouts are processed the new one is only noted.
unfoldable pub add_timeout : Timeouts → ℕ → ℕ → Timeouts × ℕ
unfolding add_idle
add_timeout q timeout callback =
    if q.processing
    then (
      record q {
        pending_additions = q.pending_additions ++ make q timeout callback ∷ [];
        next_id = next_handle q.next_id;
      },
      q.next_id,
    )
    else add_idle q.timeouts q timeout callback

-- The searches of remove_timeout: is there an entry with the handle, and the vector with the first
-- such entry erased or marked.
-- ioloop::remove_timeout(timeout_handle).
unfoldable pub remove_timeout : Timeouts → ℕ → Timeouts
remove_timeout q h =
    if has_handle id_of h q.timeouts
    then (if q.processing
        then record q { timeouts = mark id_of marked h q.timeouts }
        else record q { timeouts = erase id_of h q.timeouts })
    else record q { pending_additions = erase id_of h q.pending_additions }

-- The loop over pending_timeout_additions_ at the end of process_timeouts.
abbrev pub kept : TimeoutCallback → Bool
kept t = not t.remove

-- Re-arming the timer at the earliest timeout, if there is one.
-- process_timeouts after its loop, whose iterator stopped at `i`.
unfoldable pub finish_processing : ℕ → Timeouts → Timeouts
finish_processing i q =
    let rest = filter kept (drop i q.timeouts) in
    let merged = insert_all due q.pending_additions rest in
    record q {
      timeouts = merged;
      processing = false;
      pending_additions = [];
      timerfd = rearm due merged q.timerfd;
    }
