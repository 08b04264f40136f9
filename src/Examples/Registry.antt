-- ===== src/Examples/Registry.antt =====
-- The handlers of a loop over the epoll object and the kernel of Examples/Watch: one handler is added,
-- the second is refused by the kernel, and a removal during a dispatch is pruned.
use liblinuxpp.Prelude.{
  ℕ, zero, suc, ◌≡◌, ◌≢◌, refl, true, false, List, [], ◌∷◌, none, some, map, length, All, arith,
}
use liblinuxpp.Prelude.Int.{ℤ, pos, negsuc}
use liblinuxpp.Syscall.{is_good}
use liblinuxpp.Epoll
use liblinuxpp.Ioloop.Registry
use liblinuxpp.Epoll.{ptr, minus_one, ctl_del}
use liblinuxpp.Epoll.Interest.{has}
use liblinuxpp.Ioloop.State.{Handler, user}
use liblinuxpp.Ioloop.Handlers.{enoent}
use liblinuxpp.Ioloop.Loop.{Ioloop, Script}
use liblinuxpp.Ioloop.Start.{Round, failed, dispatch, no_timeouts, no_periodics}
use liblinuxpp.Ioloop.Registry.{view}
use liblinuxpp.Ioloop.Registry.Laws.{IsFrom, IsFaithful}
use liblinuxpp.Ioloop.Registry.Runs.{
  Op, adding, removing, dispatching, pruning, by_answers, empty, operate, run, reached, waited,
  registry_sound, operation_refines,
}
use liblinuxpp.Examples.Watch.{
  Slot, one_slot, watched, one_slot-IsKernel, fresh, constructed, control, await,
}

absent_law :
    (s : Slot) (e w : ℤ)
    → (control s e w ctl_del).1.ret ≡ minus_one
    → (control s e w ctl_del).1.errno ≡ enoent
    → has w (watched s e) ≡ false
absent_law none e w r n = refl
absent_law (some x) e w r n = ground arith

errno_law :
    (s : Slot) (e max timeout : ℤ)
    → (await s e max timeout).1.ret ≡ minus_one
    → (await s e max timeout).1.errno ≢ 0
errno_law none e (pos zero) timeout r = ground arith
errno_law none e (pos (suc m)) timeout r = ground arith
errno_law none e (negsuc m) timeout r = ground arith
errno_law (some x) e (pos zero) timeout r = ground arith
errno_law (some x) e (pos (suc m)) timeout r = ground arith
errno_law (some x) e (negsuc m) timeout r = ground arith

count_law :
    (s : Slot) (e max timeout : ℤ) (n : ℕ)
    → (await s e max timeout).1.ret ≡ pos n
    → length (await s e max timeout).1.stored ≡ n
count_law none e (pos zero) timeout n r = ground arith
count_law none e (pos (suc m)) timeout n r = ground arith
count_law none e (negsuc m) timeout n r = ground arith
count_law (some x) e (pos zero) timeout n r = ground arith
count_law (some x) e (pos (suc m)) timeout n r = ground arith
count_law (some x) e (negsuc m) timeout n r = ground arith

IsFrom-law :
    (s : Slot) (e max timeout : ℤ) → All (IsFrom (watched s e)) (await s e max timeout).1.stored
IsFrom-law none e (pos zero) timeout = tt
IsFrom-law none e (pos (suc m)) timeout = tt
IsFrom-law none e (negsuc m) timeout = tt
IsFrom-law (some x) e (pos zero) timeout = tt
IsFrom-law (some x) e (pos (suc m)) timeout = ((0, x.0, x.1, refl, refl), tt)
IsFrom-law (some x) e (negsuc m) timeout = tt

one_slot-IsFaithful : IsFaithful one_slot watched
one_slot-IsFaithful = record {
  absent = absent_law;
  wait_errno = errno_law;
  stored_count = count_law;
  stored_from = IsFrom-law;
}

abbrev reader : ℕ → Handler
reader fd = record { fd = fd; events = 1; callback = user fd }

abbrev session : List Op
session =
    adding (reader 7)
    ∷ adding (reader 8)
    ∷ adding (reader 7)
    ∷ dispatching
    ∷ removing 8
    ∷ removing 7
    ∷ pruning
    ∷ adding (reader 9)
    ∷ dispatching
    ∷ []

abbrev loop : Ioloop
loop = record {
  one = no_timeouts;
  periodic = no_periodics;
  table = record {
    handlers = reader 9 ∷ [];
    processing = true;
    removed_handlers = [];
    size_events = 1;
  };
  new_callbacks = [];
  callbacks_eventfd = 0;
  stop_eventfd = 0;
  keep_running = true;
  dangling = false;
  calls = [];
}

abbrev quiet : Script
quiet c s = []

abbrev first_round : Round
first_round = record { wait = failed 4; now = 0; periodic_now = 0; reset_now = 0; answer = λ i. 0 }

session_ends : (run one_slot session (empty one_slot fresh none)).1 ≡ none
unfolding run Registry.add_handler Registry.remove_handler Registry.prune Epoll.add_context
    Epoll.del_nothrow
session_ends = refl

session_handlers : reader 9 ∷ [] ≡ (reached one_slot session fresh none).handlers
unfolding run Registry.add_handler Registry.remove_handler Registry.prune Epoll.add_context
    Epoll.del_nothrow
session_handlers = refl

session_ready : is_good (waited one_slot [] (reached one_slot session fresh none)).0 ≡ true
unfolding run is_good Epoll.wait_nothrow Registry.add_handler Registry.remove_handler Registry.prune
    Epoll.add_context Epoll.del_nothrow
session_ready = refl

registry_sound_example :
    (fds : List ℕ) × (map
        (λ event. event.data_)
        (waited one_slot [] (reached one_slot session fresh none)).1.0
      ≡ map ptr fds)
    × ((dispatch quiet first_round (map some fds) loop).0.dangling ≡ false)
registry_sound_example =
    registry_sound one_slot watched one_slot-IsKernel one_slot-IsFaithful session none none fresh []
      quiet first_round loop constructed session_ends session_ready session_handlers refl refl

operation_refines_example :
    (answer : ℕ → ℕ) × ((
      view one_slot (operate one_slot (removing 9) (reached one_slot session fresh none)).0,
      (operate one_slot (removing 9) (reached one_slot session fresh none)).1,
    )
      ≡ by_answers (removing 9) answer (view one_slot (reached one_slot session fresh none)))
operation_refines_example =
    operation_refines one_slot watched one_slot-IsKernel one_slot-IsFaithful session none none fresh
      (removing 9) constructed session_ends
