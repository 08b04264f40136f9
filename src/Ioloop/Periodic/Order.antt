-- ===== src/Ioloop/Periodic/Order.antt =====
-- The order of the periodic timeouts and their timer (src/ioloop.cpp).
use liblinuxpp.Prelude.{ℕ, ◌+◌, ◌≡◌, refl, false, List, [], ◌∷◌, Option, none, some, arith, filter}
use liblinuxpp.Prelude.Sorted.{IsSorted, insert, insert-IsSorted}
use liblinuxpp.Ioloop.Entries.{IsArmed}
use liblinuxpp.Ioloop.Entries.Laws.{
  erase-IsSorted, erase-IsArmed, mark-IsSorted, insert_all-IsSorted, rearm-IsArmed,
}
use liblinuxpp.Ioloop.State.{PeriodicCallback, Periodics}
use liblinuxpp.Ioloop.Periodic.{
  id_of, marked, due, reset_processed, kept, make, add_idle, add_periodic_timeout,
  remove_periodic_timeout, finish_processing, sort, rearm_earlier,
}

pub record Inv (q : Periodics) : Type 0 where
  pub sorted : IsSorted due q.periodic_timeouts
  pub armed : q.processing ≡ false → IsArmed due q.periodic_timeouts q.timerfd
  pub settled : q.processing ≡ false → q.pending_additions ≡ []

sort-IsSorted : (ts : List PeriodicCallback) → IsSorted due (sort ts)
sort-IsSorted [] = tt
sort-IsSorted (t ∷ ts) = insert-IsSorted due t (sort ts) (sort-IsSorted ts)

rearm_earlier-IsArmed :
    (x t : PeriodicCallback) (ts : List PeriodicCallback) (armed : Option ℕ)
    → IsArmed due (t ∷ ts) armed
    → IsArmed due (insert due x (t ∷ ts)) (rearm_earlier t.timeout (insert due x (t ∷ ts)) armed)
rearm_earlier-IsArmed x t ts none a = absurd a
rearm_earlier-IsArmed x t ts (some d) a = ground arith

add_idle-Inv :
    (q : Periodics) (now period callback : ℕ) (ts : List PeriodicCallback)
    → q.periodic_timeouts ≡ ts
    → q.processing ≡ false
    → Inv q
    → Inv (add_idle ts q now period callback).0
unfolding add_idle
add_idle-Inv q now period callback [] e off v = record {
  sorted = (tt, tt);
  armed = λ _. omega arith;
  settled = v.settled;
}
add_idle-Inv q now period callback (t ∷ ts) e off v = ground (
  arith,
  insert-IsSorted due (make q period (now + period) callback) q.periodic_timeouts v.sorted,
  rearm_earlier-IsArmed (make q period (now + period) callback) t ts q.timerfd,
)

-- Adding a periodic timeout keeps the invariant of the periodic timeouts, while they are processed
-- or not: the vector is sorted and, outside of processing, the timer is set no later than the
-- earliest timeout and nothing is pending.
pub add_periodic_timeout-Inv :
    (q : Periodics) (now period callback : ℕ)
    → Inv q
    → Inv (add_periodic_timeout q now period callback).0
unfolding add_periodic_timeout
add_periodic_timeout-Inv q now period callback v =
    ground (arith, add_idle-Inv q now period callback q.periodic_timeouts refl)

-- Removing a periodic timeout, there or not, keeps the invariant of the periodic timeouts, while
-- they are processed or not.
pub remove_periodic_timeout-Inv :
    (q : Periodics) (h : ℕ) → Inv q → Inv (remove_periodic_timeout q h)
unfolding remove_periodic_timeout
remove_periodic_timeout-Inv q h v = ground (
  arith,
  erase-IsSorted id_of due h q.periodic_timeouts v.sorted,
  mark-IsSorted id_of due marked (λ t. refl) h q.periodic_timeouts v.sorted,
  erase-IsArmed id_of due h q.periodic_timeouts q.timerfd v.sorted,
)

pub finish_processing-Inv : (now : ℕ) (q : Periodics) → Inv (finish_processing now q)
unfolding finish_processing
finish_processing-Inv now q = record {
  sorted =
      insert_all-IsSorted due q.pending_additions _
        (sort-IsSorted (reset_processed now (filter kept q.periodic_timeouts)));
  armed = λ _. rearm-IsArmed due _ q.timerfd;
  settled = λ _. refl;
}
