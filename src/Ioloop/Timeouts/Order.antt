-- ===== src/Ioloop/Timeouts/Order.antt =====
-- The order of the timeouts and their timer (src/ioloop.cpp).
use liblinuxpp.Prelude.{ℕ, ◌≡◌, refl, false, List, [], ◌∷◌, arith}
use liblinuxpp.Prelude.Sorted.{IsSorted, insert-IsSorted, drop-IsSorted, filter-IsSorted}
use liblinuxpp.Ioloop.Entries.{IsArmed}
use liblinuxpp.Ioloop.Entries.Laws.{
  erase-IsSorted, erase-IsArmed, mark-IsSorted, insert_all-IsSorted, rearm-IsArmed, insert-IsArmed,
}
use liblinuxpp.Ioloop.State.{TimeoutCallback, Timeouts}
use liblinuxpp.Ioloop.Timeouts.{
  id_of, marked, due, kept, make, add_idle, add_timeout, remove_timeout, finish_processing, kept,
}

pub record Inv (q : Timeouts) : Type 0 where
  pub sorted : IsSorted due q.timeouts
  pub armed : q.processing ≡ false → IsArmed due q.timeouts q.timerfd
  pub settled : q.processing ≡ false → q.pending_additions ≡ []

add_idle-Inv :
    (q : Timeouts) (timeout callback : ℕ) (ts : List TimeoutCallback)
    → q.timeouts ≡ ts
    → q.processing ≡ false
    → Inv q
    → Inv (add_idle ts q timeout callback).0
unfolding add_idle
add_idle-Inv q timeout callback [] e off v = record {
  sorted = (tt, tt);
  armed = λ _. omega arith;
  settled = v.settled;
}
add_idle-Inv q timeout callback (t ∷ ts) e off v = ground (
  arith,
  insert-IsSorted due (make q timeout callback) q.timeouts v.sorted,
  insert-IsArmed due (make q timeout callback) t ts q.timerfd,
)

-- Adding a one-shot timeout keeps the invariant of the timeouts, while they are processed or not:
-- the vector is sorted and, outside of processing, the timer is set no later than the earliest
-- timeout and nothing is pending.
pub add_timeout-Inv :
    (q : Timeouts) (timeout callback : ℕ) → Inv q → Inv (add_timeout q timeout callback).0
unfolding add_timeout
add_timeout-Inv q timeout callback v =
    ground (arith, add_idle-Inv q timeout callback q.timeouts refl)

-- Removing a one-shot timeout, there or not, keeps the invariant of the timeouts, while they are
-- processed or not.
pub remove_timeout-Inv : (q : Timeouts) (h : ℕ) → Inv q → Inv (remove_timeout q h)
unfolding remove_timeout
remove_timeout-Inv q h v = ground (
  arith,
  erase-IsSorted id_of due h q.timeouts v.sorted,
  mark-IsSorted id_of due marked (λ t. refl) h q.timeouts v.sorted,
  erase-IsArmed id_of due h q.timeouts q.timerfd v.sorted,
)

pub finish_processing-Inv :
    (i : ℕ) (q : Timeouts) → IsSorted due q.timeouts → Inv (finish_processing i q)
unfolding finish_processing
finish_processing-Inv i q s = record {
  sorted =
      insert_all-IsSorted due q.pending_additions _
        (filter-IsSorted due kept _ (drop-IsSorted due i q.timeouts s));
  armed = λ _. rearm-IsArmed due _ q.timerfd;
  settled = λ _. refl;
}
