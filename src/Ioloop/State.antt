-- ===== src/Ioloop/State.antt =====
-- The data members of linuxpp::ioloop (include/liblinuxpp/ioloop.hpp), in the groups that the header
-- names. A std::function is a number, its name; a time point is a number of nanoseconds.
use liblinuxpp.Prelude.{ℕ, ◌+◌, ◌%◌, ◌^◌, Bool, List, Option}

-- ioloop::timeout_callback.
pub record TimeoutCallback : Type 0 where
  pub handle : ℕ
  pub timeout : ℕ
  pub callback : ℕ
  pub remove : Bool

-- The timeout related members, with the handles' static counter. `timerfd` is the time point that
-- the one-shot timer was last set to; reading the timer disarms it.
pub record Timeouts : Type 0 where
  pub timeouts : List TimeoutCallback
  pub processing : Bool
  pub pending_additions : List TimeoutCallback
  pub timerfd : Option ℕ
  pub next_id : ℕ

-- ioloop::periodic_timeout_callback.
pub record PeriodicCallback : Type 0 where
  pub handle : ℕ
  pub period : ℕ
  pub timeout : ℕ
  pub callback : ℕ
  pub remove : Bool
  pub processed : Bool

-- The periodic timeout related members. `undefined` is set where the code does what C++ leaves
-- undefined.
pub record Periodics : Type 0 where
  pub periodic_timeouts : List PeriodicCallback
  pub processing : Bool
  pub pending_additions : List PeriodicCallback
  pub timerfd : Option ℕ
  pub next_id : ℕ
  pub undefined : Bool

-- The function of a handler: one of the user's, by its name, or one of the four that the
-- constructor binds.
pub data HandlerFunction : Type 0 where
  user : ℕ → HandlerFunction
  callbacks_function : HandlerFunction
  stop_function : HandlerFunction
  timeouts_function : HandlerFunction
  periodic_function : HandlerFunction

-- ioloop::handler_callback, with the descriptor that is its key in the map.
pub record Handler : Type 0 where
  pub fd : ℕ
  pub events : ℕ
  pub callback : HandlerFunction

-- The file descriptor related members; `size_events` is that of the epoll object.
pub record Handlers : Type 0 where
  pub handlers : List Handler
  pub processing : Bool
  pub removed_handlers : List ℕ
  pub size_events : ℕ

-- `next_id_++` on an unsigned long long.
abbrev pub next_handle : ℕ → ℕ
next_handle id = (id + 1) % 2 ^ 64
