-- ===== src/Epoll.antt =====
-- linuxpp::epoll (include/liblinuxpp/epoll.hpp, src/epoll.cpp). What the kernel does is a parameter: its
-- state, and the three calls, each with the returned value and errno.
pub mod Interest
pub mod Refinement
use liblinuxpp.Prelude.{
  ℕ, zero, suc, ◌+◌, ◌-◌, ◌%◌, ◌^◌, Bool, true, false, List, [], ◌∷◌, ◌++◌, length, take, drop,
  if◌then◌else◌,
}
use liblinuxpp.Prelude.Int.{ℤ, pos, negsuc, eqb_ℤ, to_int}
use liblinuxpp.Syscall.{
  SyscallReturn, of_return, of_both, is_good, Error, system_error, Result, ok, err,
}
use liblinuxpp.Descriptor.{
  UniqueFd, is_set, manage, unique_move, unique_move_assign, unique_swap, unique_destroy,
}

-- struct epoll_event, by which member of its union was assigned.
pub data EventData : Type 0 where
  fd : ℤ → EventData
  ptr : ℕ → EventData
  u32 : ℕ → EventData
  u64 : ℕ → EventData

pub record EpollEvent : Type 0 where
  pub events : ℕ
  pub data_ : EventData

-- `epoll_event {}`
abbrev pub no_event : EpollEvent
no_event = record { events = 0; data_ = u64 0 }

-- EPOLL_CTL_ADD, EPOLL_CTL_MOD with their event, and EPOLL_CTL_DEL.
pub data Control : Type 0 where
  ctl_add : EpollEvent → Control
  ctl_mod : EpollEvent → Control
  ctl_del : Control

-- What a call answers: the returned value, errno, and the events that are stored.
pub record Answer : Type 0 where
  pub ret : ℤ
  pub errno : ℕ
  pub stored : List EpollEvent

pub record Kernel : Type 1 where
  pub State : Type 0
  pub epoll_create : State → State × Answer
  pub epoll_ctl : State → ℤ → ℤ → Control → State × Answer
  pub epoll_wait : State → ℤ → ℤ → ℤ → State × Answer

pub record Epoll : Type 0 where
  pub epoll_fd : UniqueFd
  pub size_events : ℕ

abbrev pub epfd : Epoll → ℤ
epfd e = e.epoll_fd.fd_member.descriptor

abbrev pub minus_one : ℤ
minus_one = negsuc 0

-- The four overloads of make_epoll_event.
abbrev pub make_epoll_event : ℕ → EventData → EpollEvent
make_epoll_event events data_ = record { events = events; data_ = data_ }

-- `++` and `--` of a std::size_t.
abbrev pub increment : ℕ → ℕ
increment n = (n + 1) % 2 ^ 64

abbrev pub decrement : ℕ → ℕ
decrement n = (n + (2 ^ 64 - 1)) % 2 ^ 64

abbrev pub blanks : ℕ → List EpollEvent
blanks zero = []
blanks (suc n) = no_event ∷ blanks n

-- std::vector::resize, and the vector when the kernel has stored events in its first elements.
abbrev pub resize : ℕ → List EpollEvent → List EpollEvent
resize n es = take n es ++ blanks (n - length es)

abbrev pub store : List EpollEvent → List EpollEvent → List EpollEvent
store new es = take (length es) new ++ drop (length new) es

-- `static_cast<std::size_t>` of what epoll_wait returned, and its `int` of a count.
abbrev pub to_size : ℤ → ℕ
to_size (pos n) = n
to_size (negsuc n) = 2 ^ 64 - 1 - n

-- The moves, whose defaults copy the count, and swap.
unfoldable pub move : Epoll → Epoll × Epoll
unfolding unique_move
move other =
    let (this, left) = unique_move other.epoll_fd in
    (record other { epoll_fd = this }, record other { epoll_fd = left })

unfoldable pub move_assign : Epoll → Epoll → Epoll × Epoll
unfolding unique_move_assign
move_assign this other =
    let (a, b) = unique_move_assign this.epoll_fd other.epoll_fd in
    (record { epoll_fd = a; size_events = other.size_events }, record other { epoll_fd = b })

unfoldable pub swap : Epoll → Epoll → Epoll × Epoll
swap this other = (other, this)

module _ (k : Kernel) where
  -- The constructor.
  unfoldable pub construct : k.State → Result Epoll × k.State
  unfolding is_set
  construct s =
      let (after, a) = k.epoll_create s in
      let members : Epoll = record { epoll_fd = manage a.ret; size_events = 0 } in
      if is_set members.epoll_fd.fd_member
      then (ok members, after)
      else (err (system_error a.errno), after)

  -- add and mod with an event, which the public overloads call.
  unfoldable pub add : ℤ → EpollEvent → Epoll → k.State → Result (Unit {0}) × (Epoll × k.State)
  add watched event e s =
      let (after, a) = k.epoll_ctl s (epfd e) watched (ctl_add event) in
      if eqb_ℤ a.ret minus_one
      then (err (system_error a.errno), (e, after))
      else (ok tt, (record e { size_events = increment e.size_events }, after))

  unfoldable pub mod_ : ℤ → EpollEvent → Epoll → k.State → Result (Unit {0}) × (Epoll × k.State)
  mod_ watched event e s =
      let (after, a) = k.epoll_ctl s (epfd e) watched (ctl_mod event) in
      if eqb_ℤ a.ret minus_one
      then (err (system_error a.errno), (e, after))
      else (ok tt, (e, after))

  unfoldable pub del_nothrow : ℤ → Epoll → k.State → SyscallReturn × (Epoll × k.State)
  del_nothrow watched e s =
      let (after, a) = k.epoll_ctl s (epfd e) watched ctl_del in
      if eqb_ℤ a.ret (pos 0)
      then (of_return (pos 0), (record e { size_events = decrement e.size_events }, after))
      else (of_both a.errno a.ret, (e, after))

  unfoldable pub del : ℤ → Epoll → k.State → Result (Unit {0}) × (Epoll × k.State)
  unfolding del_nothrow is_good
  del watched e s =
      let (ret, after) = del_nothrow watched e s in
      if is_good ret then (ok tt, after) else (err (system_error ret.errno_member), after)

  -- What wait does with the answer of epoll_wait, in a vector that has been resized.
  abbrev pub finish :
      List EpollEvent → k.State × Answer → Result (Unit {0}) × (List EpollEvent × k.State)
  finish room (after, a) =
      if eqb_ℤ a.ret minus_one
      then (err (system_error a.errno), (store a.stored room, after))
      else (ok tt, (resize (to_size a.ret) (store a.stored room), after))

  -- wait with a vector and a timeout in an int: the vector, also where it throws.
  unfoldable pub wait_int :
      List EpollEvent → ℤ → Epoll → k.State → Result (Unit {0}) × (List EpollEvent × k.State)
  wait_int events timeout e s =
      let room = resize e.size_events events in
      finish room (k.epoll_wait s (epfd e) (to_int (pos (length room))) timeout)

  unfoldable pub wait_nothrow :
      List EpollEvent → Epoll → k.State → SyscallReturn × (List EpollEvent × k.State)
  wait_nothrow events e s =
      let room = resize e.size_events events in
      let (after, a) = k.epoll_wait s (epfd e) (to_int (pos (length room))) minus_one in
      if eqb_ℤ a.ret minus_one
      then (of_both a.errno a.ret, (store a.stored room, after))
      else (of_return a.ret, (resize (to_size a.ret) (store a.stored room), after))

  -- The public waits on a vector, without a timeout and with one in milliseconds. Those that return
  -- the vector start from an empty one.
  unfoldable pub wait :
      List EpollEvent → Epoll → k.State → Result (Unit {0}) × (List EpollEvent × k.State)
  unfolding wait_int
  wait events e s = wait_int events minus_one e s

  unfoldable pub wait_for :
      List EpollEvent → ℤ → Epoll → k.State → Result (Unit {0}) × (List EpollEvent × k.State)
  unfolding wait_int
  wait_for events timeout e s = wait_int events (to_int timeout) e s

  abbrev pub returned :
      Result (Unit {0}) × (List EpollEvent × k.State) → Result (List EpollEvent) × k.State
  returned (ok _, (events, after)) = (ok events, after)
  returned (err x, (events, after)) = (err x, after)

  unfoldable pub wait_vector : Epoll → k.State → Result (List EpollEvent) × k.State
  unfolding wait_int
  wait_vector e s = returned (wait_int [] minus_one e s)

  unfoldable pub wait_vector_for : ℤ → Epoll → k.State → Result (List EpollEvent) × k.State
  unfolding wait_int
  wait_vector_for timeout e s = returned (wait_int [] (to_int timeout) e s)

  -- The public overloads of add and mod, by what they store in the event: the descriptor, or a
  -- context.
  unfoldable pub add_fd : ℤ → ℕ → Epoll → k.State → Result (Unit {0}) × (Epoll × k.State)
  unfolding add
  add_fd watched events e s = add watched (make_epoll_event events (fd watched)) e s

  unfoldable pub add_context :
      ℤ → ℕ → EventData → Epoll → k.State → Result (Unit {0}) × (Epoll × k.State)
  unfolding add
  add_context watched events context e s = add watched (make_epoll_event events context) e s

  unfoldable pub mod_fd : ℤ → ℕ → Epoll → k.State → Result (Unit {0}) × (Epoll × k.State)
  unfolding mod_
  mod_fd watched events e s = mod_ watched (make_epoll_event events (fd watched)) e s

  unfoldable pub mod_context :
      ℤ → ℕ → EventData → Epoll → k.State → Result (Unit {0}) × (Epoll × k.State)
  unfolding mod_
  mod_context watched events context e s = mod_ watched (make_epoll_event events context) e s
