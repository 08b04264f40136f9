-- ===== src/Ioloop/Threads/Defs.antt =====
-- The steps of the threads that share a loop, and the states that they reach. The functions modelled are
-- add_callback, process_callbacks, process_stop, start and stop of src/ioloop.cpp, less what
-- start does with handlers other than the two of the event counters.
use liblinuxpp.Prelude.{
  ℕ, ◌≡◌, ◌==◌, if◌then◌else◌, Bool, true, false, not, ◌||◌, List, [], ◌∷◌, ◌++◌,
}
use liblinuxpp.Ioloop.Loop.{eagain}

-- An eventfd, by what eventfd(2) documents: what a write of 1 answers (an errno value, 0 if it
-- succeeds) and leaves, and what a read leaves. A counter that was added to is readable, so is one that
-- is too full to be added to, and a write that fails drains nothing.
pub record EventCounter : Type 1 where
  pub Counter : Type 0
  pub fresh : Counter
  pub readable : Counter → Bool
  pub Writes : Counter → ℕ → Counter → Type 0
  pub Reads : Counter → Counter → Type 0
  pub write_ok : (c d : Counter) → Writes c 0 d → readable d ≡ true
  pub write_again : (c d : Counter) → Writes c eagain d → readable d ≡ true
  pub write_keeps :
      (c d : Counter) (errno : ℕ) → readable c ≡ true → Writes c errno d → readable d ≡ true
  pub read_returns : (c : Counter) → readable c ≡ true → (d : Counter) × Reads c d

-- The owner of mutex_.
pub data Mutex : Type 0 where
  free : Mutex
  held_by : ℕ → Mutex
  held_by_loop : Mutex

-- Where a thread stands: outside; in add_callback with the lock, then with new_callbacks_ as push_back
-- has read it, after push_back, and with the errno value of the write; in stop after its assignment.
pub data Pc : Type 0 where
  idle : Pc
  locked : ℕ → Pc
  pushing : ℕ → List ℕ → Pc
  pushed : Pc
  written : ℕ → Pc
  stopping : Pc

-- An event that epoll_wait returned: of callbacks_eventfd_, of stop_eventfd_, or of another handler.
pub data Event : Type 0 where
  callbacks_event : Event
  stop_event : Event
  other_event : Event

-- Where the thread of the loop stands, with the events left: outside start; at the test of
-- keep_running_; in epoll_wait; in the dispatch; in process_callbacks after the read, with the
-- lock, with the vector that the move has read, after the move, and in the calls.
pub data LoopPc : Type 0 where
  outside : LoopPc
  testing : LoopPc
  waiting : LoopPc
  handling : List Event → LoopPc
  drained : List Event → LoopPc
  taking : List Event → LoopPc
  moving : List ℕ → List Event → LoopPc
  moved : List ℕ → List Event → LoopPc
  calling : List ℕ → List Event → LoopPc

-- Whether add_callback and stop throw on this answer of the write.
abbrev pub throws_add : ℕ → Bool
throws_add errno = not (errno == 0 || errno == eagain)

abbrev pub throws_stop : ℕ → Bool
throws_stop errno = not (errno == 0)

abbrev pub update : (ℕ → Pc) → ℕ → Pc → ℕ → Pc
update pc i p j = if i == j then p else pc j

module _ (k : EventCounter) where
  open k use {Counter, fresh, readable, Writes, Reads}

  -- The members that the threads share. `thrown` records that add_callback or stop has thrown, `added`
  -- the callbacks in the order in which they were put into new_callbacks_, `called` those called.
  pub record Shared : Type 0 where
    pub mutex : Mutex
    pub new_callbacks : List ℕ
    pub callbacks_eventfd : Counter
    pub stop_eventfd : Counter
    pub keep_running : Bool
    pub thrown : Bool
    pub added : List ℕ
    pub called : List ℕ

  -- A step of thread `i` in add_callback or stop.
  pub data Move (i : ℕ) (m : Shared) : Pc → Shared → Pc → Type 0 where
    lock :
        (callback : ℕ)
        → m.mutex ≡ free
        → Move i m idle (record m { mutex = held_by i }) (locked callback)
    read_vector : {callback : ℕ} → Move i m (locked callback) m (pushing callback m.new_callbacks)
    push :
        {callback : ℕ} {seen : List ℕ}
        → Move i m
            (pushing callback seen)
            (record m { new_callbacks = seen ++ callback ∷ []; added = m.added ++ callback ∷ [] })
            pushed
    write :
        (errno : ℕ) {c : Counter}
        → Writes m.callbacks_eventfd errno c
        → Move i m pushed
            (record m { callbacks_eventfd = c; thrown = m.thrown || throws_add errno })
            (written errno)
    unlock : {errno : ℕ} → Move i m (written errno) (record m { mutex = free }) idle
    clear : Move i m idle (record m { keep_running = false }) stopping
    write_stop :
        (errno : ℕ) {c : Counter}
        → Writes m.stop_eventfd errno c
        → Move i m stopping
            (record m { stop_eventfd = c; thrown = m.thrown || throws_stop errno })
            idle

  -- epoll_wait returns events of descriptors that are readable.
  abbrev pub AllReady : Shared → List Event → Type 0
  AllReady m [] = Unit
  AllReady m (callbacks_event ∷ es) = (readable m.callbacks_eventfd ≡ true) × AllReady m es
  AllReady m (stop_event ∷ es) = (readable m.stop_eventfd ≡ true) × AllReady m es
  AllReady m (other_event ∷ es) = AllReady m es

  -- A step of the thread of the loop.
  pub data LoopMove (m : Shared) : LoopPc → Shared → LoopPc → Type 0 where
    begin : LoopMove m outside (record m { keep_running = true }) testing
    leave : m.keep_running ≡ false → LoopMove m testing m outside
    enter : m.keep_running ≡ true → LoopMove m testing m waiting
    interrupted : LoopMove m waiting m testing
    wake :
        (e : Event) (es : List Event)
        → AllReady m (e ∷ es)
        → LoopMove m waiting m (handling (e ∷ es))
    read_callbacks :
        {es : List Event} {c : Counter}
        → Reads m.callbacks_eventfd c
        → LoopMove m
            (handling (callbacks_event ∷ es))
            (record m { callbacks_eventfd = c })
            (drained es)
    read_stop :
        {es : List Event} {c : Counter}
        → Reads m.stop_eventfd c
        → LoopMove m (handling (stop_event ∷ es)) (record m { stop_eventfd = c }) (handling es)
    handle_other : {es : List Event} → LoopMove m (handling (other_event ∷ es)) m (handling es)
    round_ends : LoopMove m (handling []) m testing
    lock_loop :
        {es : List Event}
        → m.mutex ≡ free
        → LoopMove m (drained es) (record m { mutex = held_by_loop }) (taking es)
    read_moved : {es : List Event} → LoopMove m (taking es) m (moving m.new_callbacks es)
    move :
        {cs : List ℕ} {es : List Event}
        → LoopMove m (moving cs es) (record m { new_callbacks = [] }) (moved cs es)
    unlock_loop :
        {cs : List ℕ} {es : List Event}
        → LoopMove m (moved cs es) (record m { mutex = free }) (calling cs es)
    call :
        {c : ℕ} {cs : List ℕ} {es : List Event}
        → LoopMove m
            (calling (c ∷ cs) es)
            (record m { called = m.called ++ c ∷ [] })
            (calling cs es)
    calls_end : {es : List Event} → LoopMove m (calling [] es) m (handling es)

  pub record System : Type 0 where
    pub mem : Shared
    pub loop : LoopPc
    pub pc : ℕ → Pc

  pub data Step (s : System) : System → Type 0 where
    by_thread :
        (i : ℕ) {m : Shared} {p : Pc}
        → Move i s.mem (s.pc i) m p
        → Step s (record { mem = m; loop = s.loop; pc = update s.pc i p })
    by_loop :
        {m : Shared} {l : LoopPc}
        → LoopMove s.mem s.loop m l
        → Step s (record { mem = m; loop = l; pc = s.pc })

  -- A loop that was just constructed.
  abbrev pub init : System
  init = record {
    mem = record {
      mutex = free;
      new_callbacks = [];
      callbacks_eventfd = fresh;
      stop_eventfd = fresh;
      keep_running = true;
      thrown = false;
      added = [];
      called = [];
    };
    loop = outside;
    pc = λ _. idle;
  }

  pub data Reach : System → Type 0 where
    start : Reach init
    later : {s t : System} → Reach s → Step s t → Reach t
