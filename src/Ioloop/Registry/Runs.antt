-- ===== src/Ioloop/Registry/Runs.antt =====
-- Runs of add_handler, remove_handler and the pruning of start on one epoll object (src/ioloop.cpp over
-- src/epoll.cpp).
use mathlib.Core.Path.{ap₂}
use liblinuxpp.Prelude.{
  ℕ, ◌≡◌, refl, ◌∙◌, sym, ap, true, false, inl, inr, Option-cases, List, [], ◌∷◌, Option, none,
  some, map, length,
}
use liblinuxpp.Prelude.Int.{ℤ}
use liblinuxpp.Syscall.{SyscallReturn, is_good, ok}
use liblinuxpp.Epoll
use liblinuxpp.Epoll.{EpollEvent, ptr, Kernel, Epoll, epfd}
use liblinuxpp.Epoll.Interest.{Interest, IsKernel}
use liblinuxpp.Epoll.Refinement.{construct_lem}
use liblinuxpp.Ioloop.State.{Handler, Handlers}
use liblinuxpp.Ioloop.Handlers
use liblinuxpp.Ioloop.Handlers.{Error, fd_of}
use liblinuxpp.Ioloop.Loop.{Ioloop, Script}
use liblinuxpp.Ioloop.Start.{Round, dispatch}
use liblinuxpp.Ioloop.Start.Dispatch.{dispatch_sound}
use liblinuxpp.Ioloop.Registry.{Registry, view, add_handler, remove_handler, prune}
use liblinuxpp.Ioloop.Registry.Laws.{
  IsFaithful, Inv, add_handler-Inv, remove_handler-Inv, prune-Inv,
}
use liblinuxpp.Ioloop.Registry.Agreement.{add_handler_agrees, remove_handler_agrees, prune_agrees}
use liblinuxpp.Ioloop.Registry.Waits.{wait-Handled}

-- What is done with the handlers: the operations, and the beginning and the end of a dispatch.
pub data Op : Type 0 where
  adding : Handler → Op
  removing : ℕ → Op
  dispatching : Op
  pruning : Op

-- What Ioloop/Handlers says of them, by the answers of epoll_ctl.
abbrev pub by_answers : Op → (ℕ → ℕ) → Handlers → Handlers × Option Error
by_answers (adding h) answer t = Handlers.add_handler t h (answer 0)
by_answers (removing fd) answer t = Handlers.remove_handler t fd (answer 0)
by_answers dispatching answer t = (record t { processing = true }, none)
by_answers pruning answer t = Handlers.prune answer (record t { processing = false })

module _ (k : Kernel) where
  abbrev pub empty : Epoll → k.State → Registry k
  empty e s = record {
    handlers = [];
    processing = false;
    removed_handlers = [];
    epoll = e;
    kernel = s;
  }

  unfoldable pub operate : Op → Registry k → Registry k × Option Error
  operate (adding h) r = add_handler k r h
  operate (removing fd) r = remove_handler k r fd
  operate dispatching r = (record r { processing = true }, none)
  operate pruning r = prune k (record r { processing = false })

  -- The callers go on after an exception, but for one of remove_handler.
  abbrev pub stops_run : Op → Option Error → Option Error
  stops_run (removing fd) thrown = thrown
  stops_run _ thrown = none

  unfoldable pub perform : Op → Registry k → Registry k × Option Error
  unfolding operate
  perform op r = ((operate op r).0, stops_run op (operate op r).1)

  unfoldable pub run : List Op → Registry k → Registry k × Option Error
  unfolding perform
  run [] r = (r, none)
  run (op ∷ ops) r =
      let rest = run ops (perform op r).0 in
      elim (perform op r).1 [ some e ↦ ((perform op r).0, some e) | none ↦ rest ]

  -- The registry at the end of a run, and a wait of start on it, into a vector that held `es`.
  abbrev pub reached : List Op → Epoll → k.State → Registry k
  reached ops e s = (run ops (empty e s)).0

  abbrev pub waited : List EpollEvent → Registry k → SyscallReturn × (List EpollEvent × k.State)
  waited es r = Epoll.wait_nothrow k es r.epoll r.kernel

module _ (k : Kernel) (watched : k.State → ℤ → Interest) (law : IsKernel k watched)
    (faithful : IsFaithful k watched) where
  perform-Inv :
      (op : Op) (r : Registry k)
      → (perform k op r).1 ≡ none
      → Inv k watched law faithful r
      → Inv k watched law faithful (perform k op r).0
  unfolding perform operate
  perform-Inv (adding h) r fine v = add_handler-Inv k watched law faithful r h v
  perform-Inv (removing fd) r fine v = remove_handler-Inv k watched law faithful r fd fine v
  perform-Inv dispatching r fine v = v
  perform-Inv pruning r fine v =
      prune-Inv k watched law faithful (record r { processing = false }) v

  run-Inv :
      (ops : List Op) (r : Registry k)
      → (run k ops r).1 ≡ none
      → Inv k watched law faithful r
      → Inv k watched law faithful (run k ops r).0
  unfolding run
  run-Inv [] r fine v = v
  run-Inv (op ∷ ops) r fine v = elim (Option-cases (perform k op r).1) [
    | inl e ↦
        rw (e, run) (run-Inv ops (perform k op r).0 (rw (e, run) at fine) (perform-Inv op r e v))
    | inr (x, e) ↦ let thrown = rw (e, run) at fine in cc
  ]

  reached-Inv :
      (ops : List Op) (before start : k.State) (e : Epoll)
      → Epoll.construct k before ≡ (ok e, start)
      → (run k ops (empty k e start)).1 ≡ none
      → Inv k watched law faithful (reached k ops e start)
  reached-Inv ops before start e made fine =
      let fresh = construct_lem k watched law before start e made in
      run-Inv ops (empty k e start) fine (
        rw fresh.0 (record { same = λ fd. refl; unique = tt; distinct = tt; points = tt }),
        fresh.1 ∙ ap length (sym fresh.0),
      )

  operate_agrees :
      (op : Op) (r : Registry k)
      → Inv k watched law faithful r
      → (answer : ℕ → ℕ) × ((view k (operate k op r).0, (operate k op r).1)
          ≡ by_answers op answer (view k r))
  unfolding operate
  operate_agrees (adding h) r v =
      let (errno, states, errors) = add_handler_agrees k watched law faithful r h v in
      ((λ j. errno), ap₂ (λ t e. (t, e)) states errors)
  operate_agrees (removing fd) r v =
      let (errno, states, errors) = remove_handler_agrees k watched law faithful r fd v in
      ((λ j. errno), ap₂ (λ t e. (t, e)) states errors)
  operate_agrees dispatching r v = ((λ j. 0), refl)
  operate_agrees pruning r v =
      prune_agrees k watched law faithful (record r { processing = false }) v

  -- Over a kernel that obeys the documented laws of its epoll calls, after any run of add_handler,
  -- remove_handler and dispatches that end with pruning on a constructed epoll object in which
  -- remove_handler has not thrown, a wait that succeeds leaves in the vector pointers to handlers,
  -- and dispatching these events on a loop with the handlers of that run follows no pointer to a
  -- handler that is gone, whatever the handlers and callbacks do.
  pub registry_sound :
      (ops : List Op) (before start : k.State) (e : Epoll) (es : List EpollEvent) (script : Script)
      (round : Round) (s : Ioloop)
      → Epoll.construct k before ≡ (ok e, start)
      → (run k ops (empty k e start)).1 ≡ none
      → is_good (waited k es (reached k ops e start)).0 ≡ true
      → s.table.handlers ≡ (reached k ops e start).handlers
      → s.table.processing ≡ true
      → s.dangling ≡ false
      → (fds : List ℕ) × (map (λ event. event.data_) (waited k es (reached k ops e start)).1.0
          ≡ map ptr fds)
        × ((dispatch script round (map some fds) s).0.dangling ≡ false)
  registry_sound ops before start e es script round s made fine good same busy sound =
      let v = reached-Inv ops before start e made fine in
      let h = wait-Handled k watched law faithful (run k ops (empty k e start)).0 es v good in
      (h.fds, h.pointers, (dispatch_sound script round h.fds s busy sound (rw same h.present)).0)

  -- Over a kernel that obeys the documented laws of its epoll calls, after any run of add_handler,
  -- remove_handler and dispatches that end with pruning on a constructed epoll object in which
  -- remove_handler has not thrown, each of these operations does with the handlers and their count,
  -- and throws, what the operation that is given the answers of epoll_ctl does for some answers.
  pub operation_refines :
      (ops : List Op) (before start : k.State) (e : Epoll) (op : Op)
      → Epoll.construct k before ≡ (ok e, start)
      → (run k ops (empty k e start)).1 ≡ none
      → (answer : ℕ → ℕ) × ((
        view k (operate k op (reached k ops e start)).0,
        (operate k op (reached k ops e start)).1,
      )
          ≡ by_answers op answer (view k (reached k ops e start)))
  unfolding operate
  operation_refines ops before start e op made fine =
      operate_agrees op (reached k ops e start) (reached-Inv ops before start e made fine)
