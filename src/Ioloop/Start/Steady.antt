-- ===== src/Ioloop/Start/Steady.antt =====
-- What holds of the event loop between two rounds of ioloop::start (src/ioloop.cpp).
use liblinuxpp.Prelude.{
  ℕ, ◌+◌, ◌≡◌, refl, ◌∙◌, true, false, List, [], ◌∷◌, Option, none, some, arith, All, inl, inr,
  Option-cases, length, Bool-cases, ◌==◌,
}
use liblinuxpp.Prelude.Sorted.{insert-All}
use liblinuxpp.Ioloop.State.{
  Handler, HandlerFunction, user, callbacks_function, stop_function, timeouts_function,
  periodic_function, Timeouts, Periodics,
}
use liblinuxpp.Ioloop.Timeouts
use liblinuxpp.Ioloop.Periodic
use liblinuxpp.Ioloop.Handlers.Laws.{IsDistinct, add_handler-IsDistinct, remove_handler-IsDistinct}
use liblinuxpp.Ioloop.Loop.{
  Ioloop, Script, Invocation, called, Action, adds_timeout, removes_timeout, adds_periodic,
  removes_periodic, adds_handler, removes_handler, adds_callback, stops, add_callback, stop,
  perform, invoke, invoke_all, process_timeouts, process_periodic_timeouts, process_callbacks,
  process_stop,
}
use liblinuxpp.Ioloop.Loop.Perform.{perform_all_keeps, perform-one-Inv, perform-periodic-Inv}
use liblinuxpp.Ioloop.Loop.TimeoutRound.{run_expired_keeps, process_timeouts-Inv}
use liblinuxpp.Ioloop.Loop.PeriodicRound.{
  IsResting, run_periodic_keeps, process_periodic_timeouts-IsResting, erase-resting,
}
use liblinuxpp.Ioloop.Start.{Round, find_handler, run_handler, dispatch, continued}

-- No periodic timeout is marked as invoked, and no round of periodic timeouts is on.
pub record AtRest (q : Periodics) : Type 0 where
  pub idle : q.processing ≡ false
  pub timeouts : All IsResting q.periodic_timeouts
  pub added : All IsResting q.pending_additions

-- The three groups of members, the handlers by their map.
pub record Groups (one : Timeouts) (periodic : Periodics) (hs : List Handler) : Type 0 where
  pub one_inv : Timeouts.Order.Inv one
  pub one_idle : one.processing ≡ false
  pub periodic_inv : Periodic.Order.Inv periodic
  pub at_rest : AtRest periodic
  pub distinct : IsDistinct hs

abbrev pub IsSteady : Ioloop → Type 0
IsSteady s = Groups s.one s.periodic s.table.handlers

add-AtRest :
    (q : Periodics) (now period callback : ℕ)
    → AtRest q
    → AtRest (Periodic.add_periodic_timeout q now period callback).0
unfolding Periodic.add_periodic_timeout
add-AtRest q now period callback r = ground (
  arith,
  insert-All Periodic.due IsResting (Periodic.make q period (now + period) callback)
      q.periodic_timeouts refl r.timeouts,
)

remove-AtRest : (q : Periodics) (h : ℕ) → AtRest q → AtRest (Periodic.remove_periodic_timeout q h)
unfolding Periodic.remove_periodic_timeout
remove-AtRest q h r = ground (arith, erase-resting h q.periodic_timeouts r.timeouts)

perform-AtRest : (a : Action) (s : Ioloop) → AtRest s.periodic → AtRest (perform a s).periodic
unfolding perform add_callback stop
perform-AtRest (adds_periodic now period c) s r = add-AtRest s.periodic now period c r
perform-AtRest (removes_periodic h) s r = remove-AtRest s.periodic h r
perform-AtRest (adds_callback c e) s r = ground arith
perform-AtRest (adds_timeout timeout c) s r = r
perform-AtRest (removes_timeout h) s r = r
perform-AtRest (adds_handler h e) s r = r
perform-AtRest (removes_handler fd e) s r = r
perform-AtRest (stops e) s r = r

perform-IsDistinct :
    (a : Action) (s : Ioloop)
    → IsDistinct s.table.handlers
    → IsDistinct (perform a s).table.handlers
unfolding perform add_callback stop
perform-IsDistinct (adds_handler h e) s d = add_handler-IsDistinct s.table h e d
perform-IsDistinct (removes_handler fd e) s d = remove_handler-IsDistinct s.table fd e d
perform-IsDistinct (adds_callback c e) s d = ground arith
perform-IsDistinct (adds_periodic now period c) s d = d
perform-IsDistinct (removes_periodic h) s d = d
perform-IsDistinct (adds_timeout timeout c) s d = d
perform-IsDistinct (removes_timeout h) s d = d
perform-IsDistinct (stops e) s d = d

perform-one-processing : (a : Action) (s : Ioloop) → (perform a s).one.processing ≡ s.one.processing
unfolding perform add_callback stop Timeouts.add_timeout Timeouts.remove_timeout
perform-one-processing (adds_timeout timeout c) s = ground arith
perform-one-processing (removes_timeout h) s = ground arith
perform-one-processing (adds_callback c e) s = ground arith
perform-one-processing (adds_periodic now period c) s = refl
perform-one-processing (removes_periodic h) s = refl
perform-one-processing (adds_handler h e) s = refl
perform-one-processing (removes_handler fd e) s = refl
perform-one-processing (stops e) s = refl

perform-IsSteady : (a : Action) (s : Ioloop) → IsSteady s → IsSteady (perform a s)
perform-IsSteady a s v = record {
  one_inv = perform-one-Inv a s v.one_inv;
  one_idle = perform-one-processing a s ∙ v.one_idle;
  periodic_inv = perform-periodic-Inv a s v.periodic_inv;
  at_rest = perform-AtRest a s v.at_rest;
  distinct = perform-IsDistinct a s v.distinct;
}

invoke-IsSteady :
    (script : Script) (c : Invocation) (s : Ioloop) → IsSteady s → IsSteady (invoke script c s)
unfolding invoke
invoke-IsSteady script c s v = perform_all_keeps IsSteady perform-IsSteady (script c s) _ v

invoke_all-IsSteady :
    (script : Script) (cs : List ℕ) (s : Ioloop) → IsSteady s → IsSteady (invoke_all script cs s)
unfolding invoke_all
invoke_all-IsSteady script [] s v = v
invoke_all-IsSteady script (c ∷ cs) s v =
    invoke_all-IsSteady script cs (invoke script (called c) s)
      (invoke-IsSteady script (called c) s v)

-- What the callbacks keep of the groups that a round of timeouts is not about.
abbrev OtherThanOne : Ioloop → Type 0
OtherThanOne s = Periodic.Order.Inv s.periodic × AtRest s.periodic × IsDistinct s.table.handlers

abbrev OtherThanPeriodic : Ioloop → Type 0
OtherThanPeriodic s =
    Timeouts.Order.Inv s.one × (s.one.processing ≡ false) × IsDistinct s.table.handlers

invoke-OtherThanOne :
    (script : Script) (c : Invocation) (s : Ioloop)
    → OtherThanOne s
    → OtherThanOne (invoke script c s)
unfolding invoke
invoke-OtherThanOne script c s v =
    perform_all_keeps OtherThanOne
      (λ a u w. (perform-periodic-Inv a u w.0, perform-AtRest a u w.1, perform-IsDistinct a u w.2))
      (script c s) _ v

invoke-OtherThanPeriodic :
    (script : Script) (c : Invocation) (s : Ioloop)
    → OtherThanPeriodic s
    → OtherThanPeriodic (invoke script c s)
unfolding invoke
invoke-OtherThanPeriodic script c s v =
    perform_all_keeps OtherThanPeriodic
      (λ a u w.
        (perform-one-Inv a u w.0, perform-one-processing a u ∙ w.1, perform-IsDistinct a u w.2))
      (script c s) _ v

process_timeouts-IsSteady :
    (script : Script) (now : ℕ) (s : Ioloop) → IsSteady s → IsSteady (process_timeouts script now s)
unfolding process_timeouts Timeouts.finish_processing
process_timeouts-IsSteady script now s v =
    let (periodic, at_rest, distinct) =
      run_expired_keeps OtherThanOne script now (λ c u. invoke-OtherThanOne script c u)
        (length s.one.timeouts) 0
        (record s { one = record (s.one) { timerfd = none; processing = true } })
        (v.periodic_inv, v.at_rest, v.distinct) in
    record {
      one_inv = process_timeouts-Inv script now s v.one_inv;
      one_idle = refl;
      periodic_inv = periodic;
      at_rest = at_rest;
      distinct = distinct;
    }

process_periodic-IsSteady :
    (script : Script) (now reset_now : ℕ) (s : Ioloop)
    → IsSteady s
    → IsSteady (process_periodic_timeouts script now reset_now s)
unfolding process_periodic_timeouts Periodic.finish_processing
process_periodic-IsSteady script now reset_now s v =
    let (one, one_idle, distinct) =
      run_periodic_keeps OtherThanPeriodic script now (λ c u. invoke-OtherThanPeriodic script c u)
        (λ q u w. w) (length s.periodic.periodic_timeouts) 0
        (record s { periodic = record (s.periodic) { timerfd = none; processing = true } })
        (v.one_inv, v.one_idle, v.distinct) in
    let (resting, inv) =
      process_periodic_timeouts-IsResting script now reset_now s v.at_rest.timeouts
        v.at_rest.added in
    record {
      one_inv = one;
      one_idle = one_idle;
      periodic_inv = inv;
      at_rest = record { idle = refl; timeouts = resting; added = tt };
      distinct = distinct;
    }

run_handler-IsSteady :
    (script : Script) (r : Round) (h : Handler) (f : HandlerFunction) (s : Ioloop)
    → IsSteady s
    → IsSteady (run_handler script r h f s).0
unfolding run_handler process_callbacks process_stop
run_handler-IsSteady script r h (user c) s v = invoke-IsSteady script _ s v
run_handler-IsSteady script r h callbacks_function s v =
    elim (Bool-cases (s.callbacks_eventfd == 0)) [
      | inl dry ↦ rw dry v
      | inr full ↦ rw full (invoke_all-IsSteady script s.new_callbacks _ v)
    ]
run_handler-IsSteady script r h stop_function s v = v
run_handler-IsSteady script r h timeouts_function s v = process_timeouts-IsSteady script r.now s v
run_handler-IsSteady script r h periodic_function s v =
    process_periodic-IsSteady script r.periodic_now r.reset_now s v

pub dispatch-IsSteady :
    (script : Script) (r : Round) (es : List (Option ℕ)) (s : Ioloop)
    → IsSteady s
    → IsSteady (dispatch script r es s).0
unfolding dispatch
dispatch-IsSteady script r [] s v = v
dispatch-IsSteady script r (none ∷ es) s v = v
dispatch-IsSteady script r (some fd ∷ es) s v =
    elim (Option-cases (find_handler fd s.table.handlers)) [
      | inl e ↦ rw (e, dispatch) v
      | inr (h, e) ↦
          let x = run_handler script r h h.callback s in
          let w = run_handler-IsSteady script r h h.callback s v in
          rw (e, dispatch)
            (continued (λ y. IsSteady y.0) x (dispatch script r es) (λ _ _. w)
              (λ _. dispatch-IsSteady script r es x.0 w))
    ]
