-- ===== src/Ioloop/Loop/Perform.antt =====
-- What the operations that a callback may call leave alone (src/ioloop.cpp).
use liblinuxpp.Prelude.{ℕ, ◌≡◌, refl, ◌∙◌, true, List, [], ◌∷◌, ◌++◌, arith, map}
use liblinuxpp.Ioloop.Entries.Laws.{map-mark}
use liblinuxpp.Ioloop.State.{TimeoutCallback, Timeouts}
use liblinuxpp.Ioloop.Timeouts
use liblinuxpp.Ioloop.Periodic
use liblinuxpp.Ioloop.Loop.{
  Ioloop, Action, adds_timeout, removes_timeout, adds_periodic, removes_periodic, adds_handler,
  removes_handler, adds_callback, stops, Script, Invocation, add_callback, stop, perform,
  perform_all, invoke,
}

-- A property of states that every operation keeps is kept by a callback.
pub perform_all_keeps {ℓ} :
    (P : Ioloop → Type ℓ)
    → ((a : Action) (s : Ioloop) → P s → P (perform a s))
    → (actions : List Action) (s : Ioloop) → P s
    → P (perform_all actions s)
unfolding perform_all
perform_all_keeps P keep [] s h = h
perform_all_keeps P keep (a ∷ actions) s h =
    perform_all_keeps P keep actions (perform a s) (keep a s h)

-- Every operation that a callback may call, the adding and removing of one-shot timeouts included,
-- keeps the invariant of the one-shot timeouts, while they are processed or not: the vector is
-- sorted and, outside of processing, the timer is set no later than the earliest timeout and
-- nothing is pending.
pub perform-one-Inv :
    (a : Action) (s : Ioloop) → Timeouts.Order.Inv s.one → Timeouts.Order.Inv (perform a s).one
unfolding perform add_callback stop
perform-one-Inv (adds_timeout timeout callback) s v =
    Timeouts.Order.add_timeout-Inv s.one timeout callback v
perform-one-Inv (removes_timeout h) s v = Timeouts.Order.remove_timeout-Inv s.one h v
perform-one-Inv (adds_callback c e) s v = ground arith
perform-one-Inv (adds_periodic now period c) s v = v
perform-one-Inv (removes_periodic h) s v = v
perform-one-Inv (adds_handler h e) s v = v
perform-one-Inv (removes_handler fd e) s v = v
perform-one-Inv (stops e) s v = v

-- Every operation that a callback may call, the adding and removing of periodic timeouts included,
-- keeps the invariant of the periodic timeouts, while they are processed or not: the vector is
-- sorted and, outside of processing, the timer is set no later than the earliest timeout and
-- nothing is pending.
pub perform-periodic-Inv :
    (a : Action) (s : Ioloop)
    → Periodic.Order.Inv s.periodic
    → Periodic.Order.Inv (perform a s).periodic
unfolding perform add_callback stop
perform-periodic-Inv (adds_periodic now period c) s v =
    Periodic.Order.add_periodic_timeout-Inv s.periodic now period c v
perform-periodic-Inv (removes_periodic h) s v =
    Periodic.Order.remove_periodic_timeout-Inv s.periodic h v
perform-periodic-Inv (adds_callback c e) s v = ground arith
perform-periodic-Inv (adds_timeout timeout callback) s v = v
perform-periodic-Inv (removes_timeout h) s v = v
perform-periodic-Inv (adds_handler h e) s v = v
perform-periodic-Inv (removes_handler fd e) s v = v
perform-periodic-Inv (stops e) s v = v

pub perform-calls : (a : Action) (s : Ioloop) → (perform a s).calls ≡ s.calls
unfolding perform add_callback stop
perform-calls (stops e) s = refl
perform-calls (adds_callback c e) s = ground arith
perform-calls _ s = refl

-- The order in which a round of timeouts sees due times and callbacks.
abbrev pub face : TimeoutCallback → ℕ × ℕ
face t = (t.timeout, t.callback)

-- What stays as it is while one-shot timeouts are processed: the flag and the faces of the entries.
pub record Frozen (shape : List (ℕ × ℕ)) (q : Timeouts) : Type 0 where
  pub processing : q.processing ≡ true
  pub faces : map face q.timeouts ≡ shape

add_timeout-Frozen :
    (shape : List (ℕ × ℕ)) (q : Timeouts) (timeout callback : ℕ)
    → Frozen shape q
    → Frozen shape (Timeouts.add_timeout q timeout callback).0
unfolding Timeouts.add_timeout
add_timeout-Frozen shape q timeout callback f = ground arith

remove_timeout-Frozen :
    (shape : List (ℕ × ℕ)) (q : Timeouts) (h : ℕ)
    → Frozen shape q
    → Frozen shape (Timeouts.remove_timeout q h)
unfolding Timeouts.remove_timeout
remove_timeout-Frozen shape q h f =
    ground (arith, map-mark Timeouts.id_of Timeouts.marked face (λ t. refl) h q.timeouts)

pub perform-one-Frozen :
    (shape : List (ℕ × ℕ)) (a : Action) (s : Ioloop)
    → Frozen shape s.one
    → Frozen shape (perform a s).one
unfolding perform add_callback stop
perform-one-Frozen shape (adds_timeout timeout callback) s v =
    add_timeout-Frozen shape s.one timeout callback v
perform-one-Frozen shape (removes_timeout h) s v = remove_timeout-Frozen shape s.one h v
perform-one-Frozen shape (adds_callback c e) s v = ground arith
perform-one-Frozen shape (adds_periodic now period c) s v = v
perform-one-Frozen shape (removes_periodic h) s v = v
perform-one-Frozen shape (adds_handler h e) s v = v
perform-one-Frozen shape (removes_handler fd e) s v = v
perform-one-Frozen shape (stops e) s v = v

-- A callback changes nothing of these but the record of calls, by one entry.
module _ (script : Script) (c : Invocation) (s : Ioloop) where
  pub invoke-one-Inv : Timeouts.Order.Inv s.one → Timeouts.Order.Inv (invoke script c s).one
  unfolding invoke
  invoke-one-Inv v =
      perform_all_keeps (λ u. Timeouts.Order.Inv u.one) perform-one-Inv (script c s) _ v

  pub invoke-periodic-Inv :
      Periodic.Order.Inv s.periodic → Periodic.Order.Inv (invoke script c s).periodic
  unfolding invoke
  invoke-periodic-Inv v =
      perform_all_keeps (λ u. Periodic.Order.Inv u.periodic) perform-periodic-Inv (script c s) _ v

  pub invoke-one-Frozen :
      (shape : List (ℕ × ℕ)) → Frozen shape s.one → Frozen shape (invoke script c s).one
  unfolding invoke
  invoke-one-Frozen shape v =
      perform_all_keeps (λ u. Frozen shape u.one) (perform-one-Frozen shape) (script c s) _ v

  pub invoke-calls : (invoke script c s).calls ≡ s.calls ++ c ∷ []
  unfolding invoke
  invoke-calls =
      perform_all_keeps (λ u. u.calls ≡ s.calls ++ c ∷ []) (λ a u e. perform-calls a u ∙ e)
        (script c s) _ refl
