-- ===== src/Ioloop/Loop/CallbackRound.antt =====
-- ioloop::process_callbacks on a batch of callbacks (src/ioloop.cpp).
use mathlib.Core.List.{append_assoc, append-nil}
use liblinuxpp.Prelude.{
  ℕ, ◌≡◌, ◌≢◌, refl, sym, ap, ◌∙◌, List, [], ◌∷◌, ◌++◌, map, some, none, ◌==◌, Bool-cases, inl, inr,
  arith,
}
use liblinuxpp.Ioloop.Loop.{
  Ioloop, Script, Action, adds_callback, adds_timeout, removes_timeout, adds_periodic,
  removes_periodic, adds_handler, removes_handler, stops, called, invoke, invoke_all, perform,
  perform_all, add_callback, stop, eagain, eventfd_read_failed, process_callbacks,
}
use liblinuxpp.Ioloop.Loop.Perform.{invoke-calls}

-- The callbacks that are given to add_callback, in order.
abbrev pub added_by : List Action → List ℕ
added_by [] = []
added_by (adds_callback c errno ∷ actions) = c ∷ added_by actions
added_by (_ ∷ actions) = added_by actions

-- Those that a batch of callbacks gives to it, each callback in the state that it finds.
abbrev pub added_in : Script → List ℕ → Ioloop → List ℕ
added_in script [] s = []
added_in script (c ∷ cs) s =
    added_by (script (called c) s) ++ added_in script cs (invoke script (called c) s)

invoke_all-calls :
    (script : Script) (cs : List ℕ) (s : Ioloop)
    → (invoke_all script cs s).calls ≡ s.calls ++ map called cs
unfolding invoke_all
invoke_all-calls script [] s = sym (append-nil s.calls)
invoke_all-calls script (c ∷ cs) s =
    invoke_all-calls script cs (invoke script (called c) s)
    ∙ ap (λ l. l ++ map called cs) (invoke-calls script (called c) s)
    ∙ append_assoc s.calls (called c ∷ []) (map called cs)

perform-new :
    (a : Action) (s : Ioloop) → (perform a s).new_callbacks ≡ s.new_callbacks ++ added_by (a ∷ [])
unfolding perform add_callback stop
perform-new (adds_callback c errno) s = ground arith
perform-new (adds_timeout timeout c) s = sym (append-nil s.new_callbacks)
perform-new (removes_timeout h) s = sym (append-nil s.new_callbacks)
perform-new (adds_periodic now period c) s = sym (append-nil s.new_callbacks)
perform-new (removes_periodic h) s = sym (append-nil s.new_callbacks)
perform-new (adds_handler h errno) s = sym (append-nil s.new_callbacks)
perform-new (removes_handler fd errno) s = sym (append-nil s.new_callbacks)
perform-new (stops errno) s = sym (append-nil s.new_callbacks)

added_by-cons :
    (a : Action) (actions : List Action)
    → added_by (a ∷ actions) ≡ added_by (a ∷ []) ++ added_by actions
added_by-cons (adds_callback c errno) actions = refl
added_by-cons (adds_timeout timeout c) actions = refl
added_by-cons (removes_timeout h) actions = refl
added_by-cons (adds_periodic now period c) actions = refl
added_by-cons (removes_periodic h) actions = refl
added_by-cons (adds_handler h errno) actions = refl
added_by-cons (removes_handler fd errno) actions = refl
added_by-cons (stops errno) actions = refl

perform_all-new :
    (actions : List Action) (s : Ioloop)
    → (perform_all actions s).new_callbacks ≡ s.new_callbacks ++ added_by actions
unfolding perform_all
perform_all-new [] s = sym (append-nil s.new_callbacks)
perform_all-new (a ∷ actions) s =
    perform_all-new actions (perform a s)
    ∙ ap (λ l. l ++ added_by actions) (perform-new a s)
    ∙ append_assoc s.new_callbacks (added_by (a ∷ [])) (added_by actions)
    ∙ ap (λ l. s.new_callbacks ++ l) (sym (added_by-cons a actions))

invoke_all-new :
    (script : Script) (cs : List ℕ) (s : Ioloop)
    → (invoke_all script cs s).new_callbacks ≡ s.new_callbacks ++ added_in script cs s
unfolding invoke_all invoke
invoke_all-new script [] s = sym (append-nil s.new_callbacks)
invoke_all-new script (c ∷ cs) s =
    let u = invoke script (called c) s in
    invoke_all-new script cs u
    ∙ ap (λ l. l ++ added_in script cs u) (perform_all-new (script (called c) s) _)
    ∙ append_assoc s.new_callbacks (added_by (script (called c) s)) (added_in script cs u)

-- Whatever the callbacks do, a round of process_callbacks throws and changes nothing where the
-- eventfd has not been written, and otherwise throws nothing, calls exactly the callbacks that were
-- waiting when it began, each once and in the order in which they were added, and leaves waiting
-- exactly those that they gave to add_callback meanwhile, in order.
pub process_callbacks_lem :
    (script : Script) (s : Ioloop)
    → let (u, thrown) = process_callbacks script s in
      let begun = record s { callbacks_eventfd = 0; new_callbacks = [] } in
      (s.callbacks_eventfd ≡ 0 → (u ≡ s) × (thrown ≡ some (eventfd_read_failed eagain)))
      × (s.callbacks_eventfd ≢ 0
          → (thrown ≡ none)
            × (u.calls ≡ s.calls ++ map called s.new_callbacks)
            × (u.new_callbacks ≡ added_in script s.new_callbacks begun))
unfolding process_callbacks
process_callbacks_lem script s = elim (Bool-cases (s.callbacks_eventfd == 0)) [
  | inl dry ↦ rw dry ((λ e. (refl, refl)), λ n. absurd (n (ground (arith, dry))))
  | inr full ↦
      let begun = record s { callbacks_eventfd = 0; new_callbacks = [] } in
      rw full (
        (λ e. ground (arith, full)),
        λ n. (
          refl,
          invoke_all-calls script s.new_callbacks begun,
          invoke_all-new script s.new_callbacks begun,
        ),
      )
]
