-- ===== src/Ioloop/Start/Rounds.antt =====
-- Every round of ioloop::start, and every state that it reaches (src/ioloop.cpp).
use liblinuxpp.Prelude.{
  ℕ, ◌≡◌, refl, sym, ◌∙◌, Bool, true, false, List, [], ◌∷◌, Option, none, some, arith, inl, inr,
  Bool-cases, Option-cases, map, ◌==◌, if◌then◌else◌,
}
use liblinuxpp.Ioloop.State.{
  Handler, Handlers, callbacks_function, stop_function, timeouts_function, periodic_function,
}
use liblinuxpp.Ioloop.Handlers
use liblinuxpp.Ioloop.Handlers.Laws.{
  prune_ok, add_handler-IsDistinct, IsDistinct, prune-IsDistinct, prune-processing,
}
use liblinuxpp.Ioloop.Loop
use liblinuxpp.Ioloop.Loop.{Ioloop, Script}
use liblinuxpp.Ioloop.Start.{
  Round, Wait, ready, failed, Outcome, next, threw, handler_threw, dangled, Progress, returned,
  waiting, failed_with, failed_in_handler, undefined_behaviour, end_round, resize, Descriptors,
  and_add, internal, no_handlers, construct, eintr, finish_round, dispatch_round, round_by, round,
  run_rounds, start,
}
use liblinuxpp.Ioloop.Start.Steady.{IsSteady, dispatch-IsSteady}

record IsIdle (t : Handlers) : Type 0 where
  idle : t.processing ≡ false
  unmarked : t.removed_handlers ≡ []
  distinct : IsDistinct t.handlers

-- A loop between two rounds: nothing is being processed and no handler is marked for removal.
pub record Settled (s : Ioloop) : Type 0 where
  pub steady : IsSteady s
  pub idle : s.table.processing ≡ false
  pub unmarked : s.table.removed_handlers ≡ []

abbrev pub After : Outcome → Type 0
After (next u es) = Settled u
After (threw e u) = IsSteady u
After (handler_threw e u) = IsSteady u
After (dangled u) = IsSteady u

abbrev pub Reached : Progress → Type 0
Reached (returned u) = Settled u
Reached (waiting u) = Settled u
Reached (failed_with e u) = IsSteady u
Reached (failed_in_handler e u) = IsSteady u
Reached (undefined_behaviour u) = IsSteady u

finish_round-After :
    (fds : List ℕ) (r : Round) (es : List (Option ℕ)) (s : Ioloop)
    → fds ≡ s.table.removed_handlers
    → IsSteady s
    → s.table.processing ≡ false
    → After (finish_round fds r es s)
unfolding finish_round
finish_round-After [] r es s e v idle = record { steady = v; idle = idle; unmarked = sym e }
finish_round-After (fd ∷ fds) r es s e v idle =
    elim (Option-cases (Handlers.prune r.answer s.table).1) [
      | inl ok ↦
          rw (ok, finish_round)
            (record {
              steady = record {
                one_inv = v.one_inv;
                one_idle = v.one_idle;
                periodic_inv = v.periodic_inv;
                at_rest = v.at_rest;
                distinct = prune-IsDistinct r.answer s.table v.distinct;
              };
              idle = prune-processing r.answer s.table ∙ idle;
              unmarked = (prune_ok r.answer s.table 0 v.distinct ok).0;
            })
      | inr (x, thrown) ↦
          rw (thrown, finish_round)
            (record {
              one_inv = v.one_inv;
              one_idle = v.one_idle;
              periodic_inv = v.periodic_inv;
              at_rest = v.at_rest;
              distinct = prune-IsDistinct r.answer s.table v.distinct;
            })
    ]

end_round-After :
    (dangles : Bool) (thrown : Option Loop.Error) (r : Round) (es : List (Option ℕ)) (s : Ioloop)
    → IsSteady s
    → s.table.processing ≡ false
    → After (end_round dangles thrown r es s)
unfolding end_round
end_round-After true thrown r es s v idle = v
end_round-After false (some e) r es s v idle = v
end_round-After false none r es s v idle =
    finish_round-After s.table.removed_handlers r es s refl v idle

dispatch_round-After :
    (script : Script) (r : Round) (es : List (Option ℕ)) (s : Ioloop)
    → IsSteady s
    → After (dispatch_round script r es s)
unfolding dispatch_round
dispatch_round-After script r es s v =
    end_round-After _ _ r es _
      (dispatch-IsSteady script r es (record s { table = record (s.table) { processing = true } })
        v)
      refl

round_by-After :
    (w : Wait) (script : Script) (r : Round) (es : List (Option ℕ)) (s : Ioloop)
    → Settled s
    → After (round_by w script r es s)
unfolding round_by
round_by-After (ready fds) script r es s v = dispatch_round-After script r (map some fds) s v.steady
round_by-After (failed errno) script r es s v = elim (Bool-cases (errno == eintr)) [
  | inl e ↦ rw e v
  | inr e ↦ rw e (dispatch_round-After script r (resize s.table.size_events es) s v.steady)
]

round-After :
    (script : Script) (r : Round) (es : List (Option ℕ)) (s : Ioloop)
    → Settled s
    → After (round script r es s)
unfolding round
round-After script r es s v = round_by-After r.wait script r es s v

last-Reached : (b : Bool) (s : Ioloop) → Settled s → Reached (if b then waiting s else returned s)
last-Reached true s v = v
last-Reached false s v = v

test-Reached :
    (b : Bool) (s : Ioloop) (p : Progress)
    → Settled s
    → Reached p
    → Reached (elim b [ false ↦ returned s | true ↦ p ])
test-Reached true s p v w = w
test-Reached false s p v w = v

outcome-Reached :
    (more : List (Option ℕ) → Ioloop → Progress) (o : Outcome)
    → After o
    → ((es : List (Option ℕ)) (u : Ioloop) → Settled u → Reached (more es u))
    → Reached (elim o [
      | next u es ↦ more es u
      | threw e u ↦ failed_with e u
      | handler_threw e u ↦ failed_in_handler e u
      | dangled u ↦ undefined_behaviour u
    ])
outcome-Reached more (next u es) v w = w es u v
outcome-Reached more (threw e u) v w = v
outcome-Reached more (handler_threw e u) v w = v
outcome-Reached more (dangled u) v w = v

run_rounds-Reached :
    (script : Script) (rs : List Round) (es : List (Option ℕ)) (s : Ioloop)
    → Settled s
    → Reached (run_rounds script rs es s)
run_rounds-Reached script [] es s v = last-Reached s.keep_running s v
run_rounds-Reached script (r ∷ rs) es s v = test-Reached s.keep_running s _ v (
    outcome-Reached (run_rounds script rs) (round script r es s) (round-After script r es s v)
      (run_rounds-Reached script rs))

-- Whatever the callbacks, the clock and the kernel do, every state that start reaches from a
-- settled one is settled, be it waiting for events or having returned; where pruning or a handler
-- throws, or a pointer that dangles is followed, the groups of members still satisfy their
-- invariants.
pub start-Reached :
    (script : Script) (rs : List Round) (es : List (Option ℕ)) (s : Ioloop)
    → Settled s
    → Reached (start script rs es s)
unfolding start
start-Reached script rs es s v =
    run_rounds-Reached script rs es (record s { keep_running = true })
      (record { steady = v.steady; idle = v.idle; unmarked = v.unmarked })

and_add-IsIdle :
    (r : Handlers × Option Handlers.Error) (h : Handler) (errno : ℕ)
    → IsIdle r.0
    → IsIdle (and_add r h errno).0
unfolding Handlers.add_handler
and_add-IsIdle (t, some e) h errno v = v
and_add-IsIdle (t, none) h errno v = record {
  idle = ground (arith, v.idle);
  unmarked = ground (arith, v.unmarked);
  distinct = add_handler-IsDistinct t h errno v.distinct;
}

-- A loop that has been constructed is settled.
pub construct-Settled : (d : Descriptors) → Settled (construct d).0
unfolding construct
construct-Settled d =
    let r1 =
      and_add (no_handlers, none) (internal d.callbacks_fd callbacks_function) (d.answer 0) in
    let r2 = and_add r1 (internal d.stop_fd stop_function) (d.answer 1) in
    let r3 = and_add r2 (internal d.timeout_fd timeouts_function) (d.answer 2) in
    let v0 : IsIdle no_handlers = record { idle = refl; unmarked = refl; distinct = tt } in
    let v1 =
      and_add-IsIdle (no_handlers, none) (internal d.callbacks_fd callbacks_function) (d.answer 0)
        v0 in
    let v2 = and_add-IsIdle r1 (internal d.stop_fd stop_function) (d.answer 1) v1 in
    let v3 = and_add-IsIdle r2 (internal d.timeout_fd timeouts_function) (d.answer 2) v2 in
    let v = and_add-IsIdle r3 (internal d.periodic_fd periodic_function) (d.answer 3) v3 in
    record {
      steady = record {
        one_inv = record { sorted = tt; armed = λ _. tt; settled = λ _. refl };
        one_idle = refl;
        periodic_inv = record { sorted = tt; armed = λ _. tt; settled = λ _. refl };
        at_rest = record { idle = refl; timeouts = tt; added = tt };
        distinct = v.distinct;
      };
      idle = v.idle;
      unmarked = v.unmarked;
    }
