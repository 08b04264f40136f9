-- ===== src/Ioloop/Loop/PeriodicRound.antt =====
-- ioloop::process_periodic_timeouts with callbacks that call the loop as they like (src/ioloop.cpp).
use liblinuxpp.Prelude.{
  ℕ, zero, suc, ◌+◌, ◌≡◌, refl, ◌⊎◌, inl, inr, true, false, List, [], ◌∷◌, Option, none, some,
  arith, get_elem?, length, filter, All, All-append, All-filter, ◌++◌,
}
use liblinuxpp.Prelude.Sorted.{insert, insert-All}
use liblinuxpp.Ioloop.Entries.{erase, mark, insert_all}
use liblinuxpp.Ioloop.State.{PeriodicCallback, Periodics}
use liblinuxpp.Ioloop.Periodic
use liblinuxpp.Ioloop.Periodic.{due, kept, reset_processed, sort, id_of, marked}
use liblinuxpp.Ioloop.Loop.{
  Ioloop, Action, adds_periodic, removes_periodic, adds_callback, adds_timeout, removes_timeout,
  adds_handler, removes_handler, stops, Script, Invocation, called, invoke, perform, add_callback,
  stop, removed, set_processed, look_periodic, invoke_periodic, run_periodic,
  process_periodic_timeouts,
}
use liblinuxpp.Ioloop.Loop.TimeoutRound.{Found-cases}
use liblinuxpp.Ioloop.Loop.Perform.{perform_all_keeps}

-- A property that says nothing of the periodic timeouts, and that every callback keeps, is kept by
-- the loop.
pub run_periodic_keeps {ℓ} :
    (P : Ioloop → Type ℓ) (script : Script) (now : ℕ)
    → ((c : Invocation) (s : Ioloop) → P s → P (invoke script c s))
    → ((q : Periodics) (s : Ioloop) → P s → P (record s { periodic = q }))
    → (n i : ℕ) (s : Ioloop) → P s
    → P (run_periodic script now n i s)
unfolding run_periodic
run_periodic_keeps P script now keep other zero i s v = v
run_periodic_keeps P script now keep other (suc n) i s v =
    elim (Found-cases (look_periodic now (get_elem? s.periodic.periodic_timeouts i))) [
      | inl e ↦ rw (e, run_periodic) v
      | inr (inl e) ↦
          rw (e, run_periodic) (run_periodic_keeps P script now keep other n (suc i) s v)
      | inr (inr (inl (c, e))) ↦
          rw (e, run_periodic)
            (run_periodic_keeps P script now keep other n (suc i) _
              (keep (called c) _ (other _ s v)))
      | inr (inr (inr e)) ↦ rw (e, run_periodic) v
    ]

-- An entry that is at rest: not invoked in this round.
abbrev pub IsResting : PeriodicCallback → Type 0
IsResting t = t.processed ≡ false

-- The entries before the iterator were invoked or are removed; those from it on are at rest.
abbrev Split : ℕ → List PeriodicCallback → Type 0
Split i [] = Unit
Split zero (t ∷ ts) = IsResting t × All IsResting ts
Split (suc i) (t ∷ ts) = ((t.processed ≡ true) ⊎ (t.remove ≡ true)) × Split i ts

-- What a round keeps while it runs.
record Running (i : ℕ) (q : Periodics) : Type 0 where
  processing : q.processing ≡ true
  split : Split i q.periodic_timeouts
  fresh : All IsResting q.pending_additions

mark-resting :
    (h : ℕ) (ts : List PeriodicCallback) → All IsResting ts → All IsResting (mark id_of marked h ts)
mark-resting h [] a = a
mark-resting h (t ∷ ts) a = ground (arith, mark-resting h ts a.1)

mark-Split : (h i : ℕ) (ts : List PeriodicCallback) → Split i ts → Split i (mark id_of marked h ts)
mark-Split h i [] s = s
mark-Split h zero (t ∷ ts) s = ground (arith, mark-resting h ts s.1)
mark-Split h (suc i) (t ∷ ts) s = ground (arith, mark-Split h i ts s.1)

append-resting :
    (ts us : List PeriodicCallback) → All IsResting ts → All IsResting us → All IsResting (ts ++ us)
append-resting ts us a b = All-append IsResting ts us a b

pub erase-resting :
    (h : ℕ) (ts : List PeriodicCallback) → All IsResting ts → All IsResting (erase id_of h ts)
erase-resting h [] a = a
erase-resting h (t ∷ ts) a = ground (arith, erase-resting h ts a.1)

add-Running :
    (i : ℕ) (q : Periodics) (now period callback : ℕ)
    → Running i q
    → Running i (Periodic.add_periodic_timeout q now period callback).0
unfolding Periodic.add_periodic_timeout
add-Running i q now period callback r = ground (
  arith,
  append-resting q.pending_additions (Periodic.make q period (now + period) callback ∷ []) r.fresh
      (refl, tt),
)

remove-Running :
    (i : ℕ) (q : Periodics) (h : ℕ) → Running i q → Running i (Periodic.remove_periodic_timeout q h)
unfolding Periodic.remove_periodic_timeout
remove-Running i q h r = ground (arith, mark-Split h i q.periodic_timeouts r.split)

perform-Running :
    (i : ℕ) (a : Action) (s : Ioloop) → Running i s.periodic → Running i (perform a s).periodic
unfolding perform add_callback stop
perform-Running i (adds_periodic now period c) s r = add-Running i s.periodic now period c r
perform-Running i (removes_periodic h) s r = remove-Running i s.periodic h r
perform-Running i (adds_callback c e) s r = ground arith
perform-Running i (adds_timeout timeout c) s r = r
perform-Running i (removes_timeout h) s r = r
perform-Running i (adds_handler h e) s r = r
perform-Running i (removes_handler fd e) s r = r
perform-Running i (stops e) s r = r

invoke-Running :
    (script : Script) (c : Invocation) (i : ℕ) (s : Ioloop)
    → Running i s.periodic
    → Running i (invoke script c s).periodic
unfolding invoke
invoke-Running script c i s r =
    perform_all_keeps (λ u. Running i u.periodic) (perform-Running i) (script c s) _ r

rest-Split : (ts : List PeriodicCallback) → All IsResting ts → Split 0 ts
rest-Split [] a = tt
rest-Split (t ∷ ts) a = a

-- Moving the iterator past a removed entry, and past one that is invoked.
skip-Split :
    (i : ℕ) (ts : List PeriodicCallback) (t : PeriodicCallback)
    → get_elem? ts i ≡ some t
    → t.remove ≡ true
    → Split i ts
    → Split (suc i) ts
skip-Split i [] t e r s = tt
skip-Split zero (u ∷ ts) t e r s = (inr (ground arith), rest-Split ts s.1)
skip-Split (suc i) (u ∷ ts) t e r s = (s.0, skip-Split i ts t e r s.1)

set_processed-Split :
    (i : ℕ) (ts : List PeriodicCallback) → Split i ts → Split (suc i) (set_processed i ts)
set_processed-Split i [] s = tt
set_processed-Split zero (u ∷ ts) s = (inl refl, rest-Split ts s.1)
set_processed-Split (suc i) (u ∷ ts) s = (s.0, set_processed-Split i ts s.1)

look_periodic-removed :
    (now : ℕ) (o : Option PeriodicCallback)
    → look_periodic now o ≡ removed
    → (t : PeriodicCallback) × (o ≡ some t) × (t.remove ≡ true)
unfolding look_periodic
look_periodic-removed now none e = cc
look_periodic-removed now (some t) e = (t, refl, ground arith)

run_periodic-Running :
    (script : Script) (now n i : ℕ) (s : Ioloop)
    → Running i s.periodic
    → (j : ℕ) × Running j (run_periodic script now n i s).periodic
unfolding run_periodic
run_periodic-Running script now zero i s r = (i, r)
run_periodic-Running script now (suc n) i s r =
    elim (Found-cases (look_periodic now (get_elem? s.periodic.periodic_timeouts i))) [
      | inl e ↦ rw (e, run_periodic) (i, r)
      | inr (inl e) ↦
          let (t, at, gone) = look_periodic-removed now _ e in
          rw (e, run_periodic)
            (run_periodic-Running script now n (suc i) s (record {
              processing = r.processing;
              split = skip-Split i s.periodic.periodic_timeouts t at gone r.split;
              fresh = r.fresh;
            }))
      | inr (inr (inl (c, e))) ↦
          rw (e, run_periodic)
            (run_periodic-Running script now n (suc i) (invoke_periodic script i c s) (
              invoke-Running script (called c) (suc i) _ (record {
                processing = r.processing;
                split = set_processed-Split i s.periodic.periodic_timeouts r.split;
                fresh = r.fresh;
              })))
      | inr (inr (inr e)) ↦ rw (e, run_periodic) (i, r)
    ]

filter-resting :
    (now : ℕ) (ts : List PeriodicCallback)
    → All IsResting ts
    → All IsResting (reset_processed now (filter kept ts))
filter-resting now [] a = tt
filter-resting now (t ∷ ts) a =
    ground (arith, filter-resting now ts a.1, All-filter IsResting kept ts a.1)

-- Resetting what is kept leaves no entry marked as processed.
reset_processed-resting :
    (now i : ℕ) (ts : List PeriodicCallback)
    → Split i ts
    → All IsResting (reset_processed now (filter kept ts))
reset_processed-resting now i [] s = tt
reset_processed-resting now zero (t ∷ ts) s = filter-resting now (t ∷ ts) s
reset_processed-resting now (suc i) (t ∷ ts) s =
    ground (arith, reset_processed-resting now i ts s.1)

sort-resting : (ts : List PeriodicCallback) → All IsResting ts → All IsResting (sort ts)
sort-resting [] a = tt
sort-resting (t ∷ ts) a = insert-All due IsResting t (sort ts) a.0 (sort-resting ts a.1)

insert_all-resting :
    (ps ts : List PeriodicCallback)
    → All IsResting ps
    → All IsResting ts
    → All IsResting (insert_all due ps ts)
insert_all-resting [] ts a b = b
insert_all-resting (p ∷ ps) ts a b =
    insert_all-resting ps (insert due p ts) a.1 (insert-All due IsResting p ts a.0 b)

-- Whatever the callbacks do, a round that starts with no periodic entry, pending ones included,
-- marked as processed ends with none in the vector so marked, with the vector sorted and the timer set
-- no later than the earliest timeout.
pub process_periodic_timeouts-IsResting :
    (script : Script) (now reset_now : ℕ) (s : Ioloop)
    → All IsResting s.periodic.periodic_timeouts
    → All IsResting s.periodic.pending_additions
    → let u = process_periodic_timeouts script now reset_now s in
      All IsResting u.periodic.periodic_timeouts × Periodic.Order.Inv u.periodic
unfolding process_periodic_timeouts Periodic.finish_processing
process_periodic_timeouts-IsResting script now reset_now s a b =
    let begun = record s { periodic = record (s.periodic) { timerfd = none; processing = true } } in
    let after = run_periodic script now (length s.periodic.periodic_timeouts) 0 begun in
    let (j, r) =
      run_periodic-Running script now (length s.periodic.periodic_timeouts) 0 begun
        (record { processing = refl; split = rest-Split _ a; fresh = b }) in
    (
      insert_all-resting after.periodic.pending_additions _ r.fresh (
          sort-resting _
            (reset_processed-resting reset_now j after.periodic.periodic_timeouts r.split)),
      Periodic.Order.finish_processing-Inv reset_now after.periodic,
    )
