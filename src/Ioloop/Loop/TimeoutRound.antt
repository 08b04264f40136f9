-- ===== src/Ioloop/Loop/TimeoutRound.antt =====
-- ioloop::process_timeouts with callbacks that call the loop as they like (src/ioloop.cpp).
use mathlib.Core.List.{append_assoc, append-nil}
use mathlib.Core.Path.{subst}
use liblinuxpp.Prelude.{
  ℕ, zero, suc, ◌≤◌, ◌≡◌, refl, sym, ap, ◌∙◌, ◌⊎◌, inl, inr, true, List, [], ◌∷◌, ◌++◌, map, Option,
  none, some, arith, get_elem?, length, drop, drop-get_elem?, drop-map,
}
use liblinuxpp.Ioloop.State.{TimeoutCallback, Timeouts}
use liblinuxpp.Ioloop.Timeouts
use liblinuxpp.Ioloop.Loop.{
  Ioloop, Script, Invocation, called, invoke, Found, ended, removed, expired, later, look,
  run_expired, process_timeouts,
}
use liblinuxpp.Ioloop.Loop.Perform.{face, Frozen, invoke-one-Inv, invoke-one-Frozen, invoke-calls}

pub Found-cases :
    (f : Found) → (f ≡ ended) ⊎ (f ≡ removed) ⊎ ((c : ℕ) × (f ≡ expired c)) ⊎ (f ≡ later)
Found-cases ended = inl refl
Found-cases removed = inr (inl refl)
Found-cases (expired c) = inr (inr (inl (c, refl)))
Found-cases later = inr (inr (inr refl))

-- A property that every callback keeps is kept by the loop.
pub run_expired_keeps {ℓ} :
    (P : Ioloop → Type ℓ) (script : Script) (now : ℕ)
    → ((c : Invocation) (s : Ioloop) → P s → P (invoke script c s))
    → (n i : ℕ) (s : Ioloop) → P s
    → P (run_expired script now n i s).0
unfolding run_expired
run_expired_keeps P script now keep zero i s h = h
run_expired_keeps P script now keep (suc n) i s h =
    elim (Found-cases (look now (get_elem? s.one.timeouts i))) [
      | inl e ↦ rw (e, run_expired) h
      | inr (inl e) ↦ rw (e, run_expired) (run_expired_keeps P script now keep n (suc i) s h)
      | inr (inr (inl (c, e))) ↦
          rw (e, run_expired)
            (run_expired_keeps P script now keep n (suc i) (invoke script (called c) s)
              (keep (called c) s h))
      | inr (inr (inr e)) ↦ rw (e, run_expired) h
    ]

-- A round of process_timeouts on timeouts that satisfy their invariant keeps the vector sorted,
-- settles what the callbacks added, and leaves the timer set no later than the earliest timeout,
-- whatever the callbacks do.
pub process_timeouts-Inv :
    (script : Script) (now : ℕ) (s : Ioloop)
    → Timeouts.Order.Inv s.one
    → Timeouts.Order.Inv (process_timeouts script now s).one
unfolding process_timeouts
process_timeouts-Inv script now s v =
    Timeouts.Order.finish_processing-Inv _ _
      (run_expired_keeps (λ u. Timeouts.Order.Inv u.one) script now
        (λ c u. invoke-one-Inv script c u) (length s.one.timeouts) 0 _ begun).sorted
  where
    begun : Timeouts.Order.Inv (record (s.one) { timerfd = none; processing = true })
    begun = record { sorted = v.sorted; armed = λ e. cc; settled = λ e. cc }

-- Callbacks picked in order from the faces of entries that have expired.
pub data Fires (now : ℕ) : List (ℕ × ℕ) → List ℕ → Type 0 where
  stop : {faces : List (ℕ × ℕ)} → Fires now faces []
  skip :
      {f : ℕ × ℕ} {faces : List (ℕ × ℕ)} {cs : List ℕ}
      → Fires now faces cs
      → Fires now (f ∷ faces) cs
  fire :
      {f : ℕ × ℕ} {faces : List (ℕ × ℕ)} {cs : List ℕ}
      → f.0 ≤ now
      → Fires now faces cs
      → Fires now (f ∷ faces) (f.1 ∷ cs)

-- The callbacks that a run from the state `s` to the state `u` has called are picked in order from
-- those of the entries with these faces, each of an entry that has expired.
abbrev pub Round : ℕ → List (ℕ × ℕ) → Ioloop → Ioloop → Type 0
Round now faces s u = (cs : List ℕ) × (u.calls ≡ s.calls ++ map called cs) × Fires now faces cs

drop-face :
    (shape : List (ℕ × ℕ)) (q : Timeouts) (i : ℕ) {t : TimeoutCallback}
    → Frozen shape q
    → get_elem? q.timeouts i ≡ some t
    → drop i shape ≡ face t ∷ drop (suc i) shape
drop-face shape q i f e = rw (sym f.faces) (
    rw (drop-map face i q.timeouts, drop-map face (suc i) q.timeouts)
      (ap (map face) (drop-get_elem? i q.timeouts e)))

look-removed :
    (now : ℕ) (o : Option TimeoutCallback)
    → look now o ≡ removed
    → (t : TimeoutCallback) × (o ≡ some t)
unfolding look
look-removed now none e = cc
look-removed now (some t) e = (t, refl)

look-expired :
    (now : ℕ) (o : Option TimeoutCallback) (c : ℕ)
    → look now o ≡ expired c
    → (t : TimeoutCallback) × (o ≡ some t) × (t.callback ≡ c) × (t.timeout ≤ now)
unfolding look
look-expired now none c e = cc
look-expired now (some t) c e = (t, refl, ground arith, ground arith)

run_expired_fires :
    (script : Script) (now : ℕ) (shape : List (ℕ × ℕ)) (n i : ℕ) (s : Ioloop)
    → Frozen shape s.one
    → Round now (drop i shape) s (run_expired script now n i s).0
unfolding run_expired
run_expired_fires script now shape zero i s f = ([], sym (append-nil s.calls), stop)
run_expired_fires script now shape (suc n) i s f =
    elim (Found-cases (look now (get_elem? s.one.timeouts i))) [
      | inl e ↦ rw (e, run_expired) ([], sym (append-nil s.calls), stop)
      | inr (inl e) ↦
          let (t, at) = look-removed now _ e in
          let (cs, eq, fires) = run_expired_fires script now shape n (suc i) s f in
          rw (e, run_expired) (rw (drop-face shape s.one i f at) (cs, eq, skip fires))
      | inr (inr (inl (c, e))) ↦
          let (t, at, same, past) = look-expired now _ c e in
          let u = invoke script (called c) s in
          let (cs, eq, fires) =
            run_expired_fires script now shape n (suc i) u
              (invoke-one-Frozen script (called c) s shape f) in
          rw (e, run_expired)
            (rw (drop-face shape s.one i f at) (
              c ∷ cs,
              eq
                  ∙ ap (λ l. l ++ map called cs) (invoke-calls script (called c) s)
                  ∙ append_assoc s.calls (called c ∷ []) (map called cs),
              subst (λ k. Fires now (face t ∷ drop (suc i) shape) (k ∷ cs)) same (fire past fires),
            ))
      | inr (inr (inr e)) ↦ rw (e, run_expired) ([], sym (append-nil s.calls), stop)
    ]

-- Whatever the callbacks do, a round of process_timeouts calls callbacks of entries that were in
-- the vector when it began and whose time has come, each entry at most once and in the vector's
-- order, and no others.
pub process_timeouts_fires :
    (script : Script) (now : ℕ) (s : Ioloop)
    → Round now (map face s.one.timeouts) s (process_timeouts script now s)
unfolding process_timeouts
process_timeouts_fires script now s =
    run_expired_fires script now (map face s.one.timeouts) (length s.one.timeouts) 0
      (record s { one = record (s.one) { timerfd = none; processing = true } })
      (record { processing = refl; faces = refl })
