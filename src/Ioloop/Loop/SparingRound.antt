-- ===== src/Ioloop/Loop/SparingRound.antt =====
-- ioloop::process_timeouts where the callbacks leave the one-shot timeouts alone (src/ioloop.cpp): which
-- callbacks it calls, and which timeouts it keeps.
use mathlib.Core.List.{append_assoc, append-nil}
use liblinuxpp.Prelude.{
  ℕ, suc, ◌≤◌, ◌<◌, ◌≡◌, refl, sym, ap, ◌∙◌, inl, inr, Bool, true, false, not, List, [], ◌∷◌, ◌++◌,
  map, none, some, arith, leb, length, drop, get_elem?-drop, drop-suc, Bool-cases, filter, All,
  All-drop, All-filter,
}
use liblinuxpp.Prelude.Sorted.{IsSorted}
use liblinuxpp.Ioloop.Entries.{insert_all}
use liblinuxpp.Ioloop.State.{TimeoutCallback, Timeouts}
use liblinuxpp.Ioloop.Timeouts
use liblinuxpp.Ioloop.Timeouts.{due, kept}
use liblinuxpp.Ioloop.Loop.{
  Ioloop, Script, Invocation, called, invoke, expired, later, look, run_expired, process_timeouts,
}
use liblinuxpp.Ioloop.Loop.Perform.{invoke-calls}

abbrev pub is_expired : ℕ → TimeoutCallback → Bool
is_expired now t = leb t.timeout now

abbrev pub is_later : ℕ → TimeoutCallback → Bool
is_later now t = not (leb t.timeout now)

abbrev pub IsKept : TimeoutCallback → Type 0
IsKept t = t.remove ≡ false

-- Callbacks that do not add or remove one-shot timeouts.
abbrev pub Spares : Script → Type 0
Spares script = (c : Invocation) (s : Ioloop) → (invoke script c s).one ≡ s.one

filter-kept : (ts : List TimeoutCallback) → All IsKept ts → filter kept ts ≡ ts
filter-kept [] a = refl
filter-kept (t ∷ ts) a = ground (arith, filter-kept ts a.1)

filter-later :
    (now : ℕ) (ts : List TimeoutCallback)
    → All (λ t. now < due t) ts
    → (filter (is_expired now) ts ≡ []) × (filter (is_later now) ts ≡ ts)
filter-later now [] a = (refl, refl)
filter-later now (t ∷ ts) a = ground (arith, filter-later now ts a.1)

All-lt :
    (now : ℕ) (t : TimeoutCallback) (ts : List TimeoutCallback)
    → now < due t
    → All (λ u. due t ≤ due u) ts
    → All (λ u. now < due u) ts
All-lt now t [] h a = tt
All-lt now t (u ∷ ts) h a = (omega arith, All-lt now t ts h a.1)

filter-past :
    (now : ℕ) (t : TimeoutCallback) (ts : List TimeoutCallback)
    → leb t.timeout now ≡ true
    → (filter (is_expired now) (t ∷ ts) ≡ t ∷ filter (is_expired now) ts)
      × (filter (is_later now) (t ∷ ts) ≡ filter (is_later now) ts)
filter-past now t ts h = ground arith

look-past :
    (now : ℕ) (t : TimeoutCallback)
    → t.remove ≡ false
    → leb t.timeout now ≡ true
    → look now (some t) ≡ expired t.callback
unfolding look
look-past now t r h = ground arith

look-later :
    (now : ℕ) (t : TimeoutCallback)
    → t.remove ≡ false
    → leb t.timeout now ≡ false
    → look now (some t) ≡ later
unfolding look
look-later now t r h = ground arith

module _ (script : Script) (spares : Spares script) (now : ℕ) where
  Ran : List TimeoutCallback → Ioloop → Ioloop × ℕ → Type 0
  Ran ts s r =
      (r.0.calls ≡ s.calls ++ map (λ t. called t.callback) (filter (is_expired now) ts))
      × (r.0.one ≡ s.one)
      × (drop r.1 s.one.timeouts ≡ drop 1 (filter (is_later now) ts))

  Ran-past :
      (t : TimeoutCallback) (ts : List TimeoutCallback) (s : Ioloop) (r : Ioloop × ℕ)
      → leb t.timeout now ≡ true
      → Ran ts (invoke script (called t.callback) s) r
      → Ran (t ∷ ts) s r
  unfolding Ran
  Ran-past t ts s r h (calls, one, left) = (
    calls
        ∙ ap (λ l. l ++ map (λ u. called u.callback) (filter (is_expired now) ts))
            (invoke-calls script (called t.callback) s)
        ∙ append_assoc s.calls _ _
        ∙ ap (λ us. s.calls ++ map (λ u. called u.callback) us) (sym (filter-past now t ts h).0),
    one ∙ spares (called t.callback) s,
    ap (λ (q : Timeouts). drop r.1 q.timeouts) (sym (spares (called t.callback) s))
        ∙ left
        ∙ ap (λ us. drop 1 us) (sym (filter-past now t ts h).1),
  )

  run_expired_sparing :
      (ts : List TimeoutCallback) (i : ℕ) (s : Ioloop)
      → drop i s.one.timeouts ≡ ts
      → IsSorted due ts
      → All IsKept ts
      → Ran ts s (run_expired script now (length ts) i s)
  unfolding run_expired
  run_expired_sparing [] i s at sorted a = unfold Ran in (sym (append-nil s.calls), refl, at)
  run_expired_sparing (t ∷ ts) i s at sorted a = elim (Bool-cases (leb t.timeout now)) [
    | inl past ↦
        rw
          (
            ap (look now) (get_elem?-drop i s.one.timeouts ts at) ∙ look-past now t a.0 past,
            run_expired,
          )
          (Ran-past t ts s _ past (
            run_expired_sparing ts (suc i) (invoke script (called t.callback) s)
              (ap (λ (q : Timeouts). drop (suc i) q.timeouts) (spares (called t.callback) s)
                ∙ drop-suc i s.one.timeouts ts at)
              sorted.1 a.1))
    | inr not_yet ↦
        let (nil, all) =
          filter-later now (t ∷ ts) (ground arith, All-lt now t ts (ground arith) sorted.0) in
        rw
          (
            ap (look now) (get_elem?-drop i s.one.timeouts ts at) ∙ look-later now t a.0 not_yet,
            run_expired,
          )
          (unfold Ran in
            (
              rw nil (sym (append-nil s.calls)),
              refl,
              drop-suc i s.one.timeouts ts at ∙ ap (λ us. drop 1 us) (sym all),
            ))
  ]

  -- A round of process_timeouts over sorted timeouts, none removed and none pending, whose
  -- callbacks leave the one-shot timeouts alone, calls exactly the callbacks of those that have
  -- expired, in order, and keeps exactly those that have not, but for the earliest of these, which
  -- is dropped without being called.
  pub process_timeouts_sparing :
      (s : Ioloop)
      → IsSorted due s.one.timeouts
      → All IsKept s.one.timeouts
      → s.one.pending_additions ≡ []
      → ((process_timeouts script now s).calls
          ≡ s.calls ++ map (λ t. called t.callback) (filter (is_expired now) s.one.timeouts))
        × ((process_timeouts script now s).one.timeouts
            ≡ drop 1 (filter (is_later now) s.one.timeouts))
  unfolding process_timeouts Timeouts.finish_processing Ran
  process_timeouts_sparing s sorted a none_added =
      let begun = record s { one = record (s.one) { timerfd = none; processing = true } } in
      let (calls, one, left) = run_expired_sparing s.one.timeouts 0 begun refl sorted a in
      let i = (run_expired script now (length s.one.timeouts) 0 begun).1 in
      (
        calls,
        ap (λ (q : Timeouts). (Timeouts.finish_processing i q).timeouts) one
            ∙ ap (λ ps. insert_all due ps (filter kept (drop i s.one.timeouts))) none_added
            ∙ ap (λ us. filter kept us) left
            ∙ filter-kept _
                (All-drop IsKept 1 _ (All-filter IsKept (is_later now) s.one.timeouts a)),
      )
