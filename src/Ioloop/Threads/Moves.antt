-- ===== src/Ioloop/Threads/Moves.antt =====
-- A step of a thread in add_callback or stop keeps each field of the invariant.
use liblinuxpp.Prelude.{ℕ, ◌≡◌, ◌≢◌, true, false, List, [], ◌∷◌, ◌++◌, arith}
use mathlib.Core.List.{append_assoc}
use mathlib.Core.Path.{subst}
use native.Mathlib.Decide.{ℕ_discrete}
use liblinuxpp.Ioloop.Threads.Defs.{
  EventCounter, held_by, held_by_loop, Pc, pushed, stopping, LoopPc, throws_add, throws_stop,
  Shared, Move, lock, push, write, clear, write_stop, update,
}
use liblinuxpp.Ioloop.Threads.Inv.{
  critical, loop_critical, in_hand, is_collecting, is_waiting, IsFresh, IsLoopFresh, Inv,
}

append-kept :
    (done hand queue : List ℕ) (c : ℕ) {all : List ℕ}
    → done ++ (hand ++ queue) ≡ all
    → done ++ (hand ++ (queue ++ c ∷ [])) ≡ all ++ c ∷ []
append-kept done hand queue c h = rw (← h) (simp append_assoc)

module _ (k : EventCounter) where
  open k use {readable}

  -- A write on which add_callback does not throw leaves the counter readable; so for stop.
  write_wakes :
      (c d : k.Counter) (errno : ℕ)
      → k.Writes c errno d
      → throws_add errno ≡ false
      → readable d ≡ true
  write_wakes c d errno w h = elim (ℕ_discrete errno 0) [
    | yes e ↦ k.write_ok c d (subst (λ n. k.Writes c n d) e w)
    | no other ↦ k.write_again c d (subst (λ n. k.Writes c n d) (ground arith) w)
  ]

  write_stop_wakes :
      (c d : k.Counter) (errno : ℕ)
      → k.Writes c errno d
      → throws_stop errno ≡ false
      → readable d ≡ true
  write_stop_wakes c d errno w h = k.write_ok c d (subst (λ n. k.Writes c n d) (ground arith) w)

  module _ {m : Shared k} {loop : LoopPc} {pc : ℕ → Pc} (inv : Inv k m loop pc) (i : ℕ) where
    open inv use {guarded, loop_guarded, owner, loop_owner, seen, loop_seen, kept, awake, stop_seen}

    pub Move-guarded :
        {p p' : Pc} {m' : Shared k}
        → Move k i m p m' p'
        → pc i ≡ p
        → (j : ℕ) → critical (update pc i p' j) ≡ true
        → m'.mutex ≡ held_by j
    Move-guarded (lock c g) e j h = ground (arith, guarded i, guarded j)
    Move-guarded mv e j h = ground (arith, guarded i, guarded j)

    pub Move-loop_guarded :
        {p p' : Pc} {m' : Shared k}
        → Move k i m p m' p'
        → pc i ≡ p
        → loop_critical loop ≡ true
        → m'.mutex ≡ held_by_loop
    Move-loop_guarded (lock c g) e h = ground (arith, loop_guarded h)
    Move-loop_guarded mv e h = ground (arith, guarded i)

    pub Move-owner :
        {p p' : Pc} {m' : Shared k}
        → Move k i m p m' p'
        → pc i ≡ p
        → (j : ℕ) → m'.mutex ≡ held_by j
        → critical (update pc i p' j) ≡ true
    Move-owner (lock c g) e j h = ground arith
    Move-owner mv e j h = ground (arith, owner j)

    pub Move-loop_owner :
        {p p' : Pc} {m' : Shared k}
        → Move k i m p m' p'
        → pc i ≡ p
        → m'.mutex ≡ held_by_loop
        → loop_critical loop ≡ true
    Move-loop_owner (lock c g) e h = cc
    Move-loop_owner mv e h = ground (arith, loop_owner)

    pub Move-seen :
        {p p' : Pc} {m' : Shared k}
        → Move k i m p m' p'
        → pc i ≡ p
        → (j : ℕ) → IsFresh m'.new_callbacks (update pc i p' j)
    Move-seen (lock c g) e j = ground (arith, seen j)
    Move-seen mv e j = ground (arith, seen j, guarded i, guarded j)

    pub Move-loop_seen :
        {p p' : Pc} {m' : Shared k}
        → Move k i m p m' p'
        → pc i ≡ p
        → IsLoopFresh m'.new_callbacks loop
    Move-loop_seen (lock c g) e = loop_seen
    Move-loop_seen mv e = ground (arith, guarded i)

    pub Move-kept :
        {p p' : Pc} {m' : Shared k}
        → Move k i m p m' p'
        → pc i ≡ p
        → m'.called ++ (in_hand loop ++ m'.new_callbacks) ≡ m'.added
    Move-kept (push {callback} {seen = v}) e =
        let same : v ≡ m.new_callbacks = ground (arith, seen i) in
        rw same (append-kept m.called (in_hand loop) m.new_callbacks callback kept)
    Move-kept (lock c g) e = kept
    Move-kept mv e = kept

    -- A thread that has put a callback wakes the loop, and no other thread's step changes that.
    pub Move-awake :
        {p p' : Pc} {m' : Shared k}
        → Move k i m p m' p'
        → pc i ≡ p
        → m'.thrown ≡ false
        → m'.new_callbacks ≢ []
        → readable m'.callbacks_eventfd ≡ false
        → is_collecting loop ≡ false
        → (j : ℕ) × (update pc i p' j ≡ pushed)
    Move-awake push e t n r c = (i, ground arith)
    Move-awake (write errno w) e t n r c = let ready = write_wakes _ _ errno w (ground arith) in cc
    Move-awake (write_stop errno w) e t n r c =
        let (j, at) = awake (ground arith) n r c in (j, ground arith)
    Move-awake (lock _ g) e t n r c = let (j, at) = awake t n r c in (j, ground arith)
    Move-awake mv e t n r c = let (j, at) = awake t n r c in (j, ground arith)

    pub Move-stop_seen :
        {p p' : Pc} {m' : Shared k}
        → Move k i m p m' p'
        → pc i ≡ p
        → m'.thrown ≡ false
        → m'.keep_running ≡ false
        → readable m'.stop_eventfd ≡ false
        → is_waiting loop ≡ true
        → (j : ℕ) × (update pc i p' j ≡ stopping)
    Move-stop_seen clear e t n r c = (i, ground arith)
    Move-stop_seen (write errno w) e t n r c =
        let (j, at) = stop_seen (ground arith) n r c in (j, ground arith)
    Move-stop_seen (write_stop errno w) e t n r c =
        let ready = write_stop_wakes _ _ errno w (ground arith) in cc
    Move-stop_seen (lock _ g) e t n r c = let (j, at) = stop_seen t n r c in (j, ground arith)
    Move-stop_seen mv e t n r c = let (j, at) = stop_seen t n r c in (j, ground arith)
