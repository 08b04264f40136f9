-- ===== src/Ioloop/Threads/LoopMoves.antt =====
-- A step of the loop's thread keeps each field of the invariant.
use liblinuxpp.Prelude.{ℕ, ◌≡◌, refl, ◌≢◌, true, false, List, [], ◌∷◌, ◌++◌, arith}
use mathlib.Core.List.{append_assoc, append-nil}
use liblinuxpp.Ioloop.Threads.Defs.{
  EventCounter, held_by, held_by_loop, Pc, pushed, stopping, LoopPc, Shared, LoopMove, begin, enter,
  read_callbacks, lock_loop, read_moved, move, call,
}
use liblinuxpp.Ioloop.Threads.Inv.{
  critical, loop_critical, in_hand, is_collecting, is_waiting, IsFresh, IsLoopFresh, Inv,
}

call-kept :
    (done hand queue : List ℕ) (c : ℕ) {all : List ℕ}
    → done ++ (c ∷ hand ++ queue) ≡ all
    → (done ++ c ∷ []) ++ (hand ++ queue) ≡ all
call-kept done hand queue c h = rw (← h) (simp append_assoc)

module _ (k : EventCounter) where
  open k use {readable}

  module _ {m : Shared k} {pc : ℕ → Pc} where
    pub LoopMove-guarded :
        {l l' : LoopPc} {m' : Shared k}
        → Inv k m l pc
        → LoopMove k m l m' l'
        → (j : ℕ) → critical (pc j) ≡ true
        → m'.mutex ≡ held_by j
    LoopMove-guarded inv (lock_loop g) j h = cc (inv.guarded j h)
    LoopMove-guarded inv begin j h = inv.guarded j h
    LoopMove-guarded inv mv j h = ground (arith, inv.guarded j h, inv.loop_guarded)

    pub LoopMove-loop_guarded :
        {l l' : LoopPc} {m' : Shared k}
        → Inv k m l pc
        → LoopMove k m l m' l'
        → loop_critical l' ≡ true
        → m'.mutex ≡ held_by_loop
    LoopMove-loop_guarded inv begin h = cc
    LoopMove-loop_guarded inv mv h = ground (arith, inv.loop_guarded)

    pub LoopMove-owner :
        {l l' : LoopPc} {m' : Shared k}
        → Inv k m l pc
        → LoopMove k m l m' l'
        → (j : ℕ) → m'.mutex ≡ held_by j
        → critical (pc j) ≡ true
    LoopMove-owner inv begin j h = inv.owner j h
    LoopMove-owner inv mv j h = ground (arith, inv.owner j)

    pub LoopMove-loop_owner :
        {l l' : LoopPc} {m' : Shared k}
        → Inv k m l pc
        → LoopMove k m l m' l'
        → m'.mutex ≡ held_by_loop
        → loop_critical l' ≡ true
    LoopMove-loop_owner inv begin h = inv.loop_owner h
    LoopMove-loop_owner inv mv h = ground (arith, inv.loop_owner)

    pub LoopMove-seen :
        {l l' : LoopPc} {m' : Shared k}
        → Inv k m l pc
        → LoopMove k m l m' l'
        → (j : ℕ) → IsFresh m'.new_callbacks (pc j)
    LoopMove-seen inv begin j = inv.seen j
    LoopMove-seen inv mv j = ground (arith, inv.seen j, inv.guarded j, inv.loop_guarded)

    pub LoopMove-loop_seen :
        {l l' : LoopPc} {m' : Shared k}
        → Inv k m l pc
        → LoopMove k m l m' l'
        → IsLoopFresh m'.new_callbacks l'
    LoopMove-loop_seen inv begin = tt
    LoopMove-loop_seen inv mv = ground (arith, inv.loop_seen)

    pub LoopMove-kept :
        {l l' : LoopPc} {m' : Shared k}
        → Inv k m l pc
        → LoopMove k m l m' l'
        → m'.called ++ (in_hand l' ++ m'.new_callbacks) ≡ m'.added
    LoopMove-kept inv (move {cs}) = rw (inv.loop_seen, append-nil) inv.kept
    LoopMove-kept inv (call {c} {cs}) = call-kept m.called cs m.new_callbacks c inv.kept
    LoopMove-kept inv begin = inv.kept
    LoopMove-kept inv mv = inv.kept

    pub LoopMove-awake :
        {l l' : LoopPc} {m' : Shared k}
        → Inv k m l pc
        → LoopMove k m l m' l'
        → m'.thrown ≡ false
        → m'.new_callbacks ≢ []
        → readable m'.callbacks_eventfd ≡ false
        → is_collecting l' ≡ false
        → (j : ℕ) × (pc j ≡ pushed)
    LoopMove-awake inv move t n r c = absurd (n refl)
    LoopMove-awake inv begin t n r c = inv.awake t n r c
    LoopMove-awake inv (read_callbacks w) t n r c = cc
    LoopMove-awake inv (lock_loop g) t n r c = cc
    LoopMove-awake inv read_moved t n r c = cc
    LoopMove-awake inv mv t n r c = inv.awake t n r refl

    pub LoopMove-stop_seen :
        {l l' : LoopPc} {m' : Shared k}
        → Inv k m l pc
        → LoopMove k m l m' l'
        → m'.thrown ≡ false
        → m'.keep_running ≡ false
        → readable m'.stop_eventfd ≡ false
        → is_waiting l' ≡ true
        → (j : ℕ) × (pc j ≡ stopping)
    LoopMove-stop_seen inv (enter g) t n r c = cc
    LoopMove-stop_seen inv mv t n r c = cc
