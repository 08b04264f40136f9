-- ===== src/Ioloop/Threads/Invariant.antt =====
-- The invariant holds in every state that the threads reach.
use liblinuxpp.Prelude.{refl}
use liblinuxpp.Ioloop.Threads.Defs.{
  EventCounter, System, Step, by_thread, by_loop, init, Reach, start, later,
}
use liblinuxpp.Ioloop.Threads.Inv.{Inv}
use liblinuxpp.Ioloop.Threads.Moves.{
  Move-guarded, Move-loop_guarded, Move-owner, Move-loop_owner, Move-seen, Move-loop_seen,
  Move-kept, Move-awake, Move-stop_seen,
}
use liblinuxpp.Ioloop.Threads.LoopMoves.{
  LoopMove-guarded, LoopMove-loop_guarded, LoopMove-owner, LoopMove-loop_owner, LoopMove-seen,
  LoopMove-loop_seen, LoopMove-kept, LoopMove-awake, LoopMove-stop_seen,
}

module _ (k : EventCounter) where
  Inv-init : Inv k (init k).mem (init k).loop (init k).pc
  Inv-init = record {
    guarded = λ i h. cc;
    loop_guarded = λ h. cc;
    owner = λ i h. cc;
    loop_owner = λ h. cc;
    seen = λ i. tt;
    loop_seen = tt;
    kept = refl;
    awake = λ a b c d. absurd (b refl);
    stop_seen = λ a b c d. cc;
  }

  pub Step-Inv : {s t : System k} → Step k s t → Inv k s.mem s.loop s.pc → Inv k t.mem t.loop t.pc
  Step-Inv (by_thread i mv) inv = record {
    guarded = Move-guarded k inv i mv refl;
    loop_guarded = Move-loop_guarded k inv i mv refl;
    owner = Move-owner k inv i mv refl;
    loop_owner = Move-loop_owner k inv i mv refl;
    seen = Move-seen k inv i mv refl;
    loop_seen = Move-loop_seen k inv i mv refl;
    kept = Move-kept k inv i mv refl;
    awake = Move-awake k inv i mv refl;
    stop_seen = Move-stop_seen k inv i mv refl;
  }
  Step-Inv (by_loop mv) inv = record {
    guarded = LoopMove-guarded k inv mv;
    loop_guarded = LoopMove-loop_guarded k inv mv;
    owner = LoopMove-owner k inv mv;
    loop_owner = LoopMove-loop_owner k inv mv;
    seen = LoopMove-seen k inv mv;
    loop_seen = LoopMove-loop_seen k inv mv;
    kept = LoopMove-kept k inv mv;
    awake = LoopMove-awake k inv mv;
    stop_seen = LoopMove-stop_seen k inv mv;
  }

  pub Reach-Inv : {s : System k} → Reach k s → Inv k s.mem s.loop s.pc
  Reach-Inv start = Inv-init
  Reach-Inv (later r st) = Step-Inv st (Reach-Inv r)
