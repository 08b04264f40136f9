-- ===== src/Signals/Guards.antt =====
-- Nested scopes that each hold a signal_mutex (src/signal_mutex.cpp), as std::lock_guard does.
use liblinuxpp.Prelude.{
  ℕ, ◌≡◌, refl, sym, ap, ◌∙◌, Bool, true, false, ◌&&◌, ◌||◌, List, [], ◌∷◌, arith,
}
use liblinuxpp.Syscall.{ok, err}
use liblinuxpp.Signals.{SignalSet, sig_block, sig_setmask, Kernel, SignalMutex, lock, unlock}

-- What is documented of pthread_sigmask: `mask` is the thread's mask. Blocking joins sets and stores the
-- mask from before; both calls leave out the signals that cannot be blocked, which is no error.
pub record IsKernel (k : Kernel) (mask : k.Thread → SignalSet) (blockable : SignalSet)
    : Type 0 where
  pub block_succeeds : (t : k.Thread) (set : SignalSet) → (k.sigmask t sig_block set).1.ret ≡ 0
  pub block_stores :
      (t : k.Thread) (set : SignalSet) (i : ℕ) → (k.sigmask t sig_block set).1.old_set i ≡ mask t i
  pub block_masks :
      (t : k.Thread) (set : SignalSet) (i : ℕ)
      → mask (k.sigmask t sig_block set).0 i ≡ (mask t i || (set i && blockable i))
  pub set_masks :
      (t : k.Thread) (set : SignalSet) (i : ℕ)
      → mask (k.sigmask t sig_setmask set).0 i ≡ (set i && blockable i)
  pub masked_blockable : (t : k.Thread) (i : ℕ) → mask t i ≡ true → blockable i ≡ true

abbrev pub some_holds : List SignalMutex → ℕ → Bool
some_holds [] i = false
some_holds (m ∷ ms) i = m.sigset i || some_holds ms i

module _ (k : Kernel) where
  -- The thread where the body of the scopes begins, and where they have ended; a scope whose lock
  -- throws runs no body and does not unlock.
  unfoldable pub entered : List SignalMutex → k.Thread → k.Thread
  unfolding lock
  entered [] t = t
  entered (m ∷ ms) t =
      let (r, after) = lock k m t in elim r [ ok locked ↦ entered ms after | err e ↦ after ]

  unfoldable pub guarded : List SignalMutex → (k.Thread → k.Thread) → k.Thread → k.Thread
  unfolding lock unlock
  guarded [] body t = body t
  guarded (m ∷ ms) body t =
      let (r, after) = lock k m t in
      elim r [ ok locked ↦ unlock k locked (guarded ms body after) | err e ↦ after ]

  module _ (mask : k.Thread → SignalSet) (blockable : SignalSet)
      (law : IsKernel k mask blockable) where
    lock_lem :
        (m : SignalMutex) (t : k.Thread)
        → lock k m t ≡ (
          ok (record m { prev_sigset = (k.sigmask t sig_block m.sigset).1.old_set }),
          (k.sigmask t sig_block m.sigset).0,
        )
    unfolding lock
    lock_lem m t = rw (law.block_succeeds t m.sigset) refl

    locked : SignalMutex → k.Thread → SignalMutex
    locked m t = record m { prev_sigset = (k.sigmask t sig_block m.sigset).1.old_set }

    after : SignalMutex → k.Thread → k.Thread
    after m t = (k.sigmask t sig_block m.sigset).0

    entered_step :
        (m : SignalMutex) (ms : List SignalMutex) (t : k.Thread)
        → entered (m ∷ ms) t ≡ entered ms (after m t)
    unfolding entered after
    entered_step m ms t =
        ap (λ r. elim r.0 as (λ _. k.Thread) [ ok l ↦ entered ms r.1 | err e ↦ r.1 ]) (lock_lem m t)

    guarded_step :
        (m : SignalMutex) (ms : List SignalMutex) (body : k.Thread → k.Thread) (t : k.Thread)
        → guarded (m ∷ ms) body t ≡ unlock k (locked m t) (guarded ms body (after m t))
    unfolding guarded after locked
    guarded_step m ms body t =
        ap
          (λ r. elim r.0 as (λ _. k.Thread) [
            | ok l ↦ unlock k l (guarded ms body r.1)
            | err e ↦ r.1
          ])
          (lock_lem m t)

    entered_lem :
        (ms : List SignalMutex) (t : k.Thread) (i : ℕ)
        → mask (entered ms t) i ≡ (mask t i || (some_holds ms i && blockable i))
    unfolding entered after
    entered_lem [] t i = ground arith
    entered_lem (m ∷ ms) t i =
        ap (λ u. mask u i) (entered_step m ms t)
        ∙ ground (arith, entered_lem ms (after m t) i, law.block_masks t m.sigset i)

    guarded_lem :
        (m : SignalMutex) (ms : List SignalMutex) (body : k.Thread → k.Thread) (t : k.Thread)
        (i : ℕ)
        → mask (guarded (m ∷ ms) body t) i ≡ mask t i
    unfolding unlock locked
    guarded_lem m ms body t i =
        ap (λ u. mask u i) (guarded_step m ms body t)
        ∙ law.set_masks (guarded ms body (after m t)) (locked m t).prev_sigset i
        ∙ ground (arith, law.block_stores t m.sigset i, law.masked_blockable t i)

    body_runs :
        (ms : List SignalMutex) (body : k.Thread → k.Thread) (t : k.Thread)
        → guarded ms body t ≡ guarded ms (λ _. body (entered ms t)) t
    unfolding entered guarded
    body_runs [] body t = refl
    body_runs (m ∷ ms) body t =
        guarded_step m ms body t
        ∙ ap (λ u. unlock k (locked m t) u) (body_runs ms body (after m t))
        ∙ ap (λ u. unlock k (locked m t) (guarded ms (λ _. body u) (after m t)))
            (sym (entered_step m ms t))
        ∙ sym (guarded_step m ms (λ _. body (entered (m ∷ ms) t)) t)

    -- Over a pthread_sigmask as documented, nested scopes that each hold a signal_mutex of their
    -- own restore every bit of the mask of signals, whatever their body does to it, and the body
    -- runs where the mask is that from before joined with the signals of all the sets that can be
    -- blocked.
    pub guarded_restores :
        (m : SignalMutex) (ms : List SignalMutex) (body : k.Thread → k.Thread) (t : k.Thread)
        (i : ℕ)
        → (mask (guarded (m ∷ ms) body t) i ≡ mask t i)
          × (mask (entered (m ∷ ms) t) i ≡ (mask t i || (some_holds (m ∷ ms) i && blockable i)))
          × (guarded (m ∷ ms) body t ≡ guarded (m ∷ ms) (λ _. body (entered (m ∷ ms) t)) t)
    guarded_restores m ms body t i =
        (guarded_lem m ms body t i, entered_lem (m ∷ ms) t i, body_runs (m ∷ ms) body t)
