-- ===== src/Ioloop/Handlers/Pruning.antt =====
-- The pruning of start (src/ioloop.cpp) by the answers of epoll_ctl that it looks at.
use liblinuxpp.Prelude.{
  ℕ, suc, ◌≤◌, ◌≡◌, refl, sym, ap, ◌∙◌, inl, inr, List, [], ◌∷◌, none, some, arith, Option-cases,
  ◌==◌, if◌then◌else◌,
}
use liblinuxpp.Ioloop.Entries.{erase}
use liblinuxpp.Ioloop.State.{Handlers}
use liblinuxpp.Ioloop.Handlers.{Error, fd_of, epoll_del, prune_from}

-- The handlers when one that was marked has been taken out.
abbrev pub taken_out : ℕ → Handlers → ℕ → Handlers
taken_out fd t errno = record ((epoll_del t errno).0) {
  handlers = erase fd_of fd (epoll_del t errno).0.handlers;
}

pub prune_from-none :
    (f : ℕ → ℕ) (i fd : ℕ) (fds : List ℕ) (t : Handlers)
    → (epoll_del t (f i)).1 ≡ none
    → prune_from f i (fd ∷ fds) t ≡ prune_from f (suc i) fds (taken_out fd t (f i))
unfolding prune_from
prune_from-none f i fd fds t e = rw (e, prune_from) refl

pub prune_from-some :
    (f : ℕ → ℕ) (i fd : ℕ) (fds : List ℕ) (t : Handlers) {x : Error}
    → (epoll_del t (f i)).1 ≡ some x
    → prune_from f i (fd ∷ fds) t ≡ (t, some x)
unfolding prune_from
prune_from-some f i fd fds t e = rw (e, prune_from) refl

pub epoll_del-some :
    (t : Handlers) (errno : ℕ) {x : Error}
    → (epoll_del t errno).1 ≡ some x
    → (epoll_del t errno).0 ≡ t
epoll_del-some t errno e = ground arith

-- The pruning looks at the answers from its own number on.
pub prune_from-ext :
    (f g : ℕ → ℕ) (i : ℕ) (fds : List ℕ) (t : Handlers)
    → ((j : ℕ) → i ≤ j → f j ≡ g j)
    → prune_from f i fds t ≡ prune_from g i fds t
prune_from-ext f g i [] t same = unfold prune_from in refl
prune_from-ext f g i (fd ∷ fds) t same =
    let here = same i (omega arith) in
    let later =
      prune_from-ext f g (suc i) fds (taken_out fd t (g i)) (λ j h. same j (omega arith)) in
    elim (Option-cases (epoll_del t (g i)).1) [
      | inl e ↦
          prune_from-none f i fd fds t (rw here e)
          ∙ ap (λ n. prune_from f (suc i) fds (taken_out fd t n)) here
          ∙ later
          ∙ sym (prune_from-none g i fd fds t e)
      | inr (x, e) ↦ prune_from-some f i fd fds t (rw here e) ∙ sym (prune_from-some g i fd fds t e)
    ]

-- An answer before others.
abbrev pub answers : ℕ → ℕ → (ℕ → ℕ) → ℕ → ℕ
answers i errno rest j = if j == i then errno else rest j

pub answers_self : (i errno : ℕ) (rest : ℕ → ℕ) → answers i errno rest i ≡ errno
answers_self i errno rest = ground arith
