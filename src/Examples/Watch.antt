-- ===== src/Examples/Watch.antt =====
-- Examples of epoll (src/epoll.cpp): a kernel that watches at most one descriptor.
use liblinuxpp.Prelude.{
  ℕ, zero, suc, ◌≡◌, ◌≢◌, ◌⊎◌, inl, inr, refl, List, [], ◌∷◌, Option, none, some, length,
  if◌then◌else◌, arith, Bool-cases, ◌<◌, ◌≤◌, ◌^◌,
}
use liblinuxpp.Prelude.Int.{ℤ, pos, negsuc, eqb_ℤ}
use liblinuxpp.Syscall.{ok}
use liblinuxpp.Descriptor.{is_set, manage}
use liblinuxpp.Epoll.{
  EpollEvent, fd, Control, ctl_add, ctl_mod, ctl_del, Answer, Kernel, Epoll, epfd, minus_one,
  construct,
}
use liblinuxpp.Epoll.Interest.{
  Interest, change, IsKernel, Op, adding, deleting, waiting, replay, run,
}
use liblinuxpp.Epoll.Refinement.{run_refines}

abbrev pub Slot : Type 0
Slot = Option (ℤ × EpollEvent)

abbrev pub returning : ℤ → ℕ → Answer
returning ret errno = record { ret = ret; errno = errno; stored = [] }

abbrev pub refusing : ℕ → Slot → Slot × Answer
refusing errno s = (s, returning minus_one errno)

abbrev pub control : Slot → ℤ → ℤ → Control → Slot × Answer
control none e w (ctl_add event) = (some (w, event), returning (pos 0) 0)
control (some x) e w (ctl_add event) = refusing (if eqb_ℤ x.0 w then 17 else 28) (some x)
control none e w (ctl_mod event) = refusing 2 none
control (some x) e w (ctl_mod event) =
    if eqb_ℤ x.0 w then (some (x.0, event), returning (pos 0) 0) else refusing 2 (some x)
control none e w ctl_del = refusing 2 none
control (some x) e w ctl_del =
    if eqb_ℤ x.0 w then (none, returning (pos 0) 0) else refusing 2 (some x)

abbrev pub await : Slot → ℤ → ℤ → ℤ → Slot × Answer
await (some x) e (pos (suc m)) timeout =
    (some x, record { ret = pos 1; errno = 0; stored = x.1 ∷ [] })
await none e (pos (suc m)) timeout = (none, returning (pos 0) 0)
await s e _ timeout = refusing 22 s

abbrev pub one_slot : Kernel
one_slot = record {
  State = Slot;
  epoll_create = λ s. (none, returning (pos 3) 0);
  epoll_ctl = control;
  epoll_wait = await;
}

abbrev pub watched : Slot → ℤ → Interest
watched none e = []
watched (some x) e = x ∷ []

created_law : (s : Slot) (n : ℕ) → pos 3 ≡ pos n → watched none (pos n) ≡ []
created_law s n h = refl

abbrev Controlled : Slot → ℤ → ℤ → Control → Type 0
Controlled s e w c =
    (((control s e w c).1.ret ≡ pos 0)
      × (change w c (watched s e) ≡ some (watched (control s e w c).0 e)))
    ⊎ (((control s e w c).1.ret ≡ minus_one)
        × ((control s e w c).1.errno ≢ 0)
        × (watched (control s e w c).0 e ≡ watched s e))

Controlled-law : (s : Slot) (e w : ℤ) (c : Control) → Controlled s e w c
Controlled-law none e w (ctl_add event) = inl (refl, refl)
Controlled-law (some x) e w (ctl_add event) = inr (refl, ground arith, refl)
Controlled-law none e w (ctl_mod event) = inr (refl, ground arith, refl)
Controlled-law (some x) e w (ctl_mod event) = elim (Bool-cases (eqb_ℤ x.0 w)) [
  | inl same ↦ inl (rw same (refl, refl))
  | inr apart ↦ inr (rw apart (refl, ground arith, refl))
]
Controlled-law none e w ctl_del = inr (refl, ground arith, refl)
Controlled-law (some x) e w ctl_del = elim (Bool-cases (eqb_ℤ x.0 w)) [
  | inl same ↦ inl (rw same (refl, refl))
  | inr apart ↦ inr (rw apart (refl, ground arith, refl))
]

keeps_law : (s : Slot) (e max timeout : ℤ) → watched (await s e max timeout).0 e ≡ watched s e
keeps_law none e (pos zero) timeout = refl
keeps_law none e (pos (suc m)) timeout = refl
keeps_law none e (negsuc m) timeout = refl
keeps_law (some x) e (pos zero) timeout = refl
keeps_law (some x) e (pos (suc m)) timeout = refl
keeps_law (some x) e (negsuc m) timeout = refl

await_law :
    (s : Slot) (e max timeout : ℤ)
    → ((await s e max timeout).1.ret ≡ minus_one)
      ⊎ ((m n : ℕ) × (max ≡ pos (suc m)) × (n ≤ suc m) × ((await s e max timeout).1.ret ≡ pos n))
await_law none e (pos zero) timeout = inl refl
await_law none e (pos (suc m)) timeout = inr (m, 0, refl, omega arith, refl)
await_law none e (negsuc m) timeout = inl refl
await_law (some x) e (pos zero) timeout = inl refl
await_law (some x) e (pos (suc m)) timeout = inr (m, 1, refl, omega arith, refl)
await_law (some x) e (negsuc m) timeout = inl refl

few_law : (s : Slot) (e : ℤ) → length (watched s e) < 2 ^ 31
few_law none e = omega arith
few_law (some x) e = omega arith

pub one_slot-IsKernel : IsKernel one_slot watched
one_slot-IsKernel = record {
  created = created_law;
  create_answer = λ s. inr (3, refl);
  controlled = Controlled-law;
  wait_keeps = keeps_law;
  wait_answer = await_law;
  few = few_law;
}

abbrev pub fresh : Epoll
fresh = record { epoll_fd = manage (pos 3); size_events = 0 }

pub constructed : construct one_slot none ≡ (ok fresh, none)
unfolding construct is_set
constructed = refl

abbrev input : EpollEvent
input = record { events = 1; data_ = fd (pos 7) }

-- Waiting on nothing fails; then a descriptor is added, waited for and deleted.
abbrev session : List Op
session =
    waiting (pos 5)
    ∷ adding (pos 7) input
    ∷ adding (pos 7) input
    ∷ waiting minus_one
    ∷ deleting (pos 8)
    ∷ deleting (pos 7)
    ∷ []

outcomes : (run one_slot session fresh none).0 ≡ none ∷ some 0 ∷ none ∷ some 1 ∷ none ∷ some 0 ∷ []
unfolding run
outcomes = refl

run_refines_example :
    (replay session (run one_slot session fresh none).0 []
      ≡ some (
          watched
            (run one_slot session fresh none).1.1
            (epfd (run one_slot session fresh none).1.0)))
    × ((run one_slot session fresh none).1.0.size_events
        ≡ length (
            watched
              (run one_slot session fresh none).1.1
              (epfd (run one_slot session fresh none).1.0)))
run_refines_example =
    run_refines one_slot watched one_slot-IsKernel session none none fresh constructed
