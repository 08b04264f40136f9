-- ===== src/Epoll/Refinement.antt =====
-- That the object of src/epoll.cpp follows its interest list.
use liblinuxpp.Prelude.{
  ℕ, zero, suc, ◌-◌, ◌^◌, ◌≤◌, ◌<◌, ◌≡◌, ◌⊎◌, inl, inr, refl, length-append, length-take, sym, ap,
  ◌∙◌, true, ◌||◌, List, [], ◌∷◌, Option, some, length, arith, take, Bool-cases,
}
use liblinuxpp.Prelude.Int.{ℤ, pos, eqb_ℤ, to_int}
use liblinuxpp.Syscall.{ok, is_good}
use liblinuxpp.Descriptor.{is_set}
use liblinuxpp.Epoll.{
  EpollEvent, Answer, finish, returned, ctl_add, ctl_mod, ctl_del, Kernel, Epoll, epfd, minus_one,
  construct, add, mod_, del, del_nothrow, wait_vector_for, wait_int, resize, store, blanks,
}
use liblinuxpp.Epoll.Interest.{
  Interest, has, forget, update, change, IsKernel, Op, adding, modding, deleting, waiting, done,
  next, replay, perform, run,
}

pub length-forget :
    (fd : ℤ) (xs : Interest) → has fd xs ≡ true → length xs ≡ suc (length (forget fd xs))
length-forget fd [] h = ground arith
length-forget fd ((f, e) ∷ xs) h = elim (Bool-cases (eqb_ℤ f fd)) [
  | inl same ↦ rw same refl
  | inr apart ↦ rw apart (ap suc (length-forget fd xs (sym (ap (λ b. b || has fd xs) apart) ∙ h)))
]

length-update : (fd : ℤ) (e : EpollEvent) (xs : Interest) → length (update fd e xs) ≡ length xs
length-update fd e [] = refl
length-update fd e ((f, g) ∷ xs) = elim (Bool-cases (eqb_ℤ f fd)) [
  | inl same ↦ rw same refl
  | inr apart ↦ rw apart (ap suc (length-update fd e xs))
]

length-blanks : (n : ℕ) → length (blanks n) ≡ n
length-blanks zero = refl
length-blanks (suc n) = ap suc (length-blanks n)

pub length-resize : (n : ℕ) (es : List EpollEvent) → length (resize n es) ≡ n
length-resize n es = ground (
  arith,
  length-append (take n es) (blanks (n - length es)),
  length-take n es,
  length-blanks (n - length es),
)

pub room_lem : (n m : ℕ) → n < 2 ^ 31 → to_int (pos n) ≡ pos (suc m) → suc m ≡ n
room_lem n m small e = ground arith

module _ (k : Kernel) (watched : k.State → ℤ → Interest) (law : IsKernel k watched) where
  grows :
      (fd : ℤ) (e : EpollEvent) (xs ys : Interest)
      → change fd (ctl_add e) xs ≡ some ys
      → length ys ≡ suc (length xs)
  grows fd e xs ys h = ground (arith, length-append xs ((fd, e) ∷ []))

  keeps :
      (fd : ℤ) (e : EpollEvent) (xs ys : Interest)
      → change fd (ctl_mod e) xs ≡ some ys
      → length ys ≡ length xs
  keeps fd e xs ys h = ground (arith, length-update fd e xs)

  shrinks :
      (fd : ℤ) (xs ys : Interest) → change fd ctl_del xs ≡ some ys → length xs ≡ suc (length ys)
  shrinks fd xs ys h = ground (arith, length-forget fd xs)

  -- The object counts the entries of its list.
  abbrev Counts : Epoll → k.State → Type 0
  Counts e s = e.size_events ≡ length (watched s (epfd e))

  -- The outcome of one operation: the abstract object can have it, and ends at the list of the kernel.
  abbrev Follows : Op → Interest → Option ℕ × (Epoll × k.State) → Type 0
  Follows op xs (o, (e, s)) = (next op o xs ≡ some (watched s (epfd e))) × Counts e s

  add-Follows :
      (fd : ℤ) (event : EpollEvent) (e : Epoll) (s : k.State)
      → Counts e s
      → Follows (adding fd event) (watched s (epfd e)) (perform k (adding fd event) e s)
  unfolding perform add
  add-Follows fd event e s c = elim (law.controlled s (epfd e) fd (ctl_add event)) [
    | inl good ↦ rw good.0 (
      good.1,
      ground (
        arith,
        c,
        grows fd event _ _ good.1,
        law.few (k.epoll_ctl s (epfd e) fd (ctl_add event)).0 (epfd e),
      ),
    )
    | inr bad ↦ rw bad.0 (ap some (sym bad.2), c ∙ ap length (sym bad.2))
  ]

  mod-Follows :
      (fd : ℤ) (event : EpollEvent) (e : Epoll) (s : k.State)
      → Counts e s
      → Follows (modding fd event) (watched s (epfd e)) (perform k (modding fd event) e s)
  unfolding perform mod_
  mod-Follows fd event e s c = elim (law.controlled s (epfd e) fd (ctl_mod event)) [
    | inl good ↦ rw good.0 (good.1, c ∙ sym (keeps fd event _ _ good.1))
    | inr bad ↦ rw bad.0 (ap some (sym bad.2), c ∙ ap length (sym bad.2))
  ]

  del-Follows :
      (fd : ℤ) (e : Epoll) (s : k.State)
      → Counts e s
      → Follows (deleting fd) (watched s (epfd e)) (perform k (deleting fd) e s)
  unfolding perform del del_nothrow is_good
  del-Follows fd e s c = elim (law.controlled s (epfd e) fd ctl_del) [
    | inl good ↦ rw good.0 (good.1, ground (arith, c, shrinks fd _ _ good.1, law.few s (epfd e)))
    | inr bad ↦ ground (arith, bad.0, bad.1, bad.2, c)
  ]

  finish-Follows :
      (timeout : ℤ) (e : Epoll) (s : k.State) (room : List EpollEvent) (p : k.State × Answer)
      → Counts e s
      → watched p.0 (epfd e) ≡ watched s (epfd e)
      → (p.1.ret ≡ minus_one)
        ⊎ ((n : ℕ) × (p.1.ret ≡ pos n)
            × (n ≤ length (watched s (epfd e)))
            × (0 < length (watched s (epfd e))))
      → Follows
          (waiting timeout)
          (watched s (epfd e))
          (let (r, after) = returned k (finish k room p) in (done length r, (e, after)))
  finish-Follows timeout e s room p c kept (inl failed) =
      rw failed (ap some (sym kept), c ∙ ap length (sym kept))
  finish-Follows timeout e s room p c kept (inr (n, ret, room_for, watching)) = rw ret (
    ground (arith, kept, room_for, watching, length-resize n (store p.1.stored room)),
    c ∙ ap length (sym kept),
  )

  wait-Follows :
      (timeout : ℤ) (e : Epoll) (s : k.State)
      → Counts e s
      → Follows (waiting timeout) (watched s (epfd e)) (perform k (waiting timeout) e s)
  unfolding perform wait_vector_for wait_int
  wait-Follows timeout e s c =
      finish-Follows timeout e s (resize e.size_events [])
        (k.epoll_wait s (epfd e) (to_int (pos (length (resize e.size_events [])))) (to_int timeout))
        c (law.wait_keeps s (epfd e) max (to_int timeout))
        (elim (law.wait_answer s (epfd e) max (to_int timeout)) [
          | inl failed ↦ inl failed
          | inr (m, n, max_is, few, ret) ↦ inr (
            n,
            ret,
            ground (arith, few, room_lem _ m small max_is, counted),
            ground (arith, room_lem _ m small max_is, counted),
          )
        ])
    where
      max : ℤ
      max = to_int (pos (length (resize e.size_events [])))

      counted : length (resize e.size_events []) ≡ length (watched s (epfd e))
      counted = length-resize e.size_events [] ∙ c

      small : length (resize e.size_events []) < 2 ^ 31
      small = omega (arith, counted, law.few s (epfd e))

  perform-Follows :
      (op : Op) (e : Epoll) (s : k.State)
      → Counts e s
      → Follows op (watched s (epfd e)) (perform k op e s)
  perform-Follows (adding fd event) e s c = add-Follows fd event e s c
  perform-Follows (modding fd event) e s c = mod-Follows fd event e s c
  perform-Follows (deleting fd) e s c = del-Follows fd e s c
  perform-Follows (waiting timeout) e s c = wait-Follows timeout e s c

  run_follows :
      (ops : List Op) (e : Epoll) (s : k.State)
      → Counts e s
      → let (os, (f, t)) = run k ops e s in
        (replay ops os (watched s (epfd e)) ≡ some (watched t (epfd f))) × Counts f t
  unfolding run
  run_follows [] e s c = (refl, c)
  run_follows (op ∷ ops) e s c =
      let first = perform-Follows op e s c in
      let rest = run_follows ops (perform k op e s).1.0 (perform k op e s).1.1 first.1 in
      (rw (first.0, replay) rest.0, rest.1)

  pub construct_lem :
      (before s : k.State) (e : Epoll)
      → construct k before ≡ (ok e, s)
      → (watched s (epfd e) ≡ []) × (e.size_events ≡ 0)
  unfolding construct is_set
  construct_lem before s e made = elim (law.create_answer before) [
    | inl failed ↦ ground (arith, failed, made)
    | inr (n, ret) ↦ ground (arith, ret, made, law.created before n ret)
  ]

  -- Over a kernel that obeys the documented laws of its epoll calls, every run of add, mod, del and
  -- timed waits on a constructed epoll object is a run of the abstract interest list with the same
  -- outcomes, ends at the list that the kernel has, and leaves the object counting its entries; a
  -- wait returns only where the list is not empty, and then at most as many events as it has
  -- entries.
  pub run_refines :
      (ops : List Op) (before s : k.State) (e : Epoll)
      → construct k before ≡ (ok e, s)
      → let (os, (f, t)) = run k ops e s in
        (replay ops os [] ≡ some (watched t (epfd f))) × Counts f t
  run_refines ops before s e made =
      let fresh = construct_lem before s e made in
      rw (sym fresh.0) (run_follows ops e s (fresh.1 ∙ ap length (sym fresh.0)))
