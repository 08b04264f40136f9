-- ===== src/Epoll/Interest.antt =====
-- An epoll object as an interest list (src/epoll.cpp): the descriptors that are watched, with their
-- events.
use liblinuxpp.Prelude.{
  ℕ, suc, ◌^◌, ◌≤◌, ◌<◌, ◌≡◌, ◌≢◌, ◌⊎◌, Bool, false, ◌&&◌, ◌||◌, List, [], ◌∷◌, ◌++◌, Option, none,
  some, length, ltb, leb, if◌then◌else◌,
}
use liblinuxpp.Prelude.Int.{ℤ, pos, eqb_ℤ}
use liblinuxpp.Syscall.{Result, ok, err}
use liblinuxpp.Epoll.{
  EpollEvent, Control, ctl_add, ctl_mod, ctl_del, Kernel, Epoll, minus_one, add, mod_, del,
  wait_vector_for,
}

abbrev pub Interest : Type 0
Interest = List (ℤ × EpollEvent)

abbrev pub has : ℤ → Interest → Bool
has fd [] = false
has fd ((f, e) ∷ xs) = eqb_ℤ f fd || has fd xs

-- Without a descriptor that is there once, and with another event for it.
abbrev pub forget : ℤ → Interest → Interest
forget fd [] = []
forget fd ((f, e) ∷ xs) = let rest = forget fd xs in if eqb_ℤ f fd then xs else (f, e) ∷ rest

abbrev pub update : ℤ → EpollEvent → Interest → Interest
update fd new [] = []
update fd new ((f, e) ∷ xs) =
    let rest = update fd new xs in if eqb_ℤ f fd then (f, new) ∷ xs else (f, e) ∷ rest

-- What a call of epoll_ctl that succeeds does to the list; none where it cannot succeed.
abbrev pub change : ℤ → Control → Interest → Option Interest
change fd (ctl_add e) xs = if has fd xs then none else some (xs ++ (fd, e) ∷ [])
change fd (ctl_mod e) xs = if has fd xs then some (update fd e xs) else none
change fd ctl_del xs = if has fd xs then some (forget fd xs) else none

-- What is documented of the kernel. `watched` is the interest list of an epoll descriptor. A
-- descriptor is a positive int, which bounds the length of the list.
pub record IsKernel (k : Kernel) (watched : k.State → ℤ → Interest) : Type 0 where
  pub created :
      (s : k.State) (n : ℕ)
      → (k.epoll_create s).1.ret ≡ pos n
      → watched (k.epoll_create s).0 (pos n) ≡ []
  pub create_answer :
      (s : k.State)
      → ((k.epoll_create s).1.ret ≡ minus_one) ⊎ ((n : ℕ) × ((k.epoll_create s).1.ret ≡ pos n))
  pub controlled :
      (s : k.State) (e fd : ℤ) (c : Control)
      → (((k.epoll_ctl s e fd c).1.ret ≡ pos 0)
          × (change fd c (watched s e) ≡ some (watched (k.epoll_ctl s e fd c).0 e)))
        ⊎ (((k.epoll_ctl s e fd c).1.ret ≡ minus_one)
            × ((k.epoll_ctl s e fd c).1.errno ≢ 0)
            × (watched (k.epoll_ctl s e fd c).0 e ≡ watched s e))
  pub wait_keeps :
      (s : k.State) (e max timeout : ℤ) → watched (k.epoll_wait s e max timeout).0 e ≡ watched s e
  pub wait_answer :
      (s : k.State) (e max timeout : ℤ)
      → ((k.epoll_wait s e max timeout).1.ret ≡ minus_one)
        ⊎ ((m n : ℕ) × (max ≡ pos (suc m))
            × (n ≤ suc m)
            × ((k.epoll_wait s e max timeout).1.ret ≡ pos n))
  pub few : (s : k.State) (e : ℤ) → length (watched s e) < 2 ^ 31

-- The operations of an epoll object, and what becomes of one: none if it throws, and the number of
-- events that it returns.
pub data Op : Type 0 where
  adding : ℤ → EpollEvent → Op
  modding : ℤ → EpollEvent → Op
  deleting : ℤ → Op
  waiting : ℤ → Op

abbrev pub done {ℓ} : {A : Type ℓ} → (A → ℕ) → Result A → Option ℕ
done size (ok a) = some (size a)
done size (err e) = none

-- The abstract object: what an operation with that outcome does to the list, if it can have it.
abbrev pub next : Op → Option ℕ → Interest → Option Interest
next op none xs = some xs
next (adding fd e) (some n) xs = change fd (ctl_add e) xs
next (modding fd e) (some n) xs = change fd (ctl_mod e) xs
next (deleting fd) (some n) xs = change fd ctl_del xs
next (waiting t) (some n) xs = if ltb 0 (length xs) && leb n (length xs) then some xs else none

abbrev pub replay : List Op → List (Option ℕ) → Interest → Option Interest
replay (op ∷ ops) (o ∷ os) xs = elim (next op o xs) [ none ↦ none | some ys ↦ replay ops os ys ]
replay _ _ xs = some xs

module _ (k : Kernel) where
  unfoldable pub perform : Op → Epoll → k.State → Option ℕ × (Epoll × k.State)
  unfolding add mod_ del wait_vector_for
  perform (adding fd event) e s = let (r, after) = add k fd event e s in (done (λ _. 0) r, after)
  perform (modding fd event) e s = let (r, after) = mod_ k fd event e s in (done (λ _. 0) r, after)
  perform (deleting fd) e s = let (r, after) = del k fd e s in (done (λ _. 0) r, after)
  perform (waiting timeout) e s =
      let (r, after) = wait_vector_for k timeout e s in (done length r, (e, after))

  unfoldable pub run : List Op → Epoll → k.State → List (Option ℕ) × (Epoll × k.State)
  unfolding perform
  run [] e s = ([], (e, s))
  run (op ∷ ops) e s =
      let (o, (e1, s1)) = perform op e s in let (os, after) = run ops e1 s1 in (o ∷ os, after)
