-- ===== src/Ioloop/Registry/Agree.antt =====
-- The map of handlers and the interest list of the epoll object are about the same descriptors, and
-- what keeps them so.
use liblinuxpp.Prelude.{
  ℕ, ◌≡◌, refl, ◌∙◌, true, false, List, [], ◌∷◌, ◌++◌, some, arith, All, All-append,
}
use liblinuxpp.Prelude.Int.{ℤ, pos}
use liblinuxpp.Epoll.{EpollEvent, ptr, ctl_add, ctl_del}
use liblinuxpp.Epoll.Interest.{Interest, has, forget, change}
use liblinuxpp.Ioloop.Entries.{has_handle, erase}
use liblinuxpp.Ioloop.State.{Handler}
use liblinuxpp.Ioloop.Handlers.{fd_of}
use liblinuxpp.Ioloop.Handlers.Laws.{IsDistinct, has-erase, erase-IsDistinct}
use liblinuxpp.Ioloop.Registry.Interests.{
  IsUnique, IsPointer, has-append, append-IsUnique, has-forget, forget-IsUnique, forget-pointers,
}

-- The map and the list have the same descriptors, each once, and each event points to its handler.
pub record Agree (hs : List Handler) (xs : Interest) : Type 0 where
  pub same : (fd : ℕ) → has (pos fd) xs ≡ has_handle fd_of fd hs
  pub unique : IsUnique xs
  pub distinct : IsDistinct hs
  pub points : All IsPointer xs

pub add-Agree :
    (h : Handler) (e : EpollEvent) (hs : List Handler) (xs : Interest)
    → Agree hs xs
    → has_handle fd_of h.fd hs ≡ false
    → e.data_ ≡ ptr h.fd
    → Agree (h ∷ hs) (xs ++ (pos h.fd, e) ∷ [])
add-Agree h e hs xs a new points = record {
  same = λ fd. ground (arith, a.same fd, has-append (pos fd) (pos h.fd) e xs);
  unique = append-IsUnique (pos h.fd) e xs a.unique (a.same h.fd ∙ new);
  distinct = (new, a.distinct);
  points = All-append IsPointer xs _ a.points ((h.fd, refl, points), tt);
}

pub del-Agree :
    (fd : ℕ) (hs : List Handler) (xs : Interest)
    → Agree hs xs
    → Agree (erase fd_of fd hs) (forget (pos fd) xs)
del-Agree fd hs xs a = record {
  same = λ n.
      ground
        (arith, a.same n, has-forget (pos n) (pos fd) xs a.unique, has-erase n fd hs a.distinct);
  unique = forget-IsUnique (pos fd) xs a.unique;
  distinct = erase-IsDistinct fd hs a.distinct;
  points = forget-pointers (pos fd) xs a.points;
}

pub gone-Agree :
    (fd : ℕ) (hs : List Handler) (xs : Interest)
    → Agree hs xs
    → has (pos fd) xs ≡ false
    → Agree (erase fd_of fd hs) xs
gone-Agree fd hs xs a gone = record {
  same = λ n. ground (arith, a.same n, a.same fd, gone, has-erase n fd hs a.distinct);
  unique = a.unique;
  distinct = erase-IsDistinct fd hs a.distinct;
  points = a.points;
}

pub added_is :
    (fd : ℤ) (e : EpollEvent) (xs ys : Interest)
    → change fd (ctl_add e) xs ≡ some ys
    → ys ≡ xs ++ (fd, e) ∷ []
added_is fd e xs ys h = ground arith

pub deleted_is :
    (fd : ℤ) (xs ys : Interest)
    → change fd ctl_del xs ≡ some ys
    → (has fd xs ≡ true) × (ys ≡ forget fd xs)
deleted_is fd xs ys h = ground arith
