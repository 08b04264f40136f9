-- ===== src/Ioloop/Registry/Interests.antt =====
-- The interest list of an epoll object under the calls that ioloop makes: which descriptors it has, and
-- that each event points to the handler of its descriptor.
use liblinuxpp.Prelude.{
  ℕ, zero, suc, ◌≡◌, refl, true, false, not, ◌&&◌, ◌||◌, [], ◌∷◌, ◌++◌, some, arith, All, get_elem?,
  Bool-cases, inl, inr,
}
use liblinuxpp.Prelude.Int.{ℤ, pos, eqb_ℤ}
use liblinuxpp.Epoll.{EpollEvent, ptr}
use liblinuxpp.Epoll.Interest.{Interest, has, forget}

-- No descriptor is there twice.
abbrev pub IsUnique : Interest → Type 0
IsUnique [] = Unit
IsUnique ((f, e) ∷ xs) = (has f xs ≡ false) × IsUnique xs

-- The event of a descriptor points to the handler of that descriptor.
abbrev pub IsPointer : ℤ × EpollEvent → Type 0
IsPointer (f, e) = (n : ℕ) × (f ≡ pos n) × (e.data_ ≡ ptr n)

pub has-append :
    (g f : ℤ) (e : EpollEvent) (xs : Interest) → has g (xs ++ (f, e) ∷ []) ≡ (has g xs || eqb_ℤ f g)
has-append g f e [] = ground arith
has-append g f e ((x, w) ∷ xs) = ground (arith, has-append g f e xs)

pub append-IsUnique :
    (f : ℤ) (e : EpollEvent) (xs : Interest)
    → IsUnique xs
    → has f xs ≡ false
    → IsUnique (xs ++ (f, e) ∷ [])
append-IsUnique f e [] u h = (refl, tt)
append-IsUnique f e ((x, w) ∷ xs) u h =
    ground (arith, has-append x f e xs, append-IsUnique f e xs u.1)

pub has-forget :
    (g f : ℤ) (xs : Interest) → IsUnique xs → has g (forget f xs) ≡ (has g xs && not (eqb_ℤ f g))
has-forget g f [] u = refl
has-forget g f ((x, e) ∷ xs) u = ground (arith, has-forget g f xs u.1)

pub forget-IsUnique : (f : ℤ) (xs : Interest) → IsUnique xs → IsUnique (forget f xs)
forget-IsUnique f [] u = u
forget-IsUnique f ((x, e) ∷ xs) u = ground (arith, forget-IsUnique f xs u.1, has-forget x f xs u.1)

pub forget-pointers : (f : ℤ) (xs : Interest) → All IsPointer xs → All IsPointer (forget f xs)
forget-pointers f [] p = p
forget-pointers f ((x, e) ∷ xs) p = elim (Bool-cases (eqb_ℤ x f)) [
  | inl same ↦ rw same p.1
  | inr apart ↦ rw apart (p.0, forget-pointers f xs p.1)
]

-- An entry of the list, by its place.
pub get_elem?-has :
    (xs : Interest) (i : ℕ) {f : ℤ} {e : EpollEvent}
    → All IsPointer xs
    → get_elem? xs i ≡ some (f, e)
    → (n : ℕ) × (e.data_ ≡ ptr n) × (has (pos n) xs ≡ true)
get_elem?-has [] i p h = cc
get_elem?-has ((g, w) ∷ xs) zero p h = let (n, at, points) = p.0 in (n, ground arith, ground arith)
get_elem?-has ((g, w) ∷ xs) (suc i) p h =
    let (n, points, there) = get_elem?-has xs i p.1 h in (n, points, ground arith)
