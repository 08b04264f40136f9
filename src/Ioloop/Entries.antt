-- ===== src/Ioloop/Entries.antt =====
-- What the two kinds of timeouts share in src/ioloop.cpp: vectors of entries with a handle and a due
-- time, searched for a handle, kept sorted by due time, and guarded by a one-shot timer.
pub mod Laws
use liblinuxpp.Prelude.{
  ℕ, ◌≤◌, Bool, true, false, List, [], ◌∷◌, Option, none, some, ◌==◌, if◌then◌else◌,
}
use liblinuxpp.Prelude.Sorted.{insert}

module _ {A : Type 0} (id_of : A → ℕ) where
  -- Does some entry have the handle?
  abbrev pub has_handle : ℕ → List A → Bool
  has_handle h [] = false
  has_handle h (t ∷ ts) = if id_of t == h then true else has_handle h ts

  -- The vector with the first entry of that handle erased, or changed by `f`.
  abbrev pub erase : ℕ → List A → List A
  erase h [] = []
  erase h (t ∷ ts) = if id_of t == h then ts else t ∷ erase h ts

  abbrev pub mark : (A → A) → ℕ → List A → List A
  mark f h [] = []
  mark f h (t ∷ ts) = if id_of t == h then f t ∷ ts else t ∷ mark f h ts

module _ {A : Type 0} (due : A → ℕ) where
  -- The loop that merges the pending additions.
  abbrev pub insert_all : List A → List A → List A
  insert_all [] ts = ts
  insert_all (p ∷ ps) ts = insert_all ps (insert due p ts)

  -- Re-arming the timer at the earliest timeout, if there is one.
  abbrev pub rearm : List A → Option ℕ → Option ℕ
  rearm [] armed = armed
  rearm (t ∷ ts) armed = some (due t)

  -- The timer is set, and no later than the first timeout.
  abbrev pub IsArmed : List A → Option ℕ → Type 0
  IsArmed [] armed = Unit
  IsArmed (t ∷ ts) none = ⊥
  IsArmed (t ∷ ts) (some d) = d ≤ due t
