-- ===== src/Descriptor/Ownership.antt =====
-- Where the descriptors go that unique_fd objects manage (include/liblinuxpp/unique_fd.hpp).
use liblinuxpp.Prelude.{ℕ, ◌+◌, ◌≡◌, List, [], ◌∷◌, arith, if◌then◌else◌}
use liblinuxpp.Prelude.Int.{ℤ, pos, eqb_ℤ}
use liblinuxpp.Descriptor.{
  UniqueFd, Scope, Op, reset_first, release_first, assign_first, exchange, invalid_value, manage,
  step, run, leave,
}

abbrev pub hits : ℕ → ℤ → ℕ
hits f v = if eqb_ℤ v (pos f) then 1 else 0

abbrev pub count : ℕ → List ℤ → ℕ
count f [] = 0
count f (v ∷ vs) = hits f v + count f vs

abbrev pub held : ℕ → UniqueFd → ℕ
held f u = hits f u.fd_member.descriptor

-- How often a descriptor is managed, has been closed, and has been released.
abbrev pub account : ℕ → Scope → ℕ
account f s = held f s.a + held f s.b + count f s.closed + count f s.taken

-- What an operation loses: only a move assignment loses anything, the descriptor of its target.
abbrev pub lost : ℕ → Op → Scope → ℕ
lost f assign_first s = held f s.a
lost f _ s = 0

abbrev pub lost_in : ℕ → List Op → Scope → ℕ
lost_in f [] s = 0
lost_in f (o ∷ ops) s = lost f o s + lost_in f ops (step o s)

step-account :
    (f : ℕ) (o : Op) (s : Scope)
    → account f (step o s) + lost f o s + count f s.given ≡ account f s + count f (step o s).given
unfolding step
step-account f (reset_first fd) s = ground arith
step-account f release_first s = ground arith
step-account f assign_first s = ground arith
step-account f exchange s = ground arith

run-account :
    (f : ℕ) (ops : List Op) (s : Scope)
    → account f (run ops s) + lost_in f ops s + count f s.given
      ≡ account f s + count f (run ops s).given
unfolding run
run-account f [] s = omega arith
run-account f (o ∷ ops) s = omega (arith, step-account f o s, run-account f ops (step o s))

leave-count : (f : ℕ) (s : Scope) → count f (leave s) ≡ held f s.a + held f s.b + count f s.closed
unfolding leave
leave-count f s = ground arith

-- A scope with nothing in it.
abbrev pub fresh : Scope
fresh = record {
  a = manage invalid_value;
  b = manage invalid_value;
  closed = [];
  given = [];
  taken = [];
}

-- Every descriptor that a scope hands to its two unique_fd objects is closed or released by the end
-- of the scope, as often as it was handed over, but for those that move assignments lose: each
-- loses what its target managed.
pub leave-run :
    (f : ℕ) (ops : List Op)
    → let s = run ops fresh in
      count f (leave s) + count f s.taken + lost_in f ops fresh ≡ count f s.given
leave-run f ops = omega (arith, run-account f ops fresh, leave-count f (run ops fresh))
