-- ===== src/Descriptor.antt =====
-- linuxpp::int_descriptor, file_descriptor and pid (include/liblinuxpp/int_descriptor.hpp,
-- file_descriptor.hpp, pid.hpp) and linuxpp::unique_fd (include/liblinuxpp/unique_fd.hpp). An operation
-- that changes both of its operands returns both.
pub mod Ownership
use liblinuxpp.Prelude.{ℕ, zero, Bool, true, not, List, [], ◌∷◌, ◌++◌, if◌then◌else◌}
use liblinuxpp.Prelude.Int.{ℤ, pos, negsuc, eqb_ℤ, ltb_ℤ}

-- closed_fd, invalid_pid, and the invalid_value of the traits of both.
abbrev pub invalid_value : ℤ
invalid_value = negsuc 0

pub record IntDescriptor : Type 0 where
  pub descriptor : ℤ

-- The default constructor and the one from a value.
abbrev pub unset : IntDescriptor
unset = record { descriptor = invalid_value }

abbrev pub of_value : ℤ → IntDescriptor
of_value value = record { descriptor = value }

-- int_descriptor(int_descriptor &&): the new object, and the other one.
unfoldable pub move : IntDescriptor → IntDescriptor × IntDescriptor
move other = (record { descriptor = other.descriptor }, record other { descriptor = invalid_value })

-- operator=(int_descriptor &&) between two objects: this one, and the other.
unfoldable pub move_assign : IntDescriptor → IntDescriptor → IntDescriptor × IntDescriptor
move_assign this other =
    (record this { descriptor = other.descriptor }, record other { descriptor = invalid_value })

unfoldable pub swap : IntDescriptor → IntDescriptor → IntDescriptor × IntDescriptor
swap this other =
    (record this { descriptor = other.descriptor }, record other { descriptor = this.descriptor })

unfoldable pub reset : IntDescriptor → ℤ → IntDescriptor
reset this value = record this { descriptor = value }

-- release: the object, and the value that it held.
unfoldable pub release : IntDescriptor → IntDescriptor × ℤ
release this = (record this { descriptor = invalid_value }, this.descriptor)

-- operator bool, ==, !=, <.
unfoldable pub is_set : IntDescriptor → Bool
is_set this = not (eqb_ℤ this.descriptor invalid_value)

unfoldable pub equal : IntDescriptor → IntDescriptor → Bool
equal lhs rhs = eqb_ℤ lhs.descriptor rhs.descriptor

unfoldable pub less : IntDescriptor → IntDescriptor → Bool
less lhs rhs = ltb_ℤ lhs.descriptor rhs.descriptor

-- unique_fd, whose closer adds to the list of the values that it was called with.
pub record UniqueFd : Type 0 where
  pub fd_member : IntDescriptor

abbrev pub manage : ℤ → UniqueFd
manage fd = record { fd_member = of_value fd }

-- unique_fd::reset: the object, and the calls of the closer.
unfoldable pub unique_reset : UniqueFd → ℤ → List ℤ → UniqueFd × List ℤ
unfolding reset
unique_reset this fd closed =
    let old_fd = this.fd_member.descriptor in
    (
      record this { fd_member = reset this.fd_member fd },
      if eqb_ℤ old_fd invalid_value then closed else old_fd ∷ closed,
    )

-- The destructor: what is left of the calls of the closer.
unfoldable pub unique_destroy : UniqueFd → List ℤ → List ℤ
unfolding unique_reset
unique_destroy this closed = (unique_reset this invalid_value closed).1

-- The defaulted move constructor and move assignment, member by member.
unfoldable pub unique_move : UniqueFd → UniqueFd × UniqueFd
unfolding move
unique_move src =
    let (taken, given) = move src.fd_member in
    (record { fd_member = taken }, record src { fd_member = given })

unfoldable pub unique_move_assign : UniqueFd → UniqueFd → UniqueFd × UniqueFd
unfolding move_assign
unique_move_assign this src =
    let (taken, given) = move_assign this.fd_member src.fd_member in
    (record this { fd_member = taken }, record src { fd_member = given })

unfoldable pub unique_swap : UniqueFd → UniqueFd → UniqueFd × UniqueFd
unique_swap this other = (other, this)

unfoldable pub unique_release : UniqueFd → UniqueFd × ℤ
unfolding release
unique_release this =
    let (left, value) = release this.fd_member in (record this { fd_member = left }, value)

-- What a scope does with the unique_fd objects `a` and `b` that it holds; `given` and `taken` are the
-- descriptors that it hands to them and that it releases.
pub data Op : Type 0 where
  reset_first : ℤ → Op
  release_first : Op
  assign_first : Op
  exchange : Op

pub record Scope : Type 0 where
  pub a : UniqueFd
  pub b : UniqueFd
  pub closed : List ℤ
  pub given : List ℤ
  pub taken : List ℤ

-- The operations on `a`; those on `b` are these after an exchange.
unfoldable pub step : Op → Scope → Scope
unfolding unique_reset unique_release unique_move_assign unique_swap
step (reset_first fd) s =
    let (a', closed') = unique_reset s.a fd s.closed in
    record s { a = a'; closed = closed'; given = fd ∷ s.given }
step release_first s =
    let (a', value) = unique_release s.a in record s { a = a'; taken = value ∷ s.taken }
step assign_first s = let (a', b') = unique_move_assign s.a s.b in record s { a = a'; b = b' }
step exchange s = let (a', b') = unique_swap s.a s.b in record s { a = a'; b = b' }

unfoldable pub run : List Op → Scope → Scope
run [] s = s
run (o ∷ ops) s = run ops (step o s)

-- The end of the scope: both destructors, in the reverse order of the constructors.
unfoldable pub leave : Scope → List ℤ
unfolding unique_destroy
leave s = unique_destroy s.a (unique_destroy s.b s.closed)
