-- ===== src/Subprocess/Stack.antt =====
-- linuxpp::subprocess::stack (src/subprocess/stack.hpp, src/subprocess/stack.cpp): memory for the stack of
-- a child. An address is a number; what new[] returns is an argument, none where it throws.
use liblinuxpp.Prelude.{ℕ, ◌+◌, Option, none, some, ◌==◌, if◌then◌else◌}

pub record Stack : Type 0 where
  pub size : ℕ
  pub memory : ℕ

pub data Error : Type 0 where
  bad_alloc : Error
  invalid_argument : Error

pub data Result {ℓ} (A : Type ℓ) : Type ℓ where
  ok : A → Result A
  err : Error → Result A

-- The constructor. The test comes after the allocation, which is undone where it throws.
abbrev pub construct : ℕ → Option ℕ → Result Stack
construct size none = err bad_alloc
construct size (some memory) =
    if size == 0 then err invalid_argument else ok (record { size = size; memory = memory })

-- stack::get: stacks grow downward.
abbrev pub get : Stack → ℕ
get s = s.memory + s.size
