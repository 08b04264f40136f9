-- ===== src/Subprocess/Argv.antt =====
-- linuxpp::subprocess::argv (include/liblinuxpp/subprocess/argv.hpp, src/subprocess/argv.cpp) and the
-- vector that popen makes of one. Strings are lists of their characters; what the templates print to
-- a std::ostringstream is given as a string.
use mathlib.Core.List.{map-append, append-nil, append_assoc}
use liblinuxpp.Prelude.{
  sym, ℕ, ◌≡◌, refl, ap, ◌∙◌, List, [], ◌∷◌, ◌++◌, map, Option, none, some, length, ◌==◌,
  if◌then◌else◌,
}

-- pointers_, by the characters that each element points to.
pub record Argv : Type 0 where
  pub pointers : List (List ℕ)

unfoldable pub no_arguments : Argv
no_arguments = record { pointers = [] }

-- argv::copy, and std::string::c_str.
unfoldable pub copy : List ℕ → List ℕ
copy str = str ++ 0 ∷ []

unfoldable pub push_back : List ℕ → Argv → Argv
unfolding copy
push_back arg a = record { pointers = a.pointers ++ copy arg ∷ [] }

unfoldable pub push_all : List (List ℕ) → Argv → Argv
unfolding push_back
push_all [] a = a
push_all (s ∷ ss) a = push_all ss (push_back s a)

-- The constructor from arguments.
unfoldable pub of_arguments : List (List ℕ) → Argv
unfolding push_all no_arguments
of_arguments ss = push_all ss no_arguments

unfoldable pub size : Argv → ℕ
size a = length a.pointers

-- The vector of pointers that popen::clone hands to execve; none is the null pointer.
unfoldable pub cmdline : List ℕ → Argv → List (Option (List ℕ))
unfolding copy
cmdline executable a = (some (copy executable) ∷ []) ++ map some a.pointers ++ none ∷ []

-- What the program that is executed gets: a string ends before its first NUL, the vector before its
-- first null pointer.
abbrev pub until_nul : List ℕ → List ℕ
until_nul [] = []
until_nul (c ∷ cs) = let rest = until_nul cs in if c == 0 then [] else c ∷ rest

abbrev pub received : List (Option (List ℕ)) → List (List ℕ)
received [] = []
received (none ∷ ps) = []
received (some s ∷ ps) = until_nul s ∷ received ps

until_nul-copy : (s : List ℕ) → until_nul (copy s) ≡ until_nul s
unfolding copy
until_nul-copy [] = refl
until_nul-copy (c ∷ cs) = ap (λ r. if c == 0 then [] else c ∷ r) (until_nul-copy cs)

received-map : (ps : List (List ℕ)) → received (map some ps ++ none ∷ []) ≡ map until_nul ps
received-map [] = refl
received-map (p ∷ ps) = ap (λ r. until_nul p ∷ r) (received-map ps)

map-push_all :
    (ss : List (List ℕ)) (a : Argv)
    → map until_nul (push_all ss a).pointers ≡ map until_nul a.pointers ++ map until_nul ss
unfolding push_all push_back
map-push_all [] a = sym (append-nil (map until_nul a.pointers))
map-push_all (s ∷ ss) a =
    map-push_all ss (push_back s a)
    ∙ ap (λ l. l ++ map until_nul ss) (map-append until_nul a.pointers (copy s ∷ []))
    ∙ append_assoc (map until_nul a.pointers) (until_nul (copy s) ∷ []) (map until_nul ss)
    ∙ ap (λ c. map until_nul a.pointers ++ c ∷ map until_nul ss) (until_nul-copy s)

pub received-cmdline :
    (executable : List ℕ) (ss : List (List ℕ))
    → received (cmdline executable (of_arguments ss)) ≡ map until_nul (executable ∷ ss)
unfolding cmdline of_arguments no_arguments
received-cmdline executable ss =
    ap (λ l. until_nul (copy executable) ∷ l)
      (received-map (push_all ss no_arguments).pointers ∙ map-push_all ss no_arguments)
    ∙ ap (λ c. c ∷ map until_nul ss) (until_nul-copy executable)
