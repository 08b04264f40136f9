-- ===== src/Examples/Streams.antt =====
-- Examples of the standard streams of a child (src/subprocess/popen.cpp), over a table that is a
-- function from descriptors to files.
use liblinuxpp.Prelude.{List, [], ◌∷◌, ℕ, ◌≡◌, ◌≢◌, refl, if◌then◌else◌, Option, none, some, arith}
use liblinuxpp.Prelude.Int.{ℤ, pos, eqb_ℤ}
use liblinuxpp.Subprocess.Streams.{
  Kernel, IsKernel, StreamDescriptors, no_descriptors, of_fd, pipe_stream, fd_stream, null_stream,
  is_open, handle_child_stream, child_streams, child_stream,
}
use liblinuxpp.Subprocess.Streams.Table.{handle_child_stream_ok}
use liblinuxpp.Subprocess.Streams.Child.{IsReady, child_streams_lem}
use liblinuxpp.Subprocess.Streams.Handler.{
  Answers, is_listed, is_standard, close_listed, close_all_descriptors_via_proc, close_others,
  handler_end, clone_handler, clone_handler_lem,
}
use liblinuxpp.Subprocess.Streams.Shared.{shared_descriptor_fails}

abbrev pub Files : Type 0
Files = ℤ → Option ℕ

abbrev duplicate : Option ℕ → Files → ℤ → Files × ℕ
duplicate none t new = (t, 9)
duplicate (some f) t new = ((λ j. if eqb_ℤ j new then some f else t j), 0)

abbrev pub kernel : Kernel
kernel = record {
  Table = Files;
  file = λ t j. t j;
  close = λ t fd j. if eqb_ℤ j fd then none else t j;
  dup2 = λ t old new. duplicate (t old) t new;
}

duplicate-file :
    (o : Option ℕ) (t : Files) (new j : ℤ)
    → (duplicate o t new).1 ≡ 0
    → (duplicate o t new).0 j ≡ (if eqb_ℤ j new then o else t j)
duplicate-file none t new j e = absurd (omega (arith, e))
duplicate-file (some f) t new j e = refl

duplicate-some : (o : Option ℕ) (t : Files) (new : ℤ) → (duplicate o t new).1 ≡ 0 → o ≢ none
duplicate-some none t new e n = absurd (omega (arith, e))
duplicate-some (some f) t new e n = cc

pub kernel-IsKernel : IsKernel kernel
kernel-IsKernel = record {
  file_after_close = λ t fd j. refl;
  file_after_dup2 = λ t old new j e. duplicate-file (t old) t new j e;
  dup2_wants_open = λ t old new e. duplicate-some (t old) t new e;
}

-- Every descriptor refers to the file 7.
abbrev pub sevens : Files
sevens j = some 7

handle_child_stream_ok_example :
    (handle_child_stream kernel sevens (pos 4) (pos 3) (pos 1)).0 (pos 1) ≡ some 7
unfolding handle_child_stream
handle_child_stream_ok_example =
    handle_child_stream_ok kernel kernel-IsKernel sevens (pos 4) (pos 3) (pos 1) (pos 1) refl

abbrev input : StreamDescriptors
input = pipe_stream (pos 3) (pos 4)

abbrev output : StreamDescriptors
output = fd_stream (pos 5) (pos 6)

abbrev errors : StreamDescriptors
errors = null_stream (pos 7)

input-IsReady : IsReady input
unfolding is_open
input-IsReady = record {
  opened = refl;
  high_read = (refl, refl, refl);
  high_write = (refl, refl, refl);
}

output-IsReady : IsReady output
unfolding is_open
output-IsReady = record {
  opened = refl;
  high_read = (refl, refl, refl);
  high_write = (refl, refl, refl);
}

errors-IsReady : IsReady errors
unfolding is_open
errors-IsReady = record {
  opened = refl;
  high_read = (refl, refl, refl);
  high_write = (refl, refl, refl);
}

streams_done : (child_streams kernel sevens input output errors).1 ≡ none
unfolding child_streams child_stream handle_child_stream is_open
streams_done = refl

child_streams_lem_example :
    ((child_streams kernel sevens input output errors).0 (pos 0) ≡ some 7)
    × ((child_streams kernel sevens input output errors).0 (pos 1) ≡ some 7)
    × ((child_streams kernel sevens input output errors).0 (pos 2) ≡ some 7)
child_streams_lem_example =
    child_streams_lem kernel kernel-IsKernel sevens input output errors input-IsReady output-IsReady
      errors-IsReady (refl, refl) ((refl, refl), (refl, refl)) streams_done

shared_descriptor_fails_example :
    (child_streams kernel sevens no_descriptors (of_fd (pos 7)) (of_fd (pos 7))).1 ≢ none
unfolding is_open
shared_descriptor_fails_example =
    shared_descriptor_fails kernel kernel-IsKernel sevens no_descriptors (pos 7) refl

abbrev numbers : List ℤ
numbers = pos 0 ∷ pos 1 ∷ pos 2 ∷ pos 3 ∷ pos 4 ∷ pos 5 ∷ pos 6 ∷ pos 7 ∷ []

abbrev seven_open : Files
seven_open j = if is_listed j numbers then some 7 else none

abbrev answers : Answers
answers = record {
  listing = pos 8 ∷ numbers;
  dirfd = some (pos 8);
  proc_error = 0;
  rlimit_error = 0;
  rlim_cur = none;
  sigmask_error = 0;
  exec_error = 0;
}

clone_handler_lem_example :
    ((child_streams kernel seven_open input output errors).1 ≡ none)
    × ((clone_handler kernel seven_open input output errors answers).0 (pos 5) ≡ none)
unfolding child_streams child_stream handle_child_stream is_open clone_handler handler_end
    close_others close_all_descriptors_via_proc close_listed is_standard
clone_handler_lem_example =
    clone_handler_lem kernel kernel-IsKernel seven_open input output errors answers (pos 8) (pos 5)
      refl refl refl refl (λ e. refl)
