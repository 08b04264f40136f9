-- ===== src/Subprocess/Streams.antt =====
-- The standard streams of a child (src/subprocess/stream_descriptors.cpp, fd_stream.cpp,
-- null_stream.cpp, path_stream.cpp, pipe_stream.cpp of the same folder, and clone_handler of
-- src/subprocess/popen.cpp). The kernel's table of descriptors is a parameter.
pub mod Table
pub mod Child
pub mod Shared
pub mod Handler
use liblinuxpp.Prelude.{
  ℕ, zero, suc, ◌≡◌, ◌≢◌, Bool, true, false, not, ◌&&◌, ◌==◌, if◌then◌else◌, List, [], ◌∷◌, Option,
  none, some, ltb,
}
use liblinuxpp.Prelude.Int.{ℤ, pos, negsuc, eqb_ℤ}

-- The descriptors of a process: which file each refers to, and the calls that change that. dup2
-- answers 0 or an errno value.
pub record Kernel : Type 1 where
  pub Table : Type 0
  pub file : Table → ℤ → Option ℕ
  pub close : Table → ℤ → Table
  pub dup2 : Table → ℤ → ℤ → Table × ℕ

-- What the documentation of close and dup2 says of them. A close that reports an error has also
-- released the descriptor; a dup2 that succeeds makes `new` refer to the file of `old`, which is open.
pub record IsKernel (k : Kernel) : Type 0 where
  pub file_after_close :
      (t : k.Table) (fd j : ℤ) → k.file (k.close t fd) j ≡ (if eqb_ℤ j fd then none else k.file t j)
  pub file_after_dup2 :
      (t : k.Table) (old new j : ℤ)
      → (k.dup2 t old new).1 ≡ 0
      → k.file (k.dup2 t old new).0 j ≡ (if eqb_ℤ j new then k.file t old else k.file t j)
  pub dup2_wants_open : (t : k.Table) (old new : ℤ) → (k.dup2 t old new).1 ≡ 0 → k.file t old ≢ none

abbrev pub closed_fd : ℤ
closed_fd = negsuc 0

pub record StreamDescriptors : Type 0 where
  pub read_fd : ℤ
  pub write_fd : ℤ

abbrev pub no_descriptors : StreamDescriptors
no_descriptors = record { read_fd = closed_fd; write_fd = closed_fd }

abbrev pub of_fd : ℤ → StreamDescriptors
of_fd fd = record { read_fd = fd; write_fd = fd }

abbrev pub of_pipe : ℤ → ℤ → StreamDescriptors
of_pipe r w = record { read_fd = r; write_fd = w }

-- operator bool.
unfoldable pub is_open : StreamDescriptors → Bool
is_open d = not (eqb_ℤ d.read_fd closed_fd) && not (eqb_ℤ d.write_fd closed_fd)

-- open of the four kinds of streams, by the descriptors that a stream was given or that linuxpp::open
-- and linuxpp::pipe_fd return; where these throw, no child is started.
abbrev pub fd_stream : ℤ → ℤ → StreamDescriptors
fd_stream r w = of_pipe r w

abbrev pub null_stream : ℤ → StreamDescriptors
null_stream opened = of_fd opened

abbrev pub path_stream : ℤ → StreamDescriptors
path_stream opened = of_fd opened

abbrev pub pipe_stream : ℤ → ℤ → StreamDescriptors
pipe_stream r w = of_pipe r w

module _ (k : Kernel) where
  -- handle_child_stream: what is left of the table, and 0 or the errno value that is stored.
  unfoldable pub handle_child_stream : k.Table → ℤ → ℤ → ℤ → k.Table × ℕ
  handle_child_stream t owned_fd other_fd new_fd =
      let one_end = if eqb_ℤ other_fd owned_fd then t else k.close t other_fd in
      let (u, errno) = k.dup2 one_end owned_fd new_fd in
      if errno == 0 then (k.close u owned_fd, 0) else (u, errno)

  -- One of the three tests of clone_handler.
  unfoldable pub child_stream : k.Table → StreamDescriptors → ℤ → ℤ → ℤ → k.Table × ℕ
  unfolding is_open handle_child_stream
  child_stream t d owned_fd other_fd new_fd =
      if is_open d then handle_child_stream t owned_fd other_fd new_fd else (t, 0)

  -- clone_handler up to the closing of the other descriptors: the table, and the value that it
  -- returns with the errno value that it stores, if it returns there.
  unfoldable pub child_streams :
      k.Table → StreamDescriptors → StreamDescriptors → StreamDescriptors → k.Table × Option (ℕ × ℕ)
  unfolding child_stream
  child_streams t sin sout serr =
      let (t1, e1) = child_stream t sin sin.read_fd sin.write_fd (pos 0) in
      let (t2, e2) = child_stream t1 sout sout.write_fd sout.read_fd (pos 1) in
      let (t3, e3) = child_stream t2 serr serr.write_fd serr.read_fd (pos 2) in
      if not (e1 == 0)
      then (t1, some (2, e1))
      else (if not (e2 == 0)
          then (t2, some (3, e2))
          else (if not (e3 == 0) then (t3, some (4, e3)) else (t3, none)))

  -- The loop of clone_handler over the descriptors below the limit.
  unfoldable pub close_below : ℕ → k.Table → k.Table
  close_below zero t = t
  close_below (suc i) t =
      let before = close_below i t in if ltb i 3 then before else k.close before (pos i)

  -- handle_parent_stream: the table, and the descriptor that the parent keeps.
  unfoldable pub handle_parent_stream : k.Table → ℤ → ℤ → k.Table × ℤ
  handle_parent_stream t parent_fd child_fd =
      (k.close t child_fd, if eqb_ℤ parent_fd child_fd then closed_fd else parent_fd)
