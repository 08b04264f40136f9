-- ===== src/Subprocess/Streams/Shared.antt =====
-- One descriptor as the standard output and the standard error of a child
-- (clone_handler of src/subprocess/popen.cpp).
use liblinuxpp.Prelude.{◌≡◌, ◌≢◌, refl, ◌∙◌, true, none, arith}
use liblinuxpp.Prelude.Int.{ℤ, pos, eqb_ℤ_iff}
use liblinuxpp.Subprocess.Streams.{
  Kernel, IsKernel, StreamDescriptors, of_fd, is_open, handle_child_stream, child_stream,
  child_streams,
}
use liblinuxpp.Subprocess.Streams.Table.{handle_child_stream_ok, handle_child_stream_opened}

module _ (k : Kernel) (law : IsKernel k) where
  second_fails :
      (t : k.Table) (fd : ℤ)
      → (handle_child_stream k t fd fd (pos 1)).1 ≡ 0
      → (handle_child_stream k (handle_child_stream k t fd fd (pos 1)).0 fd fd (pos 2)).1 ≢ 0
  second_fails t fd first second =
      handle_child_stream_opened k law (handle_child_stream k t fd fd (pos 1)).0 fd fd (pos 2)
        second
        (handle_child_stream_ok k law t fd fd (pos 1) fd first ∙ rw ((eqb_ℤ_iff fd fd).1 refl) refl)

  -- Over a kernel that obeys the laws of close and dup2, where the standard output and the standard
  -- error of a child are to be one set descriptor, clone_handler does not get past the streams.
  pub shared_descriptor_fails :
      (t : k.Table) (sin : StreamDescriptors) (fd : ℤ)
      → is_open (of_fd fd) ≡ true
      → (child_streams k t sin (of_fd fd) (of_fd fd)).1 ≢ none
  unfolding child_streams child_stream
  shared_descriptor_fails t sin fd o done =
      second_fails (child_stream k t sin sin.read_fd sin.write_fd (pos 0)).0 fd (ground arith)
        (ground arith)
