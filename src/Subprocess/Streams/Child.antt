-- ===== src/Subprocess/Streams/Child.antt =====
-- What the standard streams of a child are (clone_handler of src/subprocess/popen.cpp).
use liblinuxpp.Prelude.{ℕ, ◌≡◌, refl, true, false, if◌then◌else◌, none, arith, ap, ◌∙◌}
use liblinuxpp.Prelude.Int.{ℤ, pos, eqb_ℤ}
use liblinuxpp.Subprocess.Streams.{
  Kernel, IsKernel, StreamDescriptors, is_open, child_stream, child_streams,
}
use liblinuxpp.Subprocess.Streams.Table.{handle_child_stream_ok, eqb_ℤ_sym}

-- None of the three standard descriptors.
abbrev pub IsHigh : ℤ → Type 0
IsHigh fd = (eqb_ℤ fd (pos 0) ≡ false) × (eqb_ℤ fd (pos 1) ≡ false) × (eqb_ℤ fd (pos 2) ≡ false)

-- A stream that is open, on descriptors that are none of the three.
pub record IsReady (d : StreamDescriptors) : Type 0 where
  pub opened : is_open d ≡ true
  pub high_read : IsHigh d.read_fd
  pub high_write : IsHigh d.write_fd

-- The descriptor is none of the stream's.
abbrev pub IsOutside : ℤ → StreamDescriptors → Type 0
IsOutside fd d = (eqb_ℤ fd d.read_fd ≡ false) × (eqb_ℤ fd d.write_fd ≡ false)

module _ (k : Kernel) (law : IsKernel k) where
  -- A descriptor that is not of the stream: it becomes the file of `owned`, or is left alone.
  child_stream-IsOutside :
      (t : k.Table) (d : StreamDescriptors) (owned other new j : ℤ)
      → is_open d ≡ true
      → eqb_ℤ j owned ≡ false
      → eqb_ℤ j other ≡ false
      → (child_stream k t d owned other new).1 ≡ 0
      → k.file (child_stream k t d owned other new).0 j
        ≡ (if eqb_ℤ j new then k.file t owned else k.file t j)
  unfolding child_stream
  child_stream-IsOutside t d owned other new j o a b e =
      ground (arith, handle_child_stream_ok k law t owned other new j)

  module _ (t : k.Table) (sin sout serr : StreamDescriptors) (ready_in : IsReady sin)
      (ready_out : IsReady sout) (ready_err : IsReady serr)
      (apart_out : IsOutside sout.write_fd sin)
      (apart_err : IsOutside serr.write_fd sin × IsOutside serr.write_fd sout)
      (done : (child_streams k t sin sout serr).1 ≡ none) where
    abbrev r1 : k.Table × ℕ
    r1 = child_stream k t sin sin.read_fd sin.write_fd (pos 0)

    abbrev r2 : k.Table × ℕ
    r2 = child_stream k r1.0 sout sout.write_fd sout.read_fd (pos 1)

    abbrev r3 : k.Table × ℕ
    r3 = child_stream k r2.0 serr serr.write_fd serr.read_fd (pos 2)

    all_done : (r1.1 ≡ 0) × (r2.1 ≡ 0) × (r3.1 ≡ 0) × ((child_streams k t sin sout serr).0 ≡ r3.0)
    unfolding child_streams
    all_done = (ground arith, ground arith, ground arith, ground arith)

    -- The three stages at one descriptor that none of the streams owns.
    stage1 :
        (j : ℤ)
        → IsOutside j sin
        → k.file r1.0 j ≡ (if eqb_ℤ j (pos 0) then k.file t sin.read_fd else k.file t j)
    stage1 j o =
        child_stream-IsOutside t sin sin.read_fd sin.write_fd (pos 0) j ready_in.opened o.0 o.1
          all_done.0

    stage2 :
        (j : ℤ)
        → IsOutside j sout
        → k.file r2.0 j ≡ (if eqb_ℤ j (pos 1) then k.file r1.0 sout.write_fd else k.file r1.0 j)
    stage2 j o =
        child_stream-IsOutside r1.0 sout sout.write_fd sout.read_fd (pos 1) j ready_out.opened o.1
          o.0 all_done.1

    stage3 :
        (j : ℤ)
        → IsOutside j serr
        → k.file r3.0 j ≡ (if eqb_ℤ j (pos 2) then k.file r2.0 serr.write_fd else k.file r2.0 j)
    stage3 j o =
        child_stream-IsOutside r2.0 serr serr.write_fd serr.read_fd (pos 2) j ready_err.opened o.1
          o.0 all_done.2

    standard-IsOutside :
        (d : StreamDescriptors)
        → IsReady d
        → IsOutside (pos 0) d × IsOutside (pos 1) d × IsOutside (pos 2) d
    standard-IsOutside d v = (
      (eqb_ℤ_sym (pos 0) d.read_fd ∙ v.high_read.0, eqb_ℤ_sym (pos 0) d.write_fd ∙ v.high_write.0),
      (eqb_ℤ_sym (pos 1) d.read_fd ∙ v.high_read.1, eqb_ℤ_sym (pos 1) d.write_fd ∙ v.high_write.1),
      (eqb_ℤ_sym (pos 2) d.read_fd ∙ v.high_read.2, eqb_ℤ_sym (pos 2) d.write_fd ∙ v.high_write.2),
    )

    -- Over a kernel that obeys the laws of close and dup2, where clone_handler gets past the three
    -- streams, and each is open on descriptors that are not standard ones, the write ends of the
    -- outputs being descriptors of no stream before theirs, the standard input, output and error of
    -- the child are the files of the read end of the first and the write ends of the others.
    pub child_streams_lem :
        let u = (child_streams k t sin sout serr).0 in
        (k.file u (pos 0) ≡ k.file t sin.read_fd)
        × (k.file u (pos 1) ≡ k.file t sout.write_fd)
        × (k.file u (pos 2) ≡ k.file t serr.write_fd)
    child_streams_lem =
        let std_out = standard-IsOutside sout ready_out in
        let std_err = standard-IsOutside serr ready_err in
        let std_in = standard-IsOutside sin ready_in in
        (
          ap (λ u. k.file u (pos 0)) all_done.3
              ∙ stage3 (pos 0) std_err.0
              ∙ stage2 (pos 0) std_out.0
              ∙ stage1 (pos 0) std_in.0,
          ap (λ u. k.file u (pos 1)) all_done.3
              ∙ stage3 (pos 1) std_err.1
              ∙ stage2 (pos 1) std_out.1
              ∙ stage1 sout.write_fd apart_out
              ∙ rw ready_out.high_write.0 refl,
          ap (λ u. k.file u (pos 2)) all_done.3
              ∙ stage3 (pos 2) std_err.2
              ∙ stage2 serr.write_fd apart_err.1
              ∙ rw ready_err.high_write.1 refl
              ∙ stage1 serr.write_fd apart_err.0
              ∙ rw ready_err.high_write.0 refl,
        )
