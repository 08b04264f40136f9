-- ===== src/Subprocess/Streams/Table.antt =====
-- What handle_child_stream and the closing loop of clone_handler do to the table of descriptors
-- (src/subprocess/popen.cpp).
use liblinuxpp.Prelude.{
  ℕ, zero, suc, ◌≡◌, ◌≢◌, refl, ◌∙◌, ap, true, false, not, ◌&&◌, if◌then◌else◌, none, ltb, arith,
  inl, inr, Bool-cases,
}
use liblinuxpp.Prelude.Int.{ℤ, pos, negsuc, eqb_ℤ, eqb_ℤ_iff}
use liblinuxpp.Subprocess.Streams.{Kernel, IsKernel, handle_child_stream, close_below}

pub eqb_ℤ_sym : (a b : ℤ) → eqb_ℤ a b ≡ eqb_ℤ b a
eqb_ℤ_sym (pos a) (pos b) = ground arith
eqb_ℤ_sym (pos a) (negsuc b) = refl
eqb_ℤ_sym (negsuc a) (pos b) = refl
eqb_ℤ_sym (negsuc a) (negsuc b) = ground arith

module _ (k : Kernel) (law : IsKernel k) where
  abbrev one_end : k.Table → ℤ → ℤ → k.Table
  one_end t owned other = if eqb_ℤ other owned then t else k.close t other

  one_end-owned :
      (t : k.Table) (owned other : ℤ) → k.file (one_end t owned other) owned ≡ k.file t owned
  one_end-owned t owned other =
      ground (arith, law.file_after_close t other owned, eqb_ℤ_sym owned other)

  one_end-other :
      (t : k.Table) (owned other j : ℤ)
      → eqb_ℤ j owned ≡ false
      → k.file (one_end t owned other) j ≡ (if eqb_ℤ j other then none else k.file t j)
  one_end-other t owned other j e = elim (Bool-cases (eqb_ℤ other owned)) [
    | inl same ↦ rw same (rw (other_than_owned same) refl)
    | inr apart ↦ rw apart (law.file_after_close t other j)
  ]
    where
      other_than_owned : eqb_ℤ other owned ≡ true → eqb_ℤ j other ≡ false
      other_than_owned same = ap (λ x. eqb_ℤ j x) ((eqb_ℤ_iff other owned).0 same) ∙ e

  -- Over a kernel that obeys the laws of close and dup2, where handle_child_stream succeeds, the
  -- new descriptor refers to the file of the owned one, the two ends of the stream are closed and
  -- every other descriptor is as it was; the closing of the owned descriptor comes last, so where
  -- it is the new one, that is closed.
  pub handle_child_stream_ok :
      (t : k.Table) (owned other new j : ℤ)
      → (handle_child_stream k t owned other new).1 ≡ 0
      → k.file (handle_child_stream k t owned other new).0 j ≡ (
          if eqb_ℤ j owned
          then none
          else (if eqb_ℤ j new
              then k.file t owned
              else (if eqb_ℤ j other then none else k.file t j)))
  unfolding handle_child_stream
  handle_child_stream_ok t owned other new j e = elim (Bool-cases (eqb_ℤ j owned)) [
    | inl same ↦ ground (arith, law.file_after_close u owned j)
    | inr apart ↦ ground (
      arith,
      law.file_after_close u owned j,
      law.file_after_dup2 (one_end t owned other) owned new j,
      one_end-owned t owned other,
      one_end-other t owned other j apart,
    )
  ]
    where
      u : k.Table
      u = (k.dup2 (one_end t owned other) owned new).0

  -- handle_child_stream succeeds only where the descriptor that it duplicates is open.
  pub handle_child_stream_opened :
      (t : k.Table) (owned other new : ℤ)
      → (handle_child_stream k t owned other new).1 ≡ 0
      → k.file t owned ≢ none
  unfolding handle_child_stream
  handle_child_stream_opened t owned other new e none_there =
      law.dup2_wants_open (one_end t owned other) owned new (ground arith)
        (one_end-owned t owned other ∙ none_there)

  -- Over a kernel that obeys the law of close, the loop of clone_handler closes the descriptors
  -- from 3 up to the limit, and no others.
  pub close_below_lem :
      (n : ℕ) (t : k.Table) (j : ℕ)
      → k.file (close_below k n t) (pos j)
        ≡ (if ltb j n && not (ltb j 3) then none else k.file t (pos j))
  unfolding close_below
  close_below_lem zero t j = ground arith
  close_below_lem (suc n) t j =
      ground
        (arith, close_below_lem n t j, law.file_after_close (close_below k n t) (pos n) (pos j))
