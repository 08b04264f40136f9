-- ===== src/Timer/Oneshot.antt =====
-- The times that set_oneshot arms a timer with (include/liblinuxpp/monotonic_timerfd.hpp,
-- src/monotonic_timerfd.cpp).
use native.Mathlib.Nat.{div-div-eq-div-mul, lt-div-mul-add, suc-mul, zero-mul, zero-div}
use mathlib.Core.Path.{subst}
use liblinuxpp.Prelude.{
  Bool, ℕ, zero, suc, ◌+◌, ◌-◌, ◌*◌, ◌/◌, ◌^◌, ◌<◌, ◌≤◌, ◌≡◌, ◌⊎◌, refl, sym, ap, ◌∙◌, ltb, ◌==◌,
  if◌then◌else◌, List, ◌∷◌, Option, none, some, true, false, arith, Bool-cases, inl, inr,
}
use liblinuxpp.Prelude.Int.{pos, negsuc, eqb_ℤ}
use liblinuxpp.Calls
use liblinuxpp.Calls.{
  Timespec, Answer, Call, Kernel, Result, ok, err, system_error, checked, minus_one,
}
use liblinuxpp.Files.{fd_of}
use liblinuxpp.Timer.{Timer, Duration, spec_of, nanoseconds, set_oneshot, set_oneshot_at, old_spec}

-- The nanoseconds that a time stands for; none for one that timerfd_settime refuses.
abbrev pub interval : Timespec → Option ℕ
interval t = elim t.tv_sec [
  | pos s ↦ elim t.tv_nsec [
    | pos n ↦ if ltb n (10 ^ 9) then some (s * 10 ^ 9 + n) else none
    | negsuc n ↦ none
  ]
  | negsuc s ↦ none
]

-- The call that arms a timer to expire after so many nanoseconds, at least one: a time of 0 would
-- disarm it.
abbrev pub IsArmed : Timer → ℕ → List Call → List Call → Type 0
IsArmed t n log after =
    (spec : Timespec) × (interval spec ≡ some n)
    × (0 < n)
    × (after ≡ Calls.timerfd_settime (fd_of t.timer_fd) 0 spec ∷ log)

split_lem :
    (offset total seconds : ℕ)
    → seconds ≡ total / 10 ^ 9
    → (offset ≡ 0) ⊎ ((offset ≡ 1) × (total ≡ 0))
    → interval
        (record { tv_sec = pos seconds; tv_nsec = pos (offset + (total - seconds * 10 ^ 9)) })
      ≡ some (offset + total)
split_lem offset total seconds e (inl none_added) = ground (arith, e, none_added)
split_lem offset total seconds e (inr added) = ground (arith, e, added.0, added.1)

suc_test : (n : ℕ) → (suc n == 0) ≡ false
suc_test n = ground arith

interval-spec_of :
    (n num den : ℕ)
    → interval (spec_of (record { count = pos n; num = num; den = den }))
      ≡ some ((if n == 0 then 1 else 0) + n * num / den)
unfolding spec_of
interval-spec_of zero num den =
    split_lem 1 (0 * num / den) (0 * num / (den * 10 ^ 9))
      (sym (div-div-eq-div-mul (0 * num) den (10 ^ 9)))
      (inr (refl, ap (λ m. m / den) (zero-mul num) ∙ zero-div den))
interval-spec_of (suc n) num den = rw (suc_test n) (
    split_lem 0 (suc n * num / den) (suc n * num / (den * 10 ^ 9))
      (sym (div-div-eq-div-mul (suc n * num) den (10 ^ 9))) (inl refl))

positive : (n num den : ℕ) → 0 < den → den ≤ num → 0 < (if n == 0 then 1 else 0) + n * num / den
positive zero num den d p = omega arith
positive (suc n) num den d p = rw (suc_test n) (elim (zero_or (suc n * num / den)) [
  | inl none_left ↦ absurd (
      omega (
        arith,
        lt-div-mul-add {a = suc n * num} {b = den} d,
        suc-mul n num,
        ap (λ q. q * den) none_left,
        zero-mul den,
      ))
  | inr some_left ↦ omega (arith, some_left)
])
  where
    zero_or : (q : ℕ) → (q ≡ 0) ⊎ (0 < q)
    zero_or zero = inl refl
    zero_or (suc q) = inr (omega arith)

module _ (kernel : Kernel) where
  settime_log :
      (t : Timer) (time : Duration) (log : List Call)
      → (set_oneshot kernel t time log).1
        ≡ Calls.timerfd_settime (fd_of t.timer_fd) 0 (spec_of time) ∷ log
  unfolding set_oneshot
  settime_log t time log =
      by_result (checked kernel c log) ∙ checked_log (eqb_ℤ (kernel log c).ret minus_one)
    where
      c : Call
      c = Calls.timerfd_settime (fd_of t.timer_fd) 0 (spec_of time)

      by_result :
          (r : Result Answer × List Call)
          → (elim r.0 as (λ _. Result Timespec × List Call) [
            | ok a ↦ (ok (old_spec a.value), r.1)
            | err e ↦ (err e, r.1)
          ]).1
            ≡ r.1
      by_result (ok a, after) = refl
      by_result (err e, after) = refl

      answered : Bool → Result Answer × List Call
      answered b =
          if b
          then (err (system_error (kernel log c).errno), c ∷ log)
          else (ok (kernel log c), c ∷ log)

      checked_log : (b : Bool) → (answered b).1 ≡ c ∷ log
      checked_log true = refl
      checked_log false = refl

  set_oneshot-IsArmed :
      (t : Timer) (n num den : ℕ) (log : List Call)
      → 0 < den
      → den ≤ num
      → IsArmed t
          ((if n == 0 then 1 else 0) + n * num / den)
          log
          (set_oneshot kernel t (record { count = pos n; num = num; den = den }) log).1
  set_oneshot-IsArmed t n num den log d p =
      let time : Duration = record { count = pos n; num = num; den = den } in
      (spec_of time, interval-spec_of n num den, positive n num den d p, settime_log t time log)

  -- Set_oneshot with a time point makes one call of timerfd_settime, with a time that the kernel
  -- accepts and that stands for the nanoseconds left until the time point, or for 1 if it has
  -- passed, so that the timer is never disarmed.
  pub set_oneshot_at-IsArmed :
      (t : Timer) (now timeout : ℕ) (log : List Call)
      → IsArmed t
          (if ltb now timeout then timeout - now else 1)
          log
          (set_oneshot_at kernel t now timeout log).1
  unfolding set_oneshot_at
  set_oneshot_at-IsArmed t now timeout log = elim (Bool-cases (ltb now timeout)) [
    | inl later ↦ rw later (
        subst (λ m. IsArmed t m log (set_oneshot kernel t (nanoseconds (timeout - now)) log).1)
          (ground (arith, later))
          (set_oneshot-IsArmed t (timeout - now) 1 1 log (omega arith) (omega arith)))
    | inr past ↦ rw past (set_oneshot-IsArmed t 1 1 1 log (omega arith) (omega arith))
  ]
