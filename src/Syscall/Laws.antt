-- ===== src/Syscall/Laws.antt =====
-- What a syscall_return tells (include/liblinuxpp/syscall_return.hpp, src/pipe.cpp, src/epoll.cpp).
use liblinuxpp.Prelude.{ℕ, zero, suc, ◌≡◌, ◌≢◌, ◌↔◌, refl, true, arith}
use liblinuxpp.Prelude.Int.{ℤ, pos, negsuc}
use liblinuxpp.Syscall.{is_good, checked_return}

-- Where the returned value is looked at first, the result is good exactly when the call did not
-- return -1, whatever errno held before, given that a failing call sets errno.
pub checked_return_good :
    (errno : ℕ) (ret : ℤ)
    → (ret ≡ negsuc 0 → errno ≢ 0)
    → (is_good (checked_return errno ret) ≡ true) ↔ (ret ≢ negsuc 0)
unfolding is_good checked_return
checked_return_good errno (pos n) sets = ((λ e f. cc), λ e. refl)
checked_return_good errno (negsuc zero) sets =
    ((λ e f. sets refl (ground arith)), λ e. absurd (e refl))
checked_return_good errno (negsuc (suc n)) sets = ((λ e f. cc), λ e. ground arith)
