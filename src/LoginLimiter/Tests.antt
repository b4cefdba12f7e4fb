-- ===== src/LoginLimiter/Tests.antt =====
-- The properties of internal/httpx/loginlimiter.go at a window of 10 with room for two attempts.
use opentea.Prelude.{ℕ, ◌≤◌, String, ◌≡◌, refl, true, false, List, [], ◌∷◌, arith}
use opentea.LoginLimiter.{
  attempts_of, put_attempts, tracked, allow, allow_all, new_login_limiter_with_limits,
}
use opentea.LoginLimiter.Window.{IsOrdered, admit_all}
use opentea.LoginLimiter.Refinement.{allow_all-admit_all}
use opentea.LoginLimiter.Bound.{admitted, in_window, allow_all-AtMost}

abbrev calls : List (ℕ × String)
calls = (1, "a") ∷ (2, "b") ∷ (3, "a") ∷ (4, "a") ∷ (12, "a") ∷ []

answers :
    allow_all calls (new_login_limiter_with_limits 2 10) ≡ true ∷ true ∷ true ∷ false ∷ true ∷ []
unfolding allow_all allow tracked attempts_of put_attempts
answers = refl

ordered : IsOrdered 0 calls
ordered = (omega arith, (omega arith, (omega arith, (omega arith, (omega arith, tt)))))

allow_all-admit_all_example :
    allow_all calls (new_login_limiter_with_limits 2 10) ≡ admit_all 2 10 calls []
allow_all-admit_all_example = allow_all-admit_all 2 10 calls ordered (omega arith)

allow_all-AtMost_example :
    in_window 10 13 "a" (admitted calls (allow_all calls (new_login_limiter_with_limits 2 10))) ≤ 2
allow_all-AtMost_example = allow_all-AtMost 2 10 calls "a" 13 ordered (omega arith) (omega arith)
