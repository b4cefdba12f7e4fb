-- ===== src/LoginLimiter.antt =====
-- internal/httpx/loginlimiter.go: attempts to log in, limited for each source address in a sliding
-- window. Times are nanoseconds; `l.mu` makes the calls of `Allow` a sequence.
pub mod Window
pub mod Refinement
pub mod Bound
mod Tests
use opentea.Prelude.{
  ℕ, ◌+◌, String, Bool, true, false, List, [], ◌∷◌, ◌++◌, ◌==◌, ltb, leb, if◌then◌else◌, filter,
  length,
}

-- `map[string][]time.Time`: one entry for each key.
abbrev pub Attempts : Type 0
Attempts = List (String × List ℕ)

pub record LoginLimiter : Type 0 where
  pub attempts : Attempts
  pub limit : ℕ
  pub window : ℕ

abbrev pub login_limiter_max_tracked_ips : ℕ
login_limiter_max_tracked_ips = 10000

abbrev pub default_login_rate_limit : ℕ
default_login_rate_limit = 5

abbrev pub default_login_rate_window : ℕ
default_login_rate_window = 60000000000

abbrev pub new_login_limiter_with_limits : ℕ → ℕ → LoginLimiter
new_login_limiter_with_limits limit window = record {
  attempts = [];
  limit = limit;
  window = window;
}

abbrev pub new_login_limiter : LoginLimiter
new_login_limiter = new_login_limiter_with_limits default_login_rate_limit default_login_rate_window

-- `l.attempts[ip]`, nil where the key is missing.
unfoldable pub attempts_of : String → Attempts → List ℕ
attempts_of ip [] = []
attempts_of ip ((key, times) ∷ rest) = if key == ip then times else attempts_of ip rest

-- `l.attempts[ip] = times`
unfoldable pub put_attempts : String → List ℕ → Attempts → Attempts
put_attempts ip times [] = (ip, times) ∷ []
put_attempts ip times ((key, old) ∷ rest) =
    let more = put_attempts ip times rest in
    if key == ip then (key, times) ∷ rest else (key, old) ∷ more

-- `t.After(now.Add(-window))`
abbrev pub is_recent : ℕ → ℕ → ℕ → Bool
is_recent window now t = ltb now (t + window)

-- The safety valve: over the limit of tracked addresses, all are forgotten.
unfoldable pub tracked : Attempts → Attempts
tracked attempts = if ltb login_limiter_max_tracked_ips (length attempts) then [] else attempts

unfoldable pub allow : ℕ → String → LoginLimiter → Bool × LoginLimiter
allow now ip l =
    let attempts = tracked l.attempts in
    let kept = filter (is_recent l.window now) (attempts_of ip attempts) in
    if leb l.limit (length kept)
    then (false, record l { attempts = put_attempts ip kept attempts })
    else (true, record l { attempts = put_attempts ip (kept ++ now ∷ []) attempts })

-- The answers to a sequence of calls, each with its time and its address.
unfoldable pub allow_all : List (ℕ × String) → LoginLimiter → List Bool
unfolding allow
allow_all [] l = []
allow_all ((now, ip) ∷ calls) l = (allow now ip l).0 ∷ allow_all calls (allow now ip l).1
