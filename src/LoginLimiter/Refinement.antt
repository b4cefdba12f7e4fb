-- ===== src/LoginLimiter/Refinement.antt =====
-- `Allow` (internal/httpx/loginlimiter.go) forgets old attempts, and answers as the log does that
-- forgets nothing.
use opentea.Prelude.{
  ℕ, suc, ◌+◌, ◌≤◌, String, ◌≡◌, refl, sym, ap, ◌∙◌, subst, true, false, Bool-cases, inl, inr, List,
  [], ◌∷◌, ◌++◌, arith, eq_iff, ◌==◌, leb, if◌then◌else◌, append-nil, filter, filter-append, length,
}
use opentea.LoginLimiter.{
  LoginLimiter, Attempts, attempts_of, put_attempts, is_recent, tracked, allow, allow_all,
  new_login_limiter_with_limits, login_limiter_max_tracked_ips,
}
use opentea.LoginLimiter.Window.{
  times_of, admits, log_after, admit_all, IsOrdered, filter-is_recent, times_of-append,
  attempts_of-put_attempts, length-put_attempts,
}

-- The map and the log show the same attempts in every window that ends later.
abbrev Agrees : ℕ → ℕ → Attempts → List (ℕ × String) → Type 0
Agrees window past attempts log =
    (ip : String) (now : ℕ)
    → past ≤ now
    → filter (is_recent window now) (attempts_of ip attempts)
      ≡ filter (is_recent window now) (times_of ip log)

tracked-small :
    (attempts : Attempts)
    → length attempts ≤ login_limiter_max_tracked_ips
    → tracked attempts ≡ attempts
unfolding tracked
tracked-small attempts h = ground arith

module _ (limit window past now : ℕ) (ip : String) (attempts : Attempts) (log : List (ℕ × String))
    (agrees : Agrees window past attempts log)
    (small : length attempts ≤ login_limiter_max_tracked_ips) (order : past ≤ now) where
  abbrev limiter : LoginLimiter
  limiter = record { attempts = attempts; limit = limit; window = window }

  abbrev kept : List ℕ
  kept = filter (is_recent window now) (attempts_of ip attempts)

  kept-times_of : kept ≡ filter (is_recent window now) (times_of ip log)
  kept-times_of = agrees ip now order

  allow-admits : (allow now ip limiter).0 ≡ admits limit window now ip log
  unfolding allow
  allow-admits = let k = ap length kept-times_of in rw (tracked-small attempts small) (ground arith)

  put-Agrees :
      (more : List ℕ) (log' : List (ℕ × String))
      → ((other : String)
          → times_of other log' ≡ times_of other log ++ (if ip == other then more else []))
      → Agrees window now (put_attempts ip (kept ++ more) attempts) log'
  put-Agrees more log' same other later h = elim (Bool-cases (ip == other)) [
    | inl e ↦
        rw (attempts_of-put_attempts ip other (kept ++ more) attempts, same other, e)
          (filter-append (is_recent window later) kept more
            ∙ ap (λ z. z ++ filter (is_recent window later) more)
                (filter-is_recent window now later (attempts_of ip attempts) h
                  ∙ agrees ip later (omega (arith, order, h))
                  ∙ ap (λ z. filter (is_recent window later) (times_of z log))
                      ((eq_iff ip other).0 e))
            ∙ sym (filter-append (is_recent window later) (times_of other log) more))
    | inr e ↦
        rw (attempts_of-put_attempts ip other (kept ++ more) attempts, same other, e)
          (agrees other later (omega (arith, order, h))
            ∙ ap (filter (is_recent window later)) (sym (append-nil (times_of other log))))
  ]

  allow-Agrees :
      Agrees window now (allow now ip limiter).1.attempts (log_after limit window now ip log)
  unfolding allow
  allow-Agrees = elim (Bool-cases (leb limit (length kept))) [
    | inl full ↦
        let refused : admits limit window now ip log ≡ false =
          (let k = ap length kept-times_of in ground arith) in
        rw (tracked-small attempts small, full, refused)
          (subst (λ z. Agrees window now (put_attempts ip z attempts) log) (append-nil kept)
            (put-Agrees [] log (λ other. ground (arith, append-nil (times_of other log)))))
    | inr open_slot ↦
        let admitted : admits limit window now ip log ≡ true =
          (let k = ap length kept-times_of in ground arith) in
        rw (tracked-small attempts small, open_slot, admitted)
          (put-Agrees (now ∷ []) (log ++ (now, ip) ∷ [])
            (λ other. times_of-append other log ((now, ip) ∷ [])))
  ]

  allow-length : length (allow now ip limiter).1.attempts ≤ suc (length attempts)
  unfolding allow
  allow-length = elim (Bool-cases (leb limit (length kept))) [
    | inl full ↦ rw (tracked-small attempts small, full) (length-put_attempts ip kept attempts)
    | inr open_slot ↦
        rw (tracked-small attempts small, open_slot)
          (length-put_attempts ip (kept ++ now ∷ []) attempts)
  ]

allow-limiter :
    (now : ℕ) (ip : String) (l : LoginLimiter)
    → ((allow now ip l).1.limit ≡ l.limit) × ((allow now ip l).1.window ≡ l.window)
unfolding allow
allow-limiter now ip l = ground arith

allow_all-from :
    (past : ℕ) (calls log : List (ℕ × String)) (l : LoginLimiter)
    → Agrees l.window past l.attempts log
    → IsOrdered past calls
    → length l.attempts + length calls ≤ suc login_limiter_max_tracked_ips
    → allow_all calls l ≡ admit_all l.limit l.window calls log
unfolding allow_all
allow_all-from past [] log l agrees order small = refl
allow_all-from past ((now, ip) ∷ calls) log l agrees order small =
    let next = (allow now ip l).1 in
    let (limits, windows) = allow-limiter now ip l in
    let few : length l.attempts ≤ login_limiter_max_tracked_ips = omega (arith, small) in
    let first = allow-admits l.limit l.window past now ip l.attempts log agrees few order.0 in
    let agrees' = allow-Agrees l.limit l.window past now ip l.attempts log agrees few order.0 in
    let grown = allow-length l.limit l.window past now ip l.attempts log agrees few order.0 in
    let rest =
      allow_all-from now calls (log_after l.limit l.window now ip log) next
        (subst (λ z. Agrees z now next.attempts (log_after l.limit l.window now ip log))
          (sym windows) agrees')
        order.1 (omega (arith, small, grown)) in
    let same : admit_all next.limit next.window calls (log_after l.limit l.window now ip log)
        ≡ admit_all l.limit l.window calls (log_after l.limit l.window now ip log) =
      rw (limits, windows) refl in
    ap (λ z. z ∷ allow_all calls next) first
    ∙ ap (λ z. admits l.limit l.window now ip log ∷ z) (rest ∙ same)

-- A new limiter answers as the log that forgets nothing, on calls whose times do not go back, as long as
-- there are too few calls for the safety valve.
pub allow_all-admit_all :
    (limit window : ℕ) (calls : List (ℕ × String))
    → IsOrdered 0 calls
    → length calls ≤ suc login_limiter_max_tracked_ips
    → allow_all calls (new_login_limiter_with_limits limit window) ≡ admit_all limit window calls []
allow_all-admit_all limit window calls order few =
    allow_all-from 0 calls [] (new_login_limiter_with_limits limit window)
      (λ ip now h. unfold attempts_of in refl) order (omega (arith, few))
