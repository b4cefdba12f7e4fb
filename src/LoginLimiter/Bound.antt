-- ===== src/LoginLimiter/Bound.antt =====
-- What internal/httpx/loginlimiter.go promises: in no window are more than `limit` attempts of one
-- address admitted.
use opentea.Prelude.{
  ℕ, suc, ◌≤◌, String, sym, ap, subst, Bool, Bool-cases, inl, inr, List, [], ◌∷◌, ◌++◌, append-nil,
  append_assoc, arith, eq_iff, ◌==◌, ltb→lt, if◌then◌else◌, filter, filter-append, length,
  length-append,
}
use opentea.LoginLimiter.{
  is_recent, allow_all, new_login_limiter_with_limits, login_limiter_max_tracked_ips,
}
use opentea.LoginLimiter.Window.{times_of, times_of-append, admits, log_after, admit_all, IsOrdered}
use opentea.LoginLimiter.Refinement.{allow_all-admit_all}

-- The calls that were answered with true.
abbrev pub admitted : List (ℕ × String) → List Bool → List (ℕ × String)
admitted [] answers = []
admitted (call ∷ calls) [] = []
admitted (call ∷ calls) (answer ∷ answers) =
    let rest = admitted calls answers in if answer then call ∷ rest else rest

-- The time of the last call.
abbrev pub end_of : ℕ → List (ℕ × String) → ℕ
end_of past [] = past
end_of past ((now, ip) ∷ calls) = end_of now calls

-- The attempts of an address in the window before a time.
abbrev pub in_window : ℕ → ℕ → String → List (ℕ × String) → ℕ
in_window window now ip log = length (filter (is_recent window now) (times_of ip log))

in_window-shrinks :
    (window now later : ℕ) (xs : List ℕ)
    → now ≤ later
    → length (filter (is_recent window later) xs) ≤ length (filter (is_recent window now) xs)
in_window-shrinks window now later [] h = omega arith
in_window-shrinks window now later (x ∷ xs) h =
    let ih = in_window-shrinks window now later xs h in ground arith

filter-one : (p : ℕ → Bool) (x : ℕ) → length (filter p (x ∷ [])) ≤ 1
filter-one p x = ground arith

module _ (limit window : ℕ) where
  abbrev AtMost : ℕ → List (ℕ × String) → Type 0
  AtMost past log = (ip : String) (now : ℕ) → past ≤ now → in_window window now ip log ≤ limit

  log_after-AtMost :
      (past now : ℕ) (ip : String) (log : List (ℕ × String))
      → past ≤ now
      → AtMost past log
      → AtMost now (log_after limit window now ip log)
  log_after-AtMost past now ip log order most other later h =
      elim (Bool-cases (admits limit window now ip log)) [
        | inr refused ↦ rw refused (most other later (omega (arith, order, h)))
        | inl free ↦ elim (Bool-cases (ip == other)) [
          | inr apart ↦
              rw
                (
                  free,
                  times_of-append other log ((now, ip) ∷ []),
                  apart,
                  append-nil (times_of other log),
                )
                (most other later (omega (arith, order, h)))
          | inl e ↦
              let fewer = ltb→lt (in_window window now ip log) limit free in
              let shrinks = in_window-shrinks window now later (times_of ip log) h in
              let same =
                ap (λ z. length (filter (is_recent window later) (times_of z log)))
                  ((eq_iff ip other).0 e) in
              rw
                (
                  free,
                  times_of-append other log ((now, ip) ∷ []),
                  e,
                  filter-append (is_recent window later) (times_of other log) (now ∷ []),
                  length-append (filter (is_recent window later) (times_of other log))
                      (filter (is_recent window later) (now ∷ [])),
                )
                (omega (arith, filter-one (is_recent window later) now, fewer, shrinks, same))
        ]
      ]

  admit_all-AtMost :
      (past : ℕ) (calls log : List (ℕ × String))
      → AtMost past log
      → IsOrdered past calls
      → (ip : String) (now : ℕ) → end_of past calls ≤ now
      → in_window window now ip (log ++ admitted calls (admit_all limit window calls log)) ≤ limit
  admit_all-AtMost past [] log most order ip now h = rw (append-nil log) (most ip now h)
  admit_all-AtMost past ((time, key) ∷ calls) log most order ip now h =
      let ih =
        admit_all-AtMost time calls (log_after limit window time key log)
          (log_after-AtMost past time key log order.0 most) order.1 ip now h in
      elim (Bool-cases (admits limit window time key log)) [
        | inl free ↦
            let k = rw free at ih in
            rw free (
              subst (λ z. in_window window now ip z ≤ limit)
                (append_assoc log ((time, key) ∷ [])
                  (admitted calls (admit_all limit window calls (log ++ (time, key) ∷ []))))
                k)
        | inr refused ↦ let k = rw refused at ih in rw refused k
      ]

-- Of the calls on a new limiter, whose times do not go back and that are too few for the safety valve, no
-- more than `limit` of one address are admitted in the window behind any time from the last call on.
pub allow_all-AtMost :
    (limit window : ℕ) (calls : List (ℕ × String)) (ip : String) (now : ℕ)
    → IsOrdered 0 calls
    → length calls ≤ suc login_limiter_max_tracked_ips
    → end_of 0 calls ≤ now
    → in_window window now ip
        (admitted calls (allow_all calls (new_login_limiter_with_limits limit window)))
      ≤ limit
allow_all-AtMost limit window calls ip now order few h =
    subst (λ z. in_window window now ip (admitted calls z) ≤ limit)
      (sym (allow_all-admit_all limit window calls order few))
      (admit_all-AtMost limit window 0 calls [] (λ key later _. omega arith) order ip now h)
