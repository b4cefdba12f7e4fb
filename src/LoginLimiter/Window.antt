-- ===== src/LoginLimiter/Window.antt =====
-- The specification of internal/httpx/loginlimiter.go, a log of all admitted attempts that forgets
-- nothing, and the lemmas on windows and on the map.
use opentea.Prelude.{
  ℕ, suc, ◌≤◌, String, ◌≡◌, refl, ap, Bool, false, Bool-cases, inl, inr, List, [], ◌∷◌, ◌++◌, arith,
  eq_iff, ◌==◌, ltb, if◌then◌else◌, filter, length,
}
use opentea.LoginLimiter.{Attempts, attempts_of, put_attempts, is_recent}

-- The admitted attempts of an address.
abbrev pub times_of : String → List (ℕ × String) → List ℕ
times_of ip [] = []
times_of ip ((t, key) ∷ log) = let rest = times_of ip log in if key == ip then t ∷ rest else rest

-- Admitted are those before whom fewer than the limit were, in the window behind them.
abbrev pub admits : ℕ → ℕ → ℕ → String → List (ℕ × String) → Bool
admits limit window now ip log =
    ltb (length (filter (is_recent window now) (times_of ip log))) limit

abbrev pub log_after : ℕ → ℕ → ℕ → String → List (ℕ × String) → List (ℕ × String)
log_after limit window now ip log =
    if admits limit window now ip log then log ++ (now, ip) ∷ [] else log

abbrev pub admit_all : ℕ → ℕ → List (ℕ × String) → List (ℕ × String) → List Bool
admit_all limit window [] log = []
admit_all limit window ((now, ip) ∷ calls) log =
    admits limit window now ip log
    ∷ admit_all limit window calls (log_after limit window now ip log)

-- The times of the calls do not go back.
abbrev pub IsOrdered : ℕ → List (ℕ × String) → Type 0
IsOrdered past [] = Unit
IsOrdered past ((now, ip) ∷ calls) = (past ≤ now) × IsOrdered now calls

-- What is out of the window now is out of it later.
pub filter-is_recent :
    (window now later : ℕ) (xs : List ℕ)
    → now ≤ later
    → filter (is_recent window later) (filter (is_recent window now) xs)
      ≡ filter (is_recent window later) xs
filter-is_recent window now later [] h = refl
filter-is_recent window now later (x ∷ xs) h =
    let ih = filter-is_recent window now later xs h in
    elim (Bool-cases (is_recent window now x)) [
      | inl e ↦ elim (Bool-cases (is_recent window later x)) [
        | inl f ↦ rw (e, f) (ap (λ z. x ∷ z) ih)
        | inr f ↦ rw (e, f) ih
      ]
      | inr e ↦ let gone : is_recent window later x ≡ false = ground arith in rw (e, gone) ih
    ]

pub times_of-append :
    (ip : String) (log more : List (ℕ × String))
    → times_of ip (log ++ more) ≡ times_of ip log ++ times_of ip more
times_of-append ip [] more = refl
times_of-append ip ((t, key) ∷ log) more = elim (Bool-cases (key == ip)) [
  | inl e ↦ rw e (ap (λ z. t ∷ z) (times_of-append ip log more))
  | inr e ↦ rw e (times_of-append ip log more)
]

pub attempts_of-put_attempts :
    (ip other : String) (times : List ℕ) (attempts : Attempts)
    → attempts_of other (put_attempts ip times attempts)
      ≡ (if ip == other then times else attempts_of other attempts)
unfolding attempts_of put_attempts
attempts_of-put_attempts ip other times [] = refl
attempts_of-put_attempts ip other times ((key, old) ∷ rest) =
    let ih = attempts_of-put_attempts ip other times rest in
    ground (arith, eq_iff key ip, eq_iff key other, eq_iff ip other)

pub length-put_attempts :
    (ip : String) (times : List ℕ) (attempts : Attempts)
    → length (put_attempts ip times attempts) ≤ suc (length attempts)
unfolding put_attempts
length-put_attempts ip times [] = omega arith
length-put_attempts ip times ((key, old) ∷ rest) =
    let ih = length-put_attempts ip times rest in
    elim (Bool-cases (key == ip)) [ inl e ↦ rw e (omega arith) | inr e ↦ rw e (omega (arith, ih)) ]
