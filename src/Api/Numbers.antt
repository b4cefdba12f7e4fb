-- ===== src/Api/Numbers.antt =====
-- `strconv.Itoa` on a number that is not negative.
use opentea.Prelude.{
  ℕ, zero, suc, ◌+◌, ◌/◌, ◌%◌, ◌<◌, ◌≤◌, ◌≡◌, refl, [], ◌∷◌, ltb, if◌then◌else◌, arith, Bool-cases,
  inl, inr,
}
use opentea.SemVer.{Bytes}

-- One digit a round, from the last; a number has no more digits than itself and one.
abbrev digits_before : ℕ → ℕ → Bytes → Bytes
digits_before zero n acc = acc
digits_before (suc fuel) n acc =
    let digit = n % 10 + b'0' in
    let rest = digits_before fuel (n / 10) (digit ∷ acc) in if ltb n 10 then digit ∷ acc else rest

abbrev pub itoa : ℕ → Bytes
itoa n = digits_before (suc n) n []

-- More fuel than the number changes nothing.
pub digits_before-fuel :
    (f g n : ℕ) (acc : Bytes) → n < f → n < g → digits_before f n acc ≡ digits_before g n acc
digits_before-fuel zero g n acc p q = absurd (omega arith)
digits_before-fuel (suc f) zero n acc p q = absurd (omega arith)
digits_before-fuel (suc f) (suc g) n acc p q = elim (Bool-cases (ltb n 10)) [
  | inl e ↦ rw e refl
  | inr e ↦
      let big : 10 ≤ n = ground arith in
      rw e (digits_before-fuel f g (n / 10) ((n % 10 + b'0') ∷ acc) (omega arith) (omega arith))
]
