-- ===== src/Prelude/Results.antt =====
-- Go's `(value, error)` results: a value or an error, never both.
use mathlib.Core.Path.{◌≡◌, refl, ap}
use mathlib.Core.Logic.{◌⊎◌, inl, inr}
use mathlib.Core.Bool.{Bool, true, false}
use opentea.Prelude.Tests.{if◌then◌else◌}

pub data Result {ℓ κ} (E : Type κ) (A : Type ℓ) : Type (ℓ ⊔ κ) where
  ok : A → Result E A
  err : E → Result E A

infixl 5 ◌>>=◌ ◌>>◌
-- `if err != nil { return err }`: the first error ends the function.
abbrev pub ◌>>=◌ {κ ℓ μ} :
    {E : Type κ} {A : Type ℓ} {B : Type μ} → Result E A → (A → Result E B) → Result E B
err stop >>= rest = err stop
ok value >>= rest = rest value

pub Result-cases {ℓ κ} :
    {E : Type κ} {A : Type ℓ} (r : Result E A) → ((a : A) × (r ≡ ok a)) ⊎ ((e : E) × (r ≡ err e))
Result-cases (ok a) = inl (a, refl)
Result-cases (err e) = inr (e, refl)

-- A call of which only the error is kept.
abbrev pub ◌>>◌ {κ μ} : {E : Type κ} {B : Type μ} → Result E (Unit {0}) → Result E B → Result E B
check >> rest = check >>= λ done. rest

module _ {ℓ κ} {E : Type κ} {A : Type ℓ} where
  or_else : A → Result E A → A
  or_else d (ok a) = a
  or_else d (err e) = d

  pub ok-injective : {a b : A} → ◌≡◌ {A = Result E A} (ok a) (ok b) → a ≡ b
  unfolding or_else
  ok-injective {a} p = ap (or_else a) p

-- Where a chain succeeds, its first call did, and the rest from that value.
pub >>=-eq-ok {κ ℓ μ} :
    {E : Type κ} {A : Type ℓ} {B : Type μ} (r : Result E A) (rest : A → Result E B) {out : B}
    → ◌>>=◌ {A = A} r rest ≡ ok out
    → (value : A) × (r ≡ ok value) × (rest value ≡ ok out)
>>=-eq-ok (err stop) rest failed = cc
>>=-eq-ok (ok value) rest done = (value, refl, done)

-- Where a guarded value is returned, its guard did not refuse.
pub guard-eq-ok {κ ℓ} :
    {E : Type κ} {A : Type ℓ} (b : Bool) (e : E) {x y : A}
    → ◌≡◌ {A = Result E A} (if b then err e else ok x) (ok y)
    → (b ≡ false) × (x ≡ y)
guard-eq-ok true e h = absurd cc
guard-eq-ok false e h = (refl, ok-injective h)

-- The same where a call follows.
pub guarded-eq-ok {κ ℓ} :
    {E : Type κ} {A : Type ℓ} (b : Bool) (e : E) {r : Result E A} {y : A}
    → ◌≡◌ {A = Result E A} (if b then err e else r) (ok y)
    → (b ≡ false) × (r ≡ ok y)
guarded-eq-ok true e h = absurd cc
guarded-eq-ok false e h = (refl, h)
