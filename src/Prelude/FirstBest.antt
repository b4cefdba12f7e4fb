-- ===== src/Prelude/FirstBest.antt =====
-- The loop that keeps the first of the best entries: `if best == none || key > bestKey { best = entry }`,
-- over entries of which some have no key.
use mathlib.Core.Path.{◌≡◌, refl, ap}
use mathlib.Core.Logic.{inl, inr}
use mathlib.Core.Bool.{Bool, true, false}
use mathlib.Core.Option.{Option, none, some}
use mathlib.Core.List.{List, [], ◌∷◌, ◌++◌}
use opentea.Prelude.Tests.{if◌then◌else◌, Bool-cases, Option-cases}
use opentea.Prelude.Lists.{All}

module _ {A K : Type 0} (key : A → Option K) (above : K → K → Bool) where
  abbrev keep_best : Option (A × K) → A → Option K → Option (A × K)
  keep_best best x none = best
  keep_best none x (some k) = some (x, k)
  keep_best (some b) x (some k) = if above k b.1 then some (x, k) else some b

  abbrev pub best_from : Option (A × K) → List A → Option (A × K)
  best_from best [] = best
  best_from best (x ∷ xs) = best_from (keep_best best x (key x)) xs

  abbrev pub first_best : List A → Option (A × K)
  first_best = best_from none

  -- What makes the outcome independent of the order in which the loop compares.
  pub record IsStrict : Type 0 where
    pub trans : (a b c : K) → above a b ≡ true → above b c ≡ true → above a c ≡ true
    pub over :
        (a b c : K) (x : A)
        → key x ≡ some c
        → above a b ≡ true
        → above c b ≡ false
        → above a c ≡ true

  abbrev pub Below : K → List A → Type 0
  Below k = All (λ (y : A). (j : K) → key y ≡ some j → above k j ≡ true)

  abbrev pub NotAbove : K → List A → Type 0
  NotAbove k = All (λ (y : A). (j : K) → key y ≡ some j → above j k ≡ false)

  -- `x` is the first of the best.
  pub record IsFirstBest (xs : List A) (x : A) (k : K) : Type 0 where
    pub before : List A
    pub after : List A
    pub split_at : xs ≡ before ++ x ∷ after
    pub has_key : key x ≡ some k
    pub before_below : Below k before
    pub after_not_above : NotAbove k after

  abbrev pub NoKey : List A → Type 0
  NoKey = All (λ (y : A). key y ≡ none)

  pub data Outcome (xs : List A) : Option (A × K) → Type 0 where
    no_key : NoKey xs → Outcome xs none
    found : {x : A} {k : K} → IsFirstBest xs x k → Outcome xs (some (x, k))

  -- The same from a best entry so far, which stays where none is above it.
  data From (b : A × K) (xs : List A) : Option (A × K) → Type 0 where
    stays : NotAbove b.1 xs → From b xs (some b)
    replaced : {x : A} {k : K} → IsFirstBest xs x k → above k b.1 ≡ true → From b xs (some (x, k))

  cons-IsFirstBest :
      (y : A) (xs : List A) {x : A} {k : K}
      → ((j : K) → key y ≡ some j → above k j ≡ true)
      → IsFirstBest xs x k
      → IsFirstBest (y ∷ xs) x k
  cons-IsFirstBest y xs h f = record {
    before = y ∷ f.before;
    after = f.after;
    split_at = ap (λ (z : List A). y ∷ z) f.split_at;
    has_key = f.has_key;
    before_below = (h, f.before_below);
    after_not_above = f.after_not_above;
  }

  head-IsFirstBest :
      (x : A) (k : K) (xs : List A) → key x ≡ some k → NotAbove k xs → IsFirstBest (x ∷ xs) x k
  head-IsFirstBest x k xs e h = record {
    before = [];
    after = xs;
    split_at = refl;
    has_key = e;
    before_below = tt;
    after_not_above = h;
  }

  keyless-From :
      (y : A) (b : A × K) (xs : List A) {out : Option (A × K)}
      → key y ≡ none
      → From b xs out
      → From b (y ∷ xs) out
  keyless-From y b xs e (From.stays h) = From.stays ((λ j q. absurd cc), h)
  keyless-From y b xs e (From.replaced f h) =
      From.replaced (cons-IsFirstBest y xs (λ j q. absurd cc) f) h

  module _ (strict : IsStrict) where
    lower-From :
        (y : A) (j : K) (b : A × K) (xs : List A) {out : Option (A × K)}
        → key y ≡ some j
        → above j b.1 ≡ false
        → From b xs out
        → From b (y ∷ xs) out
    lower-From y j b xs e n (From.stays h) = From.stays ((λ i q. cc), h)
    lower-From y j b xs e n (From.replaced {k = k} f h) =
        From.replaced (cons-IsFirstBest y xs (λ i q. let o = strict.over k b.1 j y e h n in cc) f) h

    higher-From :
        (y : A) (j : K) (b : A × K) (xs : List A) {out : Option (A × K)}
        → key y ≡ some j
        → above j b.1 ≡ true
        → From (y, j) xs out
        → From b (y ∷ xs) out
    higher-From y j b xs e n (From.stays h) = From.replaced (head-IsFirstBest y j xs e h) n
    higher-From y j b xs e n (From.replaced {k = k} f h) =
        From.replaced (cons-IsFirstBest y xs (λ i q. cc) f) (strict.trans k j b.1 h n)

    best_from-From : (b : A × K) (xs : List A) → From b xs (best_from (some b) xs)
    best_from-From b [] = From.stays tt
    best_from-From b (x ∷ xs) = elim (Option-cases (key x)) [
      | inl e ↦ rw e (keyless-From x b xs e (best_from-From b xs))
      | inr (j, e) ↦ elim (Bool-cases (above j b.1)) [
        | inl n ↦ rw (e, n) (higher-From x j b xs e n (best_from-From (x, j) xs))
        | inr n ↦ rw (e, n) (lower-From x j b xs e n (best_from-From b xs))
      ]
    ]

    start-Outcome :
        (x : A) (k : K) (xs : List A) {out : Option (A × K)}
        → key x ≡ some k
        → From (x, k) xs out
        → Outcome (x ∷ xs) out
    start-Outcome x k xs e (From.stays h) = Outcome.found (head-IsFirstBest x k xs e h)
    start-Outcome x k xs e (From.replaced f h) = Outcome.found (cons-IsFirstBest x xs (λ i q. cc) f)

    keyless-Outcome :
        (x : A) (xs : List A) {out : Option (A × K)}
        → key x ≡ none
        → Outcome xs out
        → Outcome (x ∷ xs) out
    keyless-Outcome x xs e (Outcome.no_key h) = Outcome.no_key (e, h)
    keyless-Outcome x xs e (Outcome.found f) =
        Outcome.found (cons-IsFirstBest x xs (λ i q. absurd cc) f)

    pub first_best-Outcome : (xs : List A) → Outcome xs (first_best xs)
    first_best-Outcome [] = Outcome.no_key tt
    first_best-Outcome (x ∷ xs) = elim (Option-cases (key x)) [
      | inl e ↦ rw e (keyless-Outcome x xs e (first_best-Outcome xs))
      | inr (k, e) ↦ rw e (start-Outcome x k xs e (best_from-From (x, k) xs))
    ]
