-- ===== src/Prelude/Comparisons.antt =====
-- Three-way comparisons, -1, 0 and 1 in Go: how they are combined, and when one is a total preorder.
use Prim.Native.Nat.{compare, Ordering}
use mathlib.Core.Path.{◌≡◌, refl, ap}
use mathlib.Core.Logic.{◌≢◌}
use mathlib.Core.List.{List, [], ◌∷◌}
use native.Mathlib.Omega.{arith}
use opentea.Prelude.Lists.{length}

abbrev pub flip : Ordering → Ordering
flip Ordering.lt = Ordering.gt
flip Ordering.eq = Ordering.eq
flip Ordering.gt = Ordering.lt

-- `if c := ...; c != 0 { return c }`
abbrev pub and_then : Ordering → Ordering → Ordering
and_then Ordering.eq next = next
and_then c next = c

-- The comparisons of `a` with `b`, `b` with `c` and `a` with `c` fit together.
abbrev pub Fits : Ordering → Ordering → Ordering → Type 0
Fits Ordering.lt Ordering.gt ac = Unit
Fits Ordering.gt Ordering.lt ac = Unit
Fits Ordering.eq bc ac = ac ≡ bc
Fits ab bc ac = ac ≡ ab

pub lt-Fits : (o : Ordering) → Fits Ordering.lt o Ordering.lt
lt-Fits Ordering.lt = refl
lt-Fits Ordering.eq = refl
lt-Fits Ordering.gt = tt

pub gt-Fits : (o : Ordering) → Fits Ordering.gt o Ordering.gt
gt-Fits Ordering.lt = tt
gt-Fits Ordering.eq = refl
gt-Fits Ordering.gt = refl

pub Fits-lt : (o : Ordering) → Fits o Ordering.lt Ordering.lt
Fits-lt Ordering.lt = refl
Fits-lt Ordering.eq = refl
Fits-lt Ordering.gt = tt

pub Fits-gt : (o : Ordering) → Fits o Ordering.gt Ordering.gt
Fits-gt Ordering.lt = tt
Fits-gt Ordering.eq = refl
Fits-gt Ordering.gt = refl

-- A total preorder: the reversed comparison is the flipped one, and comparisons fit together.
pub record IsPreorder {ℓ} {A : Type ℓ} (cmp : A → A → Ordering) : Type ℓ where
  pub reversed : (a b : A) → cmp b a ≡ flip (cmp a b)
  pub fits : (a b c : A) → Fits (cmp a b) (cmp b c) (cmp a c)

module _ {ℓ} {A : Type ℓ} (cmp : A → A → Ordering) (p : IsPreorder cmp) where
  pub self-ne-gt : (a : A) → cmp a a ≢ Ordering.gt
  self-ne-gt a e = let h = p.reversed a a in absurd (ground arith)

  pub ne-gt_ne-gt :
      (a b c : A) → cmp a b ≢ Ordering.gt → cmp b c ≢ Ordering.gt → cmp a c ≢ Ordering.gt
  ne-gt_ne-gt a b c h k e = let f = p.fits a b c in absurd (ground arith)

  -- Two that are equal to a third are equal.
  pub eq_of_both :
      (a b c : A) → cmp a c ≡ Ordering.eq → cmp b c ≡ Ordering.eq → cmp a b ≡ Ordering.eq
  eq_of_both a b c h k = let f = p.fits a c b in let r = p.reversed b c in ground arith

  -- What is not above `b` is not above what is above `b`.
  pub ne-gt_trans :
      (a b c : A) → cmp a b ≢ Ordering.gt → cmp c b ≡ Ordering.gt → cmp a c ≢ Ordering.gt
  ne-gt_trans a b c below above e =
      let h = p.fits a b c in let r = p.reversed c b in absurd (ground arith)

pub compare-IsPreorder : IsPreorder compare
compare-IsPreorder = record { reversed = λ a b. ground arith; fits = λ a b c. ground arith }

-- One comparison after the other.
and_then-flip : (c d : Ordering) → and_then (flip c) (flip d) ≡ flip (and_then c d)
and_then-flip Ordering.lt d = refl
and_then-flip Ordering.eq d = refl
and_then-flip Ordering.gt d = refl

and_then-Fits :
    (ab bc ac ab' bc' ac' : Ordering)
    → Fits ab bc ac
    → Fits ab' bc' ac'
    → Fits (and_then ab ab') (and_then bc bc') (and_then ac ac')
and_then-Fits Ordering.lt Ordering.lt ac ab' bc' ac' h h' = rw h refl
and_then-Fits Ordering.lt Ordering.eq ac ab' Ordering.lt ac' h h' = rw h refl
and_then-Fits Ordering.lt Ordering.eq ac ab' Ordering.eq ac' h h' = rw h refl
and_then-Fits Ordering.lt Ordering.eq ac ab' Ordering.gt ac' h h' = tt
and_then-Fits Ordering.lt Ordering.gt ac ab' bc' ac' h h' = tt
and_then-Fits Ordering.eq Ordering.lt ac Ordering.lt bc' ac' h h' = rw h refl
and_then-Fits Ordering.eq Ordering.lt ac Ordering.eq bc' ac' h h' = rw h refl
and_then-Fits Ordering.eq Ordering.lt ac Ordering.gt bc' ac' h h' = tt
and_then-Fits Ordering.eq Ordering.eq ac ab' bc' ac' h h' = rw h h'
and_then-Fits Ordering.eq Ordering.gt ac Ordering.lt bc' ac' h h' = tt
and_then-Fits Ordering.eq Ordering.gt ac Ordering.eq bc' ac' h h' = rw h refl
and_then-Fits Ordering.eq Ordering.gt ac Ordering.gt bc' ac' h h' = rw h refl
and_then-Fits Ordering.gt Ordering.lt ac ab' bc' ac' h h' = tt
and_then-Fits Ordering.gt Ordering.eq ac ab' Ordering.lt ac' h h' = tt
and_then-Fits Ordering.gt Ordering.eq ac ab' Ordering.eq ac' h h' = rw h refl
and_then-Fits Ordering.gt Ordering.eq ac ab' Ordering.gt ac' h h' = rw h refl
and_then-Fits Ordering.gt Ordering.gt ac ab' bc' ac' h h' = rw h refl

pub and_then-IsPreorder {ℓ} :
    {A : Type ℓ} (c d : A → A → Ordering)
    → IsPreorder c
    → IsPreorder d
    → IsPreorder (λ x y. and_then (c x y) (d x y))
and_then-IsPreorder c d p q = record {
  reversed = λ x y. rw (p.reversed x y, q.reversed x y) (and_then-flip (c x y) (d x y));
  fits = λ x y z. and_then-Fits _ _ _ _ _ _ (p.fits x y z) (q.fits x y z);
}

-- A comparison by a key.
pub key-IsPreorder {ℓ κ} :
    {A : Type ℓ} {B : Type κ} (key : A → B) (c : B → B → Ordering)
    → IsPreorder c
    → IsPreorder (λ x y. c (key x) (key y))
key-IsPreorder key c p = record {
  reversed = λ x y. p.reversed (key x) (key y);
  fits = λ x y z. p.fits (key x) (key y) (key z);
}

module _ {ℓ} {A : Type ℓ} (c : A → A → Ordering) where
  -- Item by item, a list before its extensions.
  abbrev pub lexicographic : List A → List A → Ordering
  lexicographic [] [] = Ordering.eq
  lexicographic [] (y ∷ ys) = Ordering.lt
  lexicographic (x ∷ xs) [] = Ordering.gt
  lexicographic (x ∷ xs) (y ∷ ys) = and_then (c x y) (lexicographic xs ys)

  lexicographic-reversed :
      IsPreorder c → (xs ys : List A) → lexicographic ys xs ≡ flip (lexicographic xs ys)
  lexicographic-reversed p [] [] = refl
  lexicographic-reversed p [] (y ∷ ys) = refl
  lexicographic-reversed p (x ∷ xs) [] = refl
  lexicographic-reversed p (x ∷ xs) (y ∷ ys) =
      rw (p.reversed x y, lexicographic-reversed p xs ys)
        (and_then-flip (c x y) (lexicographic xs ys))

  lexicographic-Fits :
      IsPreorder c
      → (xs ys zs : List A) → Fits (lexicographic xs ys) (lexicographic ys zs) (lexicographic xs zs)
  lexicographic-Fits p [] [] zs = refl
  lexicographic-Fits p [] (y ∷ ys) [] = tt
  lexicographic-Fits p [] (y ∷ ys) (z ∷ zs) = lt-Fits (lexicographic (y ∷ ys) (z ∷ zs))
  lexicographic-Fits p (x ∷ xs) [] [] = refl
  lexicographic-Fits p (x ∷ xs) [] (z ∷ zs) = tt
  lexicographic-Fits p (x ∷ xs) (y ∷ ys) [] = Fits-gt (lexicographic (x ∷ xs) (y ∷ ys))
  lexicographic-Fits p (x ∷ xs) (y ∷ ys) (z ∷ zs) =
      and_then-Fits _ _ _ _ _ _ (p.fits x y z) (lexicographic-Fits p xs ys zs)

  pub lexicographic-IsPreorder : IsPreorder c → IsPreorder lexicographic
  lexicographic-IsPreorder p = record {
    reversed = lexicographic-reversed p;
    fits = lexicographic-Fits p;
  }

  -- A loop over the items that both have, and then the lengths.
  abbrev pub compare_rounds : List A → List A → Ordering → Ordering
  compare_rounds (x ∷ xs) (y ∷ ys) last = and_then (c x y) (compare_rounds xs ys last)
  compare_rounds [] ys last = last
  compare_rounds xs [] last = last

  pub compare_rounds-lexicographic :
      (xs ys : List A)
      → compare_rounds xs ys (compare (length xs) (length ys)) ≡ lexicographic xs ys
  compare_rounds-lexicographic [] [] = refl
  compare_rounds-lexicographic [] (y ∷ ys) = ground arith
  compare_rounds-lexicographic (x ∷ xs) [] = ground arith
  compare_rounds-lexicographic (x ∷ xs) (y ∷ ys) =
      let same : compare (length (x ∷ xs)) (length (y ∷ ys)) ≡ compare (length xs) (length ys) =
        ground arith in
      rw same (ap (and_then (c x y)) (compare_rounds-lexicographic xs ys))
