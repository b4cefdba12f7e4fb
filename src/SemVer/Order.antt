-- ===== src/SemVer/Order.antt =====
-- `compareSemVer` (pkg/teaclient/semver.go) is a total preorder, whatever the two texts are.
use Prim.Native.Nat.{compare, Ordering}
use opentea.Prelude.{
  ◌≡◌, refl, Option, none, some, List, [], ◌∷◌, arith, length, flip, Fits, lt-Fits, gt-Fits,
  Fits-lt, Fits-gt, IsPreorder, compare-IsPreorder, and_then-IsPreorder, key-IsPreorder,
  lexicographic-IsPreorder, compare_rounds, compare_rounds-lexicographic,
}
use opentea.SemVer.{
  Bytes, ℤ, pos, negsuc, atoi, SemVer, parse_sem_ver, compare_int, compare_bytes,
  compare_classified, compare_pre_release_field, compare_pre_release, compare_valid, compare_parsed,
  compare_sem_ver,
}

compare_int-reversed : (a b : ℤ) → compare_int b a ≡ flip (compare_int a b)
compare_int-reversed (pos a) (pos b) = compare-IsPreorder.reversed a b
compare_int-reversed (pos a) (negsuc b) = refl
compare_int-reversed (negsuc a) (pos b) = refl
compare_int-reversed (negsuc a) (negsuc b) = compare-IsPreorder.reversed b a

compare_int-Fits : (a b c : ℤ) → Fits (compare_int a b) (compare_int b c) (compare_int a c)
compare_int-Fits (pos a) (pos b) (pos c) = compare-IsPreorder.fits a b c
compare_int-Fits (pos a) (pos b) (negsuc c) = Fits-gt (compare a b)
compare_int-Fits (pos a) (negsuc b) (pos c) = tt
compare_int-Fits (pos a) (negsuc b) (negsuc c) = gt-Fits (compare c b)
compare_int-Fits (negsuc a) (pos b) (pos c) = lt-Fits (compare b c)
compare_int-Fits (negsuc a) (pos b) (negsuc c) = tt
compare_int-Fits (negsuc a) (negsuc b) (pos c) = Fits-lt (compare b a)
compare_int-Fits (negsuc a) (negsuc b) (negsuc c) = ground arith

-- A loop over items and then the lengths, in any order of the items.
rounds-IsPreorder {ℓ} :
    {A : Type ℓ} (c : A → A → Ordering)
    → IsPreorder c
    → IsPreorder (λ xs ys. compare_rounds c xs ys (compare (length xs) (length ys)))
rounds-IsPreorder c p =
    let lex = lexicographic-IsPreorder c p in
    let e = compare_rounds-lexicographic c in
    record {
      reversed = λ xs ys. rw (e xs ys, e ys xs) (lex.reversed xs ys);
      fits = λ xs ys zs. rw (e xs ys, e ys zs, e xs zs) (lex.fits xs ys zs);
    }

compare_bytes-IsPreorder : IsPreorder compare_bytes
compare_bytes-IsPreorder = rounds-IsPreorder compare compare-IsPreorder

compare_classified-reversed :
    (na nb : Option ℤ) (a b : Bytes)
    → compare_classified nb na b a ≡ flip (compare_classified na nb a b)
compare_classified-reversed (some na) (some nb) a b = compare_int-reversed na nb
compare_classified-reversed (some na) none a b = refl
compare_classified-reversed none (some nb) a b = refl
compare_classified-reversed none none a b = compare_bytes-IsPreorder.reversed a b

compare_classified-Fits :
    (na nb nc : Option ℤ) (a b c : Bytes)
    → Fits
        (compare_classified na nb a b)
        (compare_classified nb nc b c)
        (compare_classified na nc a c)
compare_classified-Fits (some na) (some nb) (some nc) a b c = compare_int-Fits na nb nc
compare_classified-Fits (some na) (some nb) none a b c = Fits-lt (compare_int na nb)
compare_classified-Fits (some na) none (some nc) a b c = tt
compare_classified-Fits (some na) none none a b c = lt-Fits (compare_bytes b c)
compare_classified-Fits none (some nb) (some nc) a b c = gt-Fits (compare_int nb nc)
compare_classified-Fits none (some nb) none a b c = tt
compare_classified-Fits none none (some nc) a b c = Fits-gt (compare_bytes a b)
compare_classified-Fits none none none a b c = compare_bytes-IsPreorder.fits a b c

compare_pre_release_field-IsPreorder : IsPreorder compare_pre_release_field
unfolding compare_pre_release_field
compare_pre_release_field-IsPreorder = record {
  reversed = λ a b. compare_classified-reversed (atoi a) (atoi b) a b;
  fits = λ a b c. compare_classified-Fits (atoi a) (atoi b) (atoi c) a b c;
}

fields-IsPreorder :
    IsPreorder (λ a b. compare_rounds compare_pre_release_field a b (compare (length a) (length b)))
fields-IsPreorder = rounds-IsPreorder compare_pre_release_field compare_pre_release_field-IsPreorder

compare_pre_release-reversed :
    (a b : List Bytes) → compare_pre_release b a ≡ flip (compare_pre_release a b)
unfolding compare_pre_release
compare_pre_release-reversed [] [] = refl
compare_pre_release-reversed [] (f ∷ b) = refl
compare_pre_release-reversed (f ∷ a) [] = refl
compare_pre_release-reversed (f ∷ a) (g ∷ b) = fields-IsPreorder.reversed (f ∷ a) (g ∷ b)

compare_pre_release-Fits :
    (a b c : List Bytes)
    → Fits (compare_pre_release a b) (compare_pre_release b c) (compare_pre_release a c)
unfolding compare_pre_release
compare_pre_release-Fits [] [] c = refl
compare_pre_release-Fits [] (g ∷ b) [] = tt
compare_pre_release-Fits [] (g ∷ b) (h ∷ c) = gt-Fits (compare_pre_release (g ∷ b) (h ∷ c))
compare_pre_release-Fits (f ∷ a) [] [] = refl
compare_pre_release-Fits (f ∷ a) [] (h ∷ c) = tt
compare_pre_release-Fits (f ∷ a) (g ∷ b) [] = Fits-lt (compare_pre_release (f ∷ a) (g ∷ b))
compare_pre_release-Fits (f ∷ a) (g ∷ b) (h ∷ c) = fields-IsPreorder.fits (f ∷ a) (g ∷ b) (h ∷ c)

compare_pre_release-IsPreorder : IsPreorder compare_pre_release
compare_pre_release-IsPreorder = record {
  reversed = compare_pre_release-reversed;
  fits = compare_pre_release-Fits;
}

-- Numbers from the first, and then the pre-release fields.
compare_valid-IsPreorder : IsPreorder compare_valid
compare_valid-IsPreorder =
    and_then-IsPreorder _ _ (key-IsPreorder (λ (v : SemVer). v.major) compare compare-IsPreorder) (
      and_then-IsPreorder _ _ (key-IsPreorder (λ (v : SemVer). v.minor) compare compare-IsPreorder)
        (and_then-IsPreorder _ _
          (key-IsPreorder (λ (v : SemVer). v.patch) compare compare-IsPreorder)
          (key-IsPreorder (λ (v : SemVer). v.pre_release) compare_pre_release
            compare_pre_release-IsPreorder)))

compare_parsed-IsPreorder : IsPreorder compare_parsed
compare_parsed-IsPreorder = record { reversed = reversed; fits = fits }
  where
    reversed : (a b : Option SemVer) → compare_parsed b a ≡ flip (compare_parsed a b)
    reversed (some a) (some b) = compare_valid-IsPreorder.reversed a b
    reversed (some a) none = refl
    reversed none (some b) = refl
    reversed none none = refl

    fits :
        (a b c : Option SemVer)
        → Fits (compare_parsed a b) (compare_parsed b c) (compare_parsed a c)
    fits (some a) (some b) (some c) = compare_valid-IsPreorder.fits a b c
    fits (some a) (some b) none = Fits-gt (compare_valid a b)
    fits (some a) none (some c) = tt
    fits (some a) none none = refl
    fits none (some b) (some c) = lt-Fits (compare_valid b c)
    fits none (some b) none = tt
    fits none none c = refl

-- `compareSemVer` is a total preorder on all texts: reversed arguments give the opposite sign, and the
-- signs of two comparisons decide that of the third as an order's do.
pub compare_sem_ver-IsPreorder : IsPreorder compare_sem_ver
unfolding compare_sem_ver
compare_sem_ver-IsPreorder = key-IsPreorder parse_sem_ver compare_parsed compare_parsed-IsPreorder
