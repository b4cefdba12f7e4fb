-- ===== src/Pages/Splitting.antt =====
-- Takes, drops and filters of lists, for the pages of internal/api/pagination.go.
use opentea.Prelude.{
  ℕ, zero, suc, ◌≤◌, ◌<◌, ◌≡◌, refl, ap, some, List, [], ◌∷◌, ◌++◌, arith, length, take, drop, last,
}

module _ {ℓ} {T : Type ℓ} where
  pub take-append-drop : (n : ℕ) (xs : List T) → take n xs ++ drop n xs ≡ xs
  take-append-drop zero xs = refl
  take-append-drop (suc n) [] = refl
  take-append-drop (suc n) (x ∷ xs) = ap (λ z. x ∷ z) (take-append-drop n xs)

  -- A prefix that is long enough gives the first elements.
  pub take-append : (n : ℕ) (xs ys : List T) → n ≤ length xs → take n (xs ++ ys) ≡ take n xs
  take-append zero xs ys h = refl
  take-append (suc n) [] ys h = absurd (omega arith)
  take-append (suc n) (x ∷ xs) ys h = ap (λ z. x ∷ z) (take-append n xs ys (omega arith))

  -- A take that is shorter than asked is all.
  pub take-all : (n : ℕ) (xs : List T) → length (take (suc n) xs) ≤ n → take (suc n) xs ≡ xs
  take-all n [] h = refl
  take-all zero (x ∷ xs) h = absurd (omega arith)
  take-all (suc n) (x ∷ xs) h = ap (λ z. x ∷ z) (take-all n xs (omega arith))

  -- A list that is not empty ends in its last element.
  pub split_last :
      (x : T) (xs : List T)
      → (init : List T) × (row : T) × (x ∷ xs ≡ init ++ row ∷ []) × (last (x ∷ xs) ≡ some row)
  split_last x [] = ([], x, refl, refl)
  split_last x (y ∷ xs) =
      let (init, row, e, l) = split_last y xs in (x ∷ init, row, ap (λ z. x ∷ z) e, l)

  pub split_last-length :
      (n : ℕ) (xs : List T)
      → n < length xs
      → (init : List T) × (row : T) × (xs ≡ init ++ row ∷ []) × (last xs ≡ some row)
  split_last-length n [] h = absurd (omega arith)
  split_last-length n (x ∷ xs) h = split_last x xs

  pub take-ne-nil : (n : ℕ) (xs : List T) → 0 < n → n < length xs → 0 < length (take n xs)
  take-ne-nil zero xs h k = absurd (omega arith)
  take-ne-nil (suc n) [] h k = absurd (omega arith)
  take-ne-nil (suc n) (x ∷ xs) h k = omega arith
