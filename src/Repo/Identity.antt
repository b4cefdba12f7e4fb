-- ===== src/Repo/Identity.antt =====
-- internal/repo/identity.go: the comparisons that decide whether an import asserts what is stored. A
-- Go type that is `comparable` is a type with its test `same`.
use opentea.Prelude.{
  ◌≡◌, refl, Bool, true, false, not, ◌&&◌, Option, none, some, List, [], ◌∷◌, arith, eqb, eqb_iff,
  any, filter, length,
}

module _ {ℓ} {A : Type ℓ} (same : A → A → Bool) where
  -- `ptrEqual`
  abbrev pub ptr_equal : Option A → Option A → Bool
  ptr_equal none none = true
  ptr_equal (some a) (some b) = same a b
  ptr_equal _ _ = false

  -- `toSet`: the keys of the map.
  unfoldable pub to_set : List A → List A
  to_set [] = []
  to_set (x ∷ xs) = let rest = to_set xs in x ∷ filter (λ y. not (same y x)) rest

  abbrev pub has_key : List A → A → Bool
  has_key keys a = any (λ x. same x a) keys

  abbrev pub all_in : List A → List A → Bool
  all_in [] bs = true
  all_in (a ∷ xs) bs = has_key bs a && all_in xs bs

  unfoldable pub set_equal : List A → List A → Bool
  unfolding to_set
  set_equal a b = eqb (length (to_set a)) (length (to_set b)) && all_in (to_set a) (to_set b)

  has_key-cons : (x : A) (xs : List A) (a : A) → has_key xs a ≡ true → has_key (x ∷ xs) a ≡ true
  has_key-cons x xs a h = ground arith

  all_in-cons : (x : A) (keys bs : List A) → all_in keys bs ≡ true → all_in keys (x ∷ bs) ≡ true
  all_in-cons x [] bs h = refl
  all_in-cons x (a ∷ keys) bs h =
      let ih = all_in-cons x keys bs (ground arith) in
      let k = has_key-cons x bs a (ground arith) in ground arith

  all_in_self : ((a : A) → same a a ≡ true) → (keys : List A) → all_in keys keys ≡ true
  all_in_self refl_same [] = refl
  all_in_self refl_same (a ∷ keys) =
      let rest = all_in-cons a keys keys (all_in_self refl_same keys) in
      let here = refl_same a in ground arith

  pub set_equal_self : ((a : A) → same a a ≡ true) → (keys : List A) → set_equal keys keys ≡ true
  unfolding set_equal
  set_equal_self refl_same keys =
      let s = all_in_self refl_same (to_set keys) in
      ground (arith, eqb_iff (length (to_set keys)) (length (to_set keys)))
