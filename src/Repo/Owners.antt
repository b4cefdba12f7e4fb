-- ===== src/Repo/Owners.antt =====
-- The tables of internal/db/migrations whose rows belong to an owner, named by `owner_type` and
-- `owner_uuid`: product, release, component, component release.
use opentea.Prelude.{
  String, ◌≡◌, refl, ap, ◌∙◌, Bool, true, false, not, ◌&&◌, List, [], ◌∷◌, ◌++◌, ◌==◌, arith,
  eq_iff, Bool-cases, inl, inr, if◌then◌else◌, filter, append-nil,
}

-- `ownerType, ownerUUID`
pub record Owner : Type 0 where
  pub type : String
  pub uuid : String

-- A row with these two columns, and its others.
pub record Owned {ℓ} (A : Type ℓ) : Type ℓ where
  pub owner : Owner
  pub row : A

abbrev pub same_owner : Owner → Owner → Bool
same_owner a b = (a.type == b.type) && (a.uuid == b.uuid)

pub same_owner_self : (o : Owner) → same_owner o o ≡ true
same_owner_self o = ground (arith, eq_iff o.type o.type, eq_iff o.uuid o.uuid)

pub same_owner_eq : (a b : Owner) → same_owner a b ≡ true → a ≡ b
same_owner_eq a b h = ground (arith, eq_iff a.type b.type, eq_iff a.uuid b.uuid)

module _ {ℓ} {A : Type ℓ} where
  -- `owner_type = ? AND owner_uuid = ?`
  abbrev pub owned : Owner → Owned A → Bool
  owned o r = same_owner r.owner o

  -- `DELETE FROM ... WHERE owner_type = ? AND owner_uuid = ?`
  abbrev pub delete_owned : Owner → List (Owned A) → List (Owned A)
  delete_owned o rows = filter (λ r. not (owned o r)) rows

  -- What the other columns of an owner's rows hold.
  abbrev pub rows_of : Owner → List (Owned A) → List A
  rows_of o [] = []
  rows_of o (r ∷ rows) = let rest = rows_of o rows in if owned o r then r.row ∷ rest else rest

  pub rows_of-append :
      (o : Owner) (xs ys : List (Owned A)) → rows_of o (xs ++ ys) ≡ rows_of o xs ++ rows_of o ys
  rows_of-append o [] ys = refl
  rows_of-append o (x ∷ xs) ys = elim (Bool-cases (owned o x)) [
    | inl e ↦ rw e (ap (λ z. x.row ∷ z) (rows_of-append o xs ys))
    | inr e ↦ rw e (rows_of-append o xs ys)
  ]

  -- A row of one owner is not in the rows of another.
  pub rows_of-other :
      (o p : Owner) (xs : List (Owned A)) (row : A)
      → same_owner p o ≡ false
      → rows_of o (xs ++ record { owner = p; row = row } ∷ []) ≡ rows_of o xs
  rows_of-other o p xs row h =
      rows_of-append o xs (record { owner = p; row = row } ∷ []) ∙ rw h (append-nil (rows_of o xs))

  pub rows_of-delete_other :
      (o p : Owner) (xs : List (Owned A))
      → same_owner p o ≡ false
      → rows_of o (delete_owned p xs) ≡ rows_of o xs
  rows_of-delete_other o p [] h = refl
  rows_of-delete_other o p (x ∷ xs) h =
      let ih = rows_of-delete_other o p xs h in let same = same_owner_eq x.owner p in grind arith

  pub rows_of-delete : (o : Owner) (xs : List (Owned A)) → rows_of o (delete_owned o xs) ≡ []
  rows_of-delete o [] = refl
  rows_of-delete o (x ∷ xs) = let ih = rows_of-delete o xs in ground arith

  pub rows_of-own :
      (o : Owner) (xs : List (Owned A)) (row : A)
      → rows_of o (xs ++ record { owner = o; row = row } ∷ []) ≡ rows_of o xs ++ row ∷ []
  rows_of-own o xs row =
      rows_of-append o xs (record { owner = o; row = row } ∷ []) ∙ rw (same_owner_self o) refl
