-- ===== src/Draft/Rows.antt =====
-- The `collection_draft` table (internal/db/migrations/0007_publisher.sql): one row for each owner,
-- and what the updates of internal/repo/collectiondraft.go do to the rows.
use opentea.Prelude.{
  String, ◌≡◌, refl, sym, subst, ap, ◌∙◌, Bool, true, false, none, some, List, [], ◌∷◌, ◌++◌, Memᴰ,
  arith, eq_iff, Bool-cases, inl, inr, All, All-append, filter,
}
use mathlib.Core.Option.{some-injective}
use opentea.Repo.Database.{DraftRow}
use opentea.Draft.{owned_by, find_draft, update_draft}

-- The primary key: no two rows have one owner.
abbrev pub IsKeyed : List DraftRow → Type 0
IsKeyed [] = Unit
IsKeyed (row ∷ rows) =
    All (λ x. owned_by row.owner_type row.owner_uuid x ≡ false) rows × IsKeyed rows

pub owned_by_eq :
    {t u : String} (row : DraftRow)
    → owned_by t u row ≡ true
    → (row.owner_type ≡ t) × (row.owner_uuid ≡ u)
owned_by_eq {t} {u} row h = ground (arith, eq_iff row.owner_type t, eq_iff row.owner_uuid u)

pub find_draft-owned_by :
    (t u : String) (rows : List DraftRow) {row : DraftRow}
    → find_draft t u rows ≡ some row
    → (owned_by t u row ≡ true) × Memᴰ row rows
unfolding find_draft
find_draft-owned_by t u [] h = cc
find_draft-owned_by t u (x ∷ rows) {row} h = elim (Bool-cases (owned_by t u x)) [
  | inl e ↦
      let same : x ≡ row = some-injective _ _ (rw (e, find_draft) at h) in
      (subst (λ z. owned_by t u z ≡ true) same e, Memᴰ.head (sym same))
  | inr e ↦ let (o, m) = find_draft-owned_by t u rows (rw (e, find_draft) at h) in (o, Memᴰ.tail m)
]

pub find_draft-none :
    (t u : String) (rows : List DraftRow)
    → find_draft t u rows ≡ none
    → All (λ x. owned_by t u x ≡ false) rows
unfolding find_draft
find_draft-none t u [] h = tt
find_draft-none t u (x ∷ rows) h = elim (Bool-cases (owned_by t u x)) [
  | inl e ↦ absurd (let k = rw (e, find_draft) at h in cc)
  | inr e ↦ (e, find_draft-none t u rows (rw (e, find_draft) at h))
]

module _ (t u : String) (set : DraftRow → DraftRow) where
  -- Where no row has the owner, an update changes nothing.
  pub update_draft-absent :
      (rows : List DraftRow)
      → All (λ x. owned_by t u x ≡ false) rows
      → update_draft t u set rows ≡ rows
  unfolding update_draft
  update_draft-absent [] h = refl
  update_draft-absent (x ∷ rows) h = rw (h.0, update_draft-absent rows h.1)

  absent_of_key :
      (x : DraftRow) (rows : List DraftRow)
      → owned_by t u x ≡ true
      → All (λ y. owned_by x.owner_type x.owner_uuid y ≡ false) rows
      → All (λ y. owned_by t u y ≡ false) rows
  absent_of_key x rows o h =
      let (p, q) = owned_by_eq x o in
      subst (λ z. All (λ y. owned_by z u y ≡ false) rows) p
        (subst (λ z. All (λ y. owned_by x.owner_type z y ≡ false) rows) q h)

  -- An update touches the one row that `find_draft` finds.
  pub All-update_draft {κ} :
      (P : DraftRow → Type κ) (rows : List DraftRow) (row : DraftRow)
      → IsKeyed rows
      → find_draft t u rows ≡ some row
      → All P rows
      → P (set row)
      → All P (update_draft t u set rows)
  unfolding update_draft find_draft
  All-update_draft P [] row k f h p = cc
  All-update_draft P (x ∷ rows) row k f h p = elim (Bool-cases (owned_by t u x)) [
    | inl e ↦
        let same : x ≡ row = some-injective _ _ (rw (e, find_draft) at f) in
        rw e (
          subst (λ z. P (set z)) (sym same) p,
          subst (All P) (sym (update_draft-absent rows (absent_of_key x rows e k.0))) h.1,
        )
    | inr e ↦ rw e (h.0, All-update_draft P rows row k.1 (rw (e, find_draft) at f) h.1 p)
  ]

  All-owned_by-update :
      (a b : String)
      → ((x : DraftRow) → owned_by t u x ≡ true → owned_by a b (set x) ≡ owned_by a b x)
      → (rows : List DraftRow) → All (λ x. owned_by a b x ≡ false) rows
      → All (λ x. owned_by a b x ≡ false) (update_draft t u set rows)
  unfolding update_draft
  All-owned_by-update a b keep [] h = tt
  All-owned_by-update a b keep (x ∷ rows) h = elim (Bool-cases (owned_by t u x)) [
    | inl e ↦ rw e (keep x e ∙ h.0, All-owned_by-update a b keep rows h.1)
    | inr e ↦ rw e (h.0, All-owned_by-update a b keep rows h.1)
  ]

  -- An update that keeps the owner keeps the key.
  pub update_draft-IsKeyed :
      ((x : DraftRow)
        → owned_by t u x ≡ true
        → ((set x).owner_type ≡ x.owner_type) × ((set x).owner_uuid ≡ x.owner_uuid))
      → (rows : List DraftRow) → IsKeyed rows
      → IsKeyed (update_draft t u set rows)
  unfolding update_draft
  update_draft-IsKeyed same [] k = tt
  update_draft-IsKeyed same (x ∷ rows) k =
      let keep : (a b : String) (y : DraftRow)
          → owned_by t u y ≡ true
          → owned_by a b (set y) ≡ owned_by a b y =
        λ a b y o. let (p, q) = same y o in rw (p, q) in
      elim (Bool-cases (owned_by t u x)) [
        | inl e ↦
            let (p, q) = same x e in
            rw (e, p, q)
              (
                All-owned_by-update x.owner_type x.owner_uuid (keep x.owner_type x.owner_uuid) rows
                    k.0,
                update_draft-IsKeyed same rows k.1,
              )
        | inr e ↦ rw e (
          All-owned_by-update x.owner_type x.owner_uuid (keep x.owner_type x.owner_uuid) rows k.0,
          update_draft-IsKeyed same rows k.1,
        )
      ]

pub All-filter {κ} :
    (P : DraftRow → Type κ) (p : DraftRow → Bool) (rows : List DraftRow)
    → All P rows
    → All P (filter p rows)
All-filter P p [] h = tt
All-filter P p (x ∷ rows) h = elim (Bool-cases (p x)) [
  | inl e ↦ rw e (h.0, All-filter P p rows h.1)
  | inr e ↦ rw e (All-filter P p rows h.1)
]

pub filter-IsKeyed :
    (p : DraftRow → Bool) (rows : List DraftRow) → IsKeyed rows → IsKeyed (filter p rows)
filter-IsKeyed p [] k = tt
filter-IsKeyed p (x ∷ rows) k = elim (Bool-cases (p x)) [
  | inl e ↦ rw e (All-filter _ p rows k.0, filter-IsKeyed p rows k.1)
  | inr e ↦ rw e (filter-IsKeyed p rows k.1)
]

owned_by_comm :
    (a b : DraftRow)
    → owned_by a.owner_type a.owner_uuid b ≡ false
    → owned_by b.owner_type b.owner_uuid a ≡ false
owned_by_comm a b h = ground (
  arith,
  eq_iff a.owner_type b.owner_type,
  eq_iff b.owner_type a.owner_type,
  eq_iff a.owner_uuid b.owner_uuid,
  eq_iff b.owner_uuid a.owner_uuid,
)

-- A row of an owner that has none may be added at the end.
pub append-IsKeyed :
    (rows : List DraftRow) (row : DraftRow)
    → All (λ x. owned_by row.owner_type row.owner_uuid x ≡ false) rows
    → IsKeyed rows
    → IsKeyed (rows ++ row ∷ [])
append-IsKeyed [] row h k = (tt, tt)
append-IsKeyed (x ∷ rows) row h k = (
  All-append (λ y. owned_by x.owner_type x.owner_uuid y ≡ false) rows (row ∷ []) k.0
      (owned_by_comm row x h.0, tt),
  append-IsKeyed rows row h.1 k.1,
)

-- After an update that keeps the owner, the owner's row is the updated one.
pub find_draft-update_draft :
    (t u : String) (set : DraftRow → DraftRow) (rows : List DraftRow) {row : DraftRow}
    → ((x : DraftRow)
        → owned_by t u x ≡ true
        → ((set x).owner_type ≡ x.owner_type) × ((set x).owner_uuid ≡ x.owner_uuid))
    → find_draft t u rows ≡ some row
    → find_draft t u (update_draft t u set rows) ≡ some (set row)
unfolding find_draft update_draft
find_draft-update_draft t u set [] same f = cc
find_draft-update_draft t u set (x ∷ rows) {row} same f = elim (Bool-cases (owned_by t u x)) [
  | inl e ↦
      let is : x ≡ row = some-injective _ _ (rw (e, find_draft) at f) in
      let (p, q) = same x e in
      let still : owned_by t u (set x) ≡ true = rw (p, q) e in
      rw (e, update_draft, still, find_draft) (ap (λ z. some (set z)) is)
  | inr e ↦
      rw (e, update_draft, e, find_draft)
        (find_draft-update_draft t u set rows same (rw (e, find_draft) at f))
]

-- A row that is added at the end is found where no other has its owner.
pub find_draft-append :
    (t u : String) (rows : List DraftRow) (row : DraftRow)
    → owned_by t u row ≡ true
    → find_draft t u rows ≡ none
    → find_draft t u (rows ++ row ∷ []) ≡ some row
unfolding find_draft
find_draft-append t u [] row o f = rw o refl
find_draft-append t u (x ∷ rows) row o f = elim (Bool-cases (owned_by t u x)) [
  | inl e ↦ absurd (let k = rw (e, find_draft) at f in cc)
  | inr e ↦ rw e (find_draft-append t u rows row o (rw (e, find_draft) at f))
]
