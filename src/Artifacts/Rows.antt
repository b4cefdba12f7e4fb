-- ===== src/Artifacts/Rows.antt =====
-- Rows of the tables of internal/repo/artifact.go, and how an insert changes what is read of them.
use opentea.Prelude.{
  ℕ, ◌≡◌, refl, ◌∙◌, String, Bool, true, false, ◌&&◌, ◌||◌, List, [], ◌∷◌, ◌++◌, map, any, filter,
  filter-append, append-nil, eqb, eqb_iff, ◌==◌, eq_iff, Bool-cases, inl, inr, ok, arith,
}
use opentea.Repo.Owners.{rows_of, same_owner}
use opentea.Artifacts.{
  ArtifactRow, FormatRow, DistributionRow, Tables, is_row, find_row, format_of, format_owner,
  distribution_ids_of,
}
use opentea.Artifacts.Inserts.{has_format_id}
use opentea.Artifacts.Views.{IdsOnce}

pub any-filter :
    {A : Type 0} (p q : A → Bool) (xs : List A) → any p xs ≡ false → any p (filter q xs) ≡ false
any-filter p q [] h = refl
any-filter p q (x ∷ xs) h = let ih = any-filter p q xs in ground arith

pub left-false : (a b : Bool) → (a || b) ≡ false → a ≡ false
left-false a b h = ground arith

id_differs : (a b : String) → (a == b) ≡ false → (b == a) ≡ false
id_differs a b h = ground (arith, eq_iff a b, eq_iff b a)

any-append_one :
    {A : Type 0} (p : A → Bool) (xs : List A) (x : A)
    → any p xs ≡ false
    → p x ≡ false
    → any p (xs ++ x ∷ []) ≡ false
any-append_one p [] x h k = ground arith
any-append_one p (y ∷ xs) x h k = let ih = any-append_one p xs x in ground arith

pub IdsOnce-append :
    (rows : List FormatRow) (row : FormatRow)
    → any (has_format_id row.id) rows ≡ false
    → IdsOnce rows
    → IdsOnce (rows ++ row ∷ [])
IdsOnce-append [] row h once = (refl, tt)
IdsOnce-append (r ∷ rows) row h once = (
  any-append_one (has_format_id r.id) rows row once.0 (id_differs r.id row.id (ground arith)),
  IdsOnce-append rows row (ground arith) once.1,
)

pub same_format_owner :
    (a b : String) → (a == b) ≡ false → same_owner (format_owner a) (format_owner b) ≡ false
same_format_owner a b h = ground arith

-- The checksums of every format but `id`.
abbrev pub SameChecksumsBut : String → Tables → Tables → Type 0
SameChecksumsBut id t t' =
    (other : String)
    → (id == other) ≡ false
    → rows_of (format_owner other) t'.checksums ≡ rows_of (format_owner other) t.checksums

pub listed-but :
    (t t' : Tables) (id : String) (rows : List FormatRow)
    → SameChecksumsBut id t t'
    → any (has_format_id id) rows ≡ false
    → map (format_of t') rows ≡ map (format_of t) rows
listed-but t t' id [] same h = refl
listed-but t t' id (r ∷ rows) same h =
    rw (same r.id (id_differs r.id id (ground arith)), listed-but t t' id rows same (ground arith))
      refl

pub find_row-append :
    (uuid : String) (version : ℕ) (rows : List ArtifactRow) (new row : ArtifactRow)
    → find_row uuid version rows ≡ ok row
    → find_row uuid version (rows ++ new ∷ []) ≡ ok row
find_row-append uuid version [] new row h = absurd cc
find_row-append uuid version (r ∷ rows) new row h =
    let ih = find_row-append uuid version rows new row in ground arith

pub find_row-any :
    (uuid : String) (version : ℕ) (rows : List ArtifactRow) (row : ArtifactRow)
    → find_row uuid version rows ≡ ok row
    → any (is_row uuid version) rows ≡ true
find_row-any uuid version [] row h = absurd cc
find_row-any uuid version (r ∷ rows) row h =
    let ih = find_row-any uuid version rows row in ground arith

abbrev pub same_key : String → ℕ → String → ℕ → Bool
same_key u v uuid version = (u == uuid) && eqb v version

pub distribution_ids_of-append :
    (uuid : String) (version : ℕ) (rows : List DistributionRow) (row : DistributionRow)
    → same_key row.artifact_uuid row.artifact_version uuid version ≡ false
    → distribution_ids_of uuid version (rows ++ row ∷ []) ≡ distribution_ids_of uuid version rows
distribution_ids_of-append uuid version [] row h = ground arith
distribution_ids_of-append uuid version (r ∷ rows) row h =
    let ih = distribution_ids_of-append uuid version rows row h in ground arith

pub filter-append_other :
    {A : Type 0} (p : A → Bool) (rows : List A) (row : A)
    → p row ≡ false
    → filter p (rows ++ row ∷ []) ≡ filter p rows
filter-append_other p rows row h =
    filter-append p rows (row ∷ []) ∙ rw h (append-nil (filter p rows))

pub key-absent :
    (u : String) (v : ℕ) (uuid : String) (version : ℕ) (rows : List ArtifactRow)
    → any (is_row u v) rows ≡ false
    → any (is_row uuid version) rows ≡ true
    → same_key u v uuid version ≡ false
key-absent u v uuid version rows absent there = elim (Bool-cases (same_key u v uuid version)) [
  | inr e ↦ e
  | inl e ↦
      let a : u ≡ uuid = ground (arith, eq_iff u uuid) in
      let b : v ≡ version = ground (arith, eqb_iff v version) in absurd cc
]
