-- ===== src/Artifacts/Ids.antt =====
-- The ids of formats (internal/repo/artifact.go), and the updates of one format and of one revision.
use opentea.Prelude.{
  ℕ, zero, suc, ◌+◌, ◌≡◌, refl, ap, ◌∙◌, subst, String, true, false, ◌||◌, List, [], ◌∷◌, map, any,
  filter, ◌==◌, eq_iff, Bool-cases, inl, inr, ok, ok-injective, arith,
}
use opentea.Artifacts.{ArtifactRow, FormatRow, is_row, find_row, of_artifact}
use opentea.Artifacts.Inserts.{has_format_id}
use opentea.Artifacts.Writes.{bump_row, id_of, id_at, sign_row}
use opentea.Artifacts.Views.{IdsOnce}
use opentea.Artifacts.Rows.{same_key, any-filter}

-- What is of one revision is not of another.
pub row-other :
    (u : String) (v : ℕ) (uuid : String) (version : ℕ) (a : String) (n : ℕ)
    → same_key u v uuid version ≡ false
    → same_key a n u v ≡ true
    → same_key a n uuid version ≡ false
row-other u v uuid version a n other h = ground (arith, eq_iff a u, eq_iff a uuid, eq_iff u uuid)

pub find_row-bump_other :
    (u : String) (v : ℕ) (uuid : String) (version : ℕ) (rows : List ArtifactRow)
    → same_key u v uuid version ≡ false
    → find_row uuid version (map (bump_row u v) rows) ≡ find_row uuid version rows
find_row-bump_other u v uuid version [] h = refl
find_row-bump_other u v uuid version (r ∷ rows) h = elim (Bool-cases (is_row u v r)) [
  | inl e ↦
      let n = row-other u v uuid version r.uuid r.version h e in
      rw (e, n, find_row-bump_other u v uuid version rows h) refl
  | inr e ↦ rw (e, find_row-bump_other u v uuid version rows h) refl
]

pub find_row-bump_own :
    (u : String) (v : ℕ) (rows : List ArtifactRow) (row : ArtifactRow)
    → find_row u v rows ≡ ok row
    → find_row u v (map (bump_row u v) rows) ≡ ok (record row { revision = row.revision + 1 })
find_row-bump_own u v [] row h = absurd cc
find_row-bump_own u v (r ∷ rows) row h = elim (Bool-cases (is_row u v r)) [
  | inl e ↦
      let same = ok-injective (rw e at h) in
      rw (e, e) (ap (λ (z : ArtifactRow). ok (record z { revision = z.revision + 1 })) same)
  | inr e ↦ rw (e, e) (find_row-bump_own u v rows row (rw e at h))
]

-- The id of a format of the revision is an id of the table.
id_at-any :
    (u : String) (v : ℕ) (rows : List FormatRow) (i : ℕ) (id : String)
    → id_at i (map id_of (filter (of_artifact u v) rows)) ≡ ok id
    → any (has_format_id id) rows ≡ true
id_at-any u v [] zero id h = absurd cc
id_at-any u v [] (suc i) id h = absurd cc
id_at-any u v (r ∷ rows) zero id h = elim (Bool-cases (of_artifact u v r)) [
  | inl e ↦ let same = ok-injective (rw e at h) in ground (arith, eq_iff r.id id)
  | inr e ↦ let ih = id_at-any u v rows zero id (rw e at h) in ground arith
]
id_at-any u v (r ∷ rows) (suc i) id h = elim (Bool-cases (of_artifact u v r)) [
  | inl e ↦ let ih = id_at-any u v rows i id (rw e at h) in ground arith
  | inr e ↦ let ih = id_at-any u v rows (suc i) id (rw e at h) in ground arith
]

-- An id that the rest has is not the first's.
first-differs :
    (r : FormatRow) (rows : List FormatRow) (id : String)
    → any (has_format_id r.id) rows ≡ false
    → any (has_format_id id) rows ≡ true
    → (r.id == id) ≡ false
first-differs r rows id absent there = elim (Bool-cases (r.id == id)) [
  | inr e ↦ e
  | inl e ↦ let q : r.id ≡ id = ground (arith, eq_iff r.id id) in absurd cc
]

own-absent :
    (u : String) (v : ℕ) (uuid : String) (version : ℕ) (r : FormatRow) (rows : List FormatRow)
    (i : ℕ) (id : String)
    → any (has_format_id r.id) rows ≡ false
    → ((j : ℕ)
        → id_at j (map id_of (filter (of_artifact u v) rows)) ≡ ok id
        → any (has_format_id id) (filter (of_artifact uuid version) rows) ≡ false)
    → id_at i (r.id ∷ map id_of (filter (of_artifact u v) rows)) ≡ ok id
    → any (has_format_id id) (filter (of_artifact uuid version) rows) ≡ false
own-absent u v uuid version r rows zero id absent rest h =
    subst (λ z. any (has_format_id z) (filter (of_artifact uuid version) rows) ≡ false)
      (ok-injective h) (any-filter (has_format_id r.id) (of_artifact uuid version) rows absent)
own-absent u v uuid version r rows (suc i) id absent rest h = rest i h

-- A format of one revision is none of another's.
pub id_at-absent :
    (u : String) (v : ℕ) (uuid : String) (version : ℕ) (rows : List FormatRow) (i : ℕ) (id : String)
    → same_key u v uuid version ≡ false
    → IdsOnce rows
    → id_at i (map id_of (filter (of_artifact u v) rows)) ≡ ok id
    → any (has_format_id id) (filter (of_artifact uuid version) rows) ≡ false
id_at-absent u v uuid version [] i id other once h = refl
id_at-absent u v uuid version (r ∷ rows) i id other once h = elim (Bool-cases (of_artifact u v r)) [
  | inl e ↦
      let n = row-other u v uuid version r.artifact_uuid r.artifact_version other e in
      rw n (
        own-absent u v uuid version r rows i id once.0
          (λ j. id_at-absent u v uuid version rows j id other once.1) (rw e at h))
  | inr e ↦
      let k = rw e at h in
      let d = first-differs r rows id once.0 (id_at-any u v rows i id k) in
      let ih = id_at-absent u v uuid version rows i id other once.1 k in ground arith
]

any-sign :
    (a id sha256 : String) (rows : List FormatRow)
    → any (has_format_id a) (map (sign_row id sha256) rows) ≡ any (has_format_id a) rows
any-sign a id sha256 [] = refl
any-sign a id sha256 (r ∷ rows) = elim (Bool-cases (has_format_id id r)) [
  | inl e ↦ rw (e, any-sign a id sha256 rows) refl
  | inr e ↦ rw (e, any-sign a id sha256 rows) refl
]

pub IdsOnce-sign :
    (id sha256 : String) (rows : List FormatRow)
    → IdsOnce rows
    → IdsOnce (map (sign_row id sha256) rows)
IdsOnce-sign id sha256 [] once = tt
IdsOnce-sign id sha256 (r ∷ rows) once = elim (Bool-cases (has_format_id id r)) [
  | inl e ↦ rw e (any-sign r.id id sha256 rows ∙ once.0, IdsOnce-sign id sha256 rows once.1)
  | inr e ↦ rw e (any-sign r.id id sha256 rows ∙ once.0, IdsOnce-sign id sha256 rows once.1)
]

pub filter-sign :
    (uuid : String) (version : ℕ) (id sha256 : String) (rows : List FormatRow)
    → any (has_format_id id) (filter (of_artifact uuid version) rows) ≡ false
    → filter (of_artifact uuid version) (map (sign_row id sha256) rows)
      ≡ filter (of_artifact uuid version) rows
filter-sign uuid version id sha256 [] h = refl
filter-sign uuid version id sha256 (r ∷ rows) h = elim (Bool-cases (of_artifact uuid version r)) [
  | inl e ↦
      let k : (has_format_id id r
            || any (has_format_id id) (filter (of_artifact uuid version) rows))
          ≡ false =
        rw e at h in
      let d : has_format_id id r ≡ false = ground arith in
      let rest : any (has_format_id id) (filter (of_artifact uuid version) rows) ≡ false =
        ground arith in
      rw (d, e) (ap (λ z. r ∷ z) (filter-sign uuid version id sha256 rows rest))
  | inr e ↦ elim (Bool-cases (has_format_id id r)) [
    | inl d ↦ rw (d, e) (filter-sign uuid version id sha256 rows (rw e at h))
    | inr d ↦ rw (d, e) (filter-sign uuid version id sha256 rows (rw e at h))
  ]
]
