-- ===== src/Artifacts/Writes.antt =====
-- internal/repo/artifact.go: creating, versioning and importing an artifact revision, and recording the
-- files that are uploaded for it.
use opentea.Prelude.{
  ℕ, zero, suc, ◌+◌, String, Bool, true, false, not, ◌||◌, Option, none, some, List, [], ◌∷◌, ◌++◌,
  map, filter, eqb, if◌then◌else◌, ◌==◌, Result, ok, err, ◌>>=◌,
}
use Prim.Native.Nat.{Ordering}
use opentea.SemVer.{Bytes, bytes, bytes_equal, compare_bytes}
use opentea.Repo.{Error}
use opentea.Repo.Identity.{ptr_equal, set_equal}
use opentea.Repo.Owners.{delete_owned}
use opentea.Artifacts.{
  Checksum, ArtifactFormat, Artifact, ArtifactRow, FormatRow, Tables, is_row,
  latest_artifact_version, get_artifact_by_version, of_artifact, format_owner,
}
use opentea.Artifacts.Inserts.{
  FormatInput, ArtifactInput, has_format_id, insert_checksums, insert_artifact, without_files,
}

unfoldable pub read_back : String → ℕ → Tables → Result Error (Artifact × Tables)
unfolding get_artifact_by_version
read_back uuid version t = do a ← get_artifact_by_version uuid version t; ok (a, t)

unfoldable pub create_artifact :
    (ℕ → String) → String → ArtifactInput → Tables → Result Error (Artifact × Tables)
unfolding insert_artifact read_back
create_artifact new_id uuid input t = do
  t' ← insert_artifact new_id uuid 1 (without_files input) t
  read_back uuid 1 t'

-- `previousVersion != nil && *previousVersion != current`
abbrev pub conflicts_with : Option ℕ → ℕ → Bool
conflicts_with none current = false
conflicts_with (some previous) current = not (eqb previous current)

unfoldable pub insert_next :
    (ℕ → String) → String → Option ℕ → ArtifactInput → ℕ → Tables → Result Error (Artifact × Tables)
unfolding insert_artifact read_back
insert_next new_id uuid previous input current t =
    if conflicts_with previous current
    then err Error.version_conflict
    else insert_artifact new_id uuid (current + 1) (without_files input) t >>= λ t'.
        read_back uuid (current + 1) t'

unfoldable pub create_artifact_version :
    (ℕ → String) → String → Option ℕ → ArtifactInput → Tables → Result Error (Artifact × Tables)
unfolding latest_artifact_version insert_next
create_artifact_version new_id uuid previous input t = elim (latest_artifact_version uuid t) [
  | none ↦ err Error.not_found
  | some current ↦ insert_next new_id uuid previous input current t
]

-- `sort.Strings`
abbrev insert_key : Bytes → List Bytes → List Bytes
insert_key k [] = k ∷ []
insert_key k (x ∷ keys) =
    let rest = insert_key k keys in
    elim (compare_bytes x k) [ Ordering.gt ↦ k ∷ x ∷ keys | _ ↦ x ∷ rest ]

abbrev sort_keys : List Bytes → List Bytes
sort_keys [] = []
sort_keys (k ∷ keys) = insert_key k (sort_keys keys)

-- `strings.Join(keys, "\x01")`
abbrev join_keys : List Bytes → Bytes
join_keys [] = []
join_keys (k ∷ []) = k
join_keys (k ∷ next ∷ keys) = k ++ 1 ∷ join_keys (next ∷ keys)

abbrev checksum_key : Checksum → Bytes
checksum_key c = bytes c.alg_type ++ b'=' ∷ bytes c.alg_value

unfoldable pub artifact_format_key : Bytes → String → List Checksum → Bytes
artifact_format_key media_type description checksums =
    media_type ++ 0 ∷ bytes description ++ 0 ∷ join_keys (sort_keys (map checksum_key checksums))

abbrev existing_key : ArtifactFormat → Bytes
unfolding artifact_format_key
existing_key f = artifact_format_key f.media_type f.description f.checksums

abbrev input_key : FormatInput → Bytes
unfolding artifact_format_key
input_key f = artifact_format_key f.media_type f.description f.checksums

unfoldable pub artifact_conflicts : Artifact → ArtifactInput → Bool
unfolding artifact_format_key set_equal
artifact_conflicts existing input =
    not (existing.name == input.name)
    || (not (existing.type == input.type)
        || (not (ptr_equal eqb existing.created_date input.created_date)
            || (not (set_equal (λ a b. a == b) existing.distribution_ids input.distribution_ids)
                || not (
                    set_equal bytes_equal (map existing_key existing.formats)
                      (map input_key input.formats)))))

-- The revision is there: compare. It is not: insert.
unfoldable pub imported :
    (ℕ → String)
    → String
    → ℕ
    → ArtifactInput
    → Tables
    → Result Error Artifact
    → Result Error (Bool × Tables)
unfolding artifact_conflicts insert_artifact
imported new_id uuid version input t (ok existing) =
    if artifact_conflicts existing input then err Error.import_identity_conflict else ok (false, t)
imported new_id uuid version input t (err Error.not_found) =
    insert_artifact new_id uuid version input t >>= λ t'. ok (true, t')
imported new_id uuid version input t (err e) = err e

unfoldable pub import_artifact :
    (ℕ → String) → String → ℕ → ArtifactInput → Tables → Result Error (Bool × Tables)
unfolding get_artifact_by_version imported
import_artifact new_id uuid version input t =
    imported new_id uuid version input t (get_artifact_by_version uuid version t)

-- `UPDATE artifact SET revision = revision + 1 WHERE uuid = ? AND version = ?`
abbrev pub bump_row : String → ℕ → ArtifactRow → ArtifactRow
bump_row uuid version row =
    if is_row uuid version row then record row { revision = row.revision + 1 } else row

unfoldable pub bump_revision : String → ℕ → Tables → Tables
bump_revision uuid version t = record t { artifacts = map (bump_row uuid version) t.artifacts }

abbrev pub id_of : FormatRow → String
id_of row = row.id

unfoldable pub artifact_format_ids : String → ℕ → Tables → List String
artifact_format_ids uuid version t = map id_of (filter (of_artifact uuid version) t.formats)

-- `ids[formatIndex]`, out of range `ErrNotFound`.
abbrev pub id_at : ℕ → List String → Result Error String
id_at i [] = err Error.not_found
id_at zero (id ∷ ids) = ok id
id_at (suc i) (id ∷ ids) = id_at i ids

unfoldable pub set_artifact_format_file :
    String → ℕ → ℕ → String → Tables → Result Error (Artifact × Tables)
unfolding artifact_format_ids insert_checksums bump_revision read_back
set_artifact_format_file uuid version i sha256 t = do
  id ← id_at i (artifact_format_ids uuid version t)
  t' ←
      insert_checksums (format_owner id) (record { alg_type = "SHA-256"; alg_value = sha256 } ∷ [])
        (record t { checksums = delete_owned (format_owner id) t.checksums })
  read_back uuid version (bump_revision uuid version t')

abbrev pub sign_row : String → String → FormatRow → FormatRow
sign_row id sha256 row =
    if has_format_id id row then record row { signature_sha256 = sha256 } else row

unfoldable pub set_artifact_format_signature_file :
    String → ℕ → ℕ → String → Tables → Result Error (Artifact × Tables)
unfolding artifact_format_ids bump_revision read_back
set_artifact_format_signature_file uuid version i sha256 t = do
  id ← id_at i (artifact_format_ids uuid version t)
  read_back uuid version
      (bump_revision uuid version (record t { formats = map (sign_row id sha256) t.formats }))

abbrev index_of : String → ℕ → List String → Result Error ℕ
index_of id i [] = err Error.not_found
index_of id i (x ∷ ids) = let rest = index_of id (suc i) ids in if x == id then ok i else rest

unfoldable pub artifact_format_index_by_id : String → ℕ → String → Tables → Result Error ℕ
unfolding artifact_format_ids
artifact_format_index_by_id uuid version id t = index_of id 0 (artifact_format_ids uuid version t)
