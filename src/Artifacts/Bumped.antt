-- ===== src/Artifacts/Bumped.antt =====
-- The files that internal/repo/artifact.go records for a format: they bump the revision of its artifact,
-- and leave the others as they are.
use opentea.Prelude.{
  ℕ, ◌+◌, ◌<◌, ◌≡◌, refl, ap, ◌∙◌, subst, String, true, false, not, [], ◌∷◌, ◌++◌, map, filter,
  eqb_iff, eq_iff, Bool-cases, inl, inr, ok, >>=-eq-ok, ok-injective, guard-eq-ok, arith,
}
use opentea.Repo.{Error}
use opentea.Repo.Owners.{rows_of-other, rows_of-delete_other, delete_owned}
use opentea.Repo.Identifiers.{one_of}
use opentea.Artifacts.{
  Checksum, Artifact, ArtifactRow, Tables, find_row, of_artifact, format_of, format_owner,
  list_artifact_formats, list_artifact_distribution_ids, get_artifact_by_version,
}
use opentea.Artifacts.Inserts.{insert_checksum, insert_checksums, algorithm_types}
use opentea.Artifacts.Writes.{
  read_back, bump_revision, id_at, artifact_format_ids, set_artifact_format_file, sign_row,
  set_artifact_format_signature_file,
}
use opentea.Artifacts.Views.{IsSameFor, IdsOnce}
use opentea.Artifacts.Rows.{same_key, listed-but, same_format_owner}
use opentea.Artifacts.Ids.{
  find_row-bump_other, find_row-bump_own, id_at-absent, IdsOnce-sign, filter-sign,
}

-- What a write does to a revision that is there.
pub data Moved (uuid : String) (version : ℕ) (row : ArtifactRow) (t t' : Tables) : Type 0 where
  kept : IsSameFor uuid version t t' → IdsOnce t'.formats → Moved uuid version row t t'
  raised :
      (next : ArtifactRow)
      → find_row uuid version t'.artifacts ≡ ok next
      → row.revision < next.revision
      → IdsOnce t'.formats
      → Moved uuid version row t t'

pub read_back-state :
    (u : String) (v : ℕ) (a : Artifact) (t t' : Tables) → read_back u v t ≡ ok (a, t') → t ≡ t'
unfolding read_back
read_back-state u v a t t' h =
    let (b, e, k) = >>=-eq-ok (get_artifact_by_version u v t) _ h in ap (λ p. p.1) (ok-injective k)

-- The checksums of a format replaced by one.
abbrev with_checksum : String → Checksum → Tables → Tables
with_checksum id c t = record t {
  checksums =
      delete_owned (format_owner id) t.checksums
      ++ record { owner = format_owner id; row = c } ∷ [];
}

insert_checksums-replaced :
    (id : String) (c : Checksum) (t b : Tables)
    → insert_checksums
        (format_owner id)
        (c ∷ [])
        (record t { checksums = delete_owned (format_owner id) t.checksums })
      ≡ ok b
    → with_checksum id c t ≡ b
unfolding insert_checksums insert_checksum
insert_checksums-replaced id c t b h =
    let start = record t { checksums = delete_owned (format_owner id) t.checksums } in
    let (x, e, k) = >>=-eq-ok (insert_checksum (format_owner id) c start) (λ z. ok z) h in
    let (g, q) =
      guard-eq-ok (not (one_of algorithm_types c.alg_type)) Error.constraint_violation e in
    q ∙ ok-injective k

module _ (u : String) (v : ℕ) (uuid : String) (version : ℕ) (row : ArtifactRow) (t : Tables)
    (found : find_row uuid version t.artifacts ≡ ok row) where
  -- A bump of its own raises the revision.
  own-raised :
      (t' : Tables)
      → same_key u v uuid version ≡ true
      → t'.artifacts ≡ t.artifacts
      → IdsOnce t'.formats
      → Moved uuid version row t (bump_revision u v t')
  unfolding bump_revision
  own-raised t' own same once =
      let a : u ≡ uuid = ground (arith, eq_iff u uuid) in
      let b : v ≡ version = ground (arith, eqb_iff v version) in
      Moved.raised (record row { revision = row.revision + 1 })
        (rw (a, b, same) (find_row-bump_own uuid version t.artifacts row found)) (omega arith) once

  -- A checksum replaced, and a bump, of another revision.
  file-kept :
      (i : ℕ) (id : String) (c : Checksum)
      → same_key u v uuid version ≡ false
      → IdsOnce t.formats
      → id_at i (artifact_format_ids u v t) ≡ ok id
      → Moved uuid version row t (bump_revision u v (with_checksum id c t))
  unfolding bump_revision list_artifact_formats list_artifact_distribution_ids artifact_format_ids
  file-kept i id c other once h =
      Moved.kept
        (record {
          found = find_row-bump_other u v uuid version t.artifacts other;
          rows = refl;
          listed =
              listed-but t (with_checksum id c t) id (filter (of_artifact uuid version) t.formats)
                (λ another d.
                  let p = same_format_owner id another d in
                  rows_of-other (format_owner another) (format_owner id)
                    (delete_owned (format_owner id) t.checksums) c p
                  ∙ rows_of-delete_other (format_owner another) (format_owner id) t.checksums p)
                (id_at-absent u v uuid version t.formats i id other once h);
          distributions = refl;
        })
        once

  -- A signature set, and a bump, of another revision.
  signature-kept :
      (i : ℕ) (id sha256 : String)
      → same_key u v uuid version ≡ false
      → IdsOnce t.formats
      → id_at i (artifact_format_ids u v t) ≡ ok id
      → Moved uuid version row t
          (bump_revision u v (record t { formats = map (sign_row id sha256) t.formats }))
  unfolding bump_revision list_artifact_formats list_artifact_distribution_ids artifact_format_ids
  signature-kept i id sha256 other once h =
      let rows =
        filter-sign uuid version id sha256 t.formats
          (id_at-absent u v uuid version t.formats i id other once h) in
      Moved.kept
        (record {
          found = find_row-bump_other u v uuid version t.artifacts other;
          rows = rows;
          listed = ap (map (format_of t)) rows;
          distributions = refl;
        })
        (IdsOnce-sign id sha256 t.formats once)

  pub set_artifact_format_file-Moved :
      (i : ℕ) (sha256 : String) (a : Artifact) (t' : Tables)
      → IdsOnce t.formats
      → set_artifact_format_file u v i sha256 t ≡ ok (a, t')
      → Moved uuid version row t t'
  unfolding set_artifact_format_file
  set_artifact_format_file-Moved i sha256 a t' once h =
      let c : Checksum = record { alg_type = "SHA-256"; alg_value = sha256 } in
      let (id, e, k) = >>=-eq-ok (id_at i (artifact_format_ids u v t)) _ h in
      let start = record t { checksums = delete_owned (format_owner id) t.checksums } in
      let (b, f, l) =
        >>=-eq-ok (insert_checksums (format_owner id) (c ∷ []) start)
          (λ z. read_back u v (bump_revision u v z)) k in
      let q = insert_checksums-replaced id c t b f in
      subst (Moved uuid version row t)
        (ap (bump_revision u v) q ∙ read_back-state u v a (bump_revision u v b) t' l)
        (elim (Bool-cases (same_key u v uuid version)) [
          | inl own ↦ own-raised (with_checksum id c t) own refl once
          | inr other ↦ file-kept i id c other once e
        ])

  pub set_artifact_format_signature_file-Moved :
      (i : ℕ) (sha256 : String) (a : Artifact) (t' : Tables)
      → IdsOnce t.formats
      → set_artifact_format_signature_file u v i sha256 t ≡ ok (a, t')
      → Moved uuid version row t t'
  unfolding set_artifact_format_signature_file
  set_artifact_format_signature_file-Moved i sha256 a t' once h =
      let (id, e, k) = >>=-eq-ok (id_at i (artifact_format_ids u v t)) _ h in
      let b = record t { formats = map (sign_row id sha256) t.formats } in
      subst (Moved uuid version row t) (read_back-state u v a (bump_revision u v b) t' k)
        (elim (Bool-cases (same_key u v uuid version)) [
          | inl own ↦ own-raised b own refl (IdsOnce-sign id sha256 t.formats once)
          | inr other ↦ signature-kept i id sha256 other once e
        ])
