-- ===== src/Collections/Progress.antt =====
-- When `createCollection` (internal/repo/collection.go) succeeds.
use opentea.Prelude.{
  ℕ, ◌+◌, String, ◌≡◌, refl, ap, ◌∙◌, Bool, true, false, ◌&&◌, Bool-cases, inl, inr, List, [], ◌∷◌,
  ◌++◌, arith, eqb, ◌==◌, any, ok, >>=-eq-ok, All, All-mem, All-of_mem,
}
use opentea.Repo.{parse_time}
use opentea.Repo.Database.{ArtifactRef, Artifact, Collection, CollectionArtifact, Database}
use opentea.Collections.{
  CollectionInput, same_ref, find_artifact, get_artifacts, next_version, has_collection_artifact,
  insert_collection_artifact, insert_collection_artifacts, collection_refs,
  list_collection_artifacts, get_collection_by_version, reason_allowed, reason_type, reason_of,
  create_collection,
}
use opentea.Collections.Versions.{
  next_version-absent, find_collection-append, collection_artifact,
  insert_collection_artifacts-append, collection_refs-append, collection_refs-map,
}
use opentea.Collections.ReadBack.{IsConsistent, next_version-collection_refs-absent, created_row}

-- No artifact version twice.
abbrev pub IsDistinct : List ArtifactRef → Type 0
IsDistinct [] = Unit
IsDistinct (ref ∷ refs) = All (λ r. same_ref ref r ≡ false) refs × IsDistinct refs

any-append_false :
    (p : CollectionArtifact → Bool) (rows : List CollectionArtifact) (row : CollectionArtifact)
    → any p rows ≡ false
    → p row ≡ false
    → any p (rows ++ row ∷ []) ≡ false
any-append_false p [] row h k = rw k refl
any-append_false p (x ∷ rows) row h k = elim (Bool-cases (p x)) [
  | inl e ↦ absurd (ground arith)
  | inr e ↦ rw e (any-append_false p rows row (rw e at h) k)
]

module _ (artifacts : List Artifact) (uuid : String) (version : ℕ) where
  insert_collection_artifact-ok :
      (ref : ArtifactRef) (rows : List CollectionArtifact) (a : Artifact)
      → find_artifact ref artifacts ≡ ok a
      → any (has_collection_artifact uuid version ref) rows ≡ false
      → insert_collection_artifact artifacts uuid version ref rows
        ≡ ok (rows ++ collection_artifact uuid version ref ∷ [])
  unfolding insert_collection_artifact
  insert_collection_artifact-ok ref rows a f h = ground arith

  has-apart :
      (first ref : ArtifactRef)
      → same_ref first ref ≡ false
      → has_collection_artifact uuid version ref (collection_artifact uuid version first) ≡ false
  has-apart first ref h = ground arith

  -- Refs that all resolve, that are distinct, and that the version does not have yet, go in.
  insert_collection_artifacts-ok :
      (refs : List ArtifactRef) (rows : List CollectionArtifact) (found : List Artifact)
      → get_artifacts artifacts refs ≡ ok found
      → IsDistinct refs
      → All (λ ref. any (has_collection_artifact uuid version ref) rows ≡ false) refs
      → (rows' : List CollectionArtifact) × (insert_collection_artifacts artifacts uuid version refs
            rows
          ≡ ok rows')
  unfolding insert_collection_artifacts get_artifacts
  insert_collection_artifacts-ok [] rows found g d h = (rows, refl)
  insert_collection_artifacts-ok (ref ∷ refs) rows found g d h =
      let (a, ha, g1) = >>=-eq-ok (find_artifact ref artifacts) _ g in
      let (more, hm, _) = >>=-eq-ok (get_artifacts artifacts refs) _ g1 in
      let first = insert_collection_artifact-ok ref rows a ha h.0 in
      let rows1 = rows ++ collection_artifact uuid version ref ∷ [] in
      let (rows', rest) = insert_collection_artifacts-ok refs rows1 more hm d.1 (
        All-of_mem (λ r. any (has_collection_artifact uuid version r) rows1 ≡ false) refs
          (λ r m.
            any-append_false (has_collection_artifact uuid version r) rows
              (collection_artifact uuid version ref)
              (All-mem (λ r. any (has_collection_artifact uuid version r) rows ≡ false) m h.1)
              (has-apart ref r (All-mem (λ r. same_ref ref r ≡ false) m d.0)))) in
      (rows', rw first rest)

absent-any :
    (uuid : String) (version : ℕ) (ref : ArtifactRef) (rows : List CollectionArtifact)
    → All (λ r. (r.collection_uuid == uuid) && eqb r.collection_version version ≡ false) rows
    → any (has_collection_artifact uuid version ref) rows ≡ false
absent-any uuid version ref [] h = refl
absent-any uuid version ref (r ∷ rows) h =
    let ih = absent-any uuid version ref rows h.1 in let h0 = h.0 in ground arith

-- Where the references of `collection_artifact` are good, a collection whose refs resolve and are
-- distinct, and whose reason the table allows, is created.
pub create_collection-ok :
    (db : Database) (now : ℕ) (uuid belongs_to : String) (input : CollectionInput)
    (found : List Artifact)
    → IsConsistent db
    → get_artifacts db.artifacts input.artifacts ≡ ok found
    → IsDistinct input.artifacts
    → reason_allowed (reason_type input.update_reason) ≡ true
    → (c : Collection) × (db' : Database) × (create_collection db now uuid belongs_to input
        ≡ ok (c, db'))
unfolding create_collection get_collection_by_version list_collection_artifacts
create_collection-ok db now uuid belongs_to input found con g d allowed =
    let v = next_version uuid db.collections in
    let absent = next_version-collection_refs-absent uuid db con in
    let (rows, inserted) =
      insert_collection_artifacts-ok db.artifacts uuid v input.artifacts db.collection_artifacts
        found g d
        (All-of_mem
          (λ ref. any (has_collection_artifact uuid v ref) db.collection_artifacts ≡ false)
          input.artifacts (λ ref m. absent-any uuid v ref db.collection_artifacts absent)) in
    let row = created_row db now uuid belongs_to input in
    let stored =
      find_collection-append uuid v db.collections row (next_version-absent uuid db.collections)
        refl refl in
    let refs : collection_refs uuid v rows ≡ input.artifacts =
      ap (collection_refs uuid v) (
        insert_collection_artifacts-append db.artifacts uuid v input.artifacts
          db.collection_artifacts rows inserted)
      ∙ collection_refs-append uuid v db.collection_artifacts _ absent
      ∙ collection_refs-map uuid v input.artifacts in
    (
      record {
        uuid = uuid;
        version = v;
        created_date = parse_time row.date;
        belongs_to = belongs_to;
        artifacts = found;
        update_reason = reason_of row.update_reason_type row.update_reason_comment;
      },
      record db {
        collections = db.collections ++ row ∷ [];
        collection_artifacts = rows;
        collections_watermark = db.collections_watermark + 1;
      },
      rw (allowed, inserted, stored, refs, g) refl,
    )
