-- ===== src/Collections/Versions.antt =====
-- The version that `createCollection` (internal/repo/collection.go) gives, and the tables it leaves.
use opentea.Prelude.{
  ℕ, ◌<◌, String, ◌≡◌, refl, sym, ap, ◌∙◌, subst, Bool, true, false, ◌&&◌, inl, inr, Bool-cases,
  List, [], ◌∷◌, ◌++◌, map, arith, eq_iff, eqb, eqb_iff, ◌==◌, ok, ok-injective, >>=-eq-ok,
  append-nil, append_assoc, All, All-of_mem, Memᴰ,
}
use opentea.Repo.Database.{ArtifactRef, Artifact, CollectionRow, CollectionArtifact}
use opentea.Collections.{
  max_version, of_uuid, version_after, next_version, find_collection, insert_collection_artifact,
  insert_collection_artifacts, collection_refs,
}

version_after-max :
    (test : CollectionRow → Bool) (rows : List CollectionRow) {r : CollectionRow}
    → Memᴰ r rows
    → test r ≡ true
    → r.version < version_after (max_version test rows)
unfolding max_version
version_after-max test [] m h = elim m [ ]
version_after-max test (row ∷ rows) {r} (Memᴰ.head e) h =
    let h' = subst (λ z. test z ≡ true) e h in
    subst (λ z. z.version < version_after (max_version test (row ∷ rows))) (sym e) (ground arith)
version_after-max test (row ∷ rows) {r} (Memᴰ.tail m) h =
    let ih = version_after-max test rows m h in ground arith

-- The new version of a collection is above every version that it has.
pub next_version-lt :
    (uuid : String) (rows : List CollectionRow) (r : CollectionRow)
    → Memᴰ r rows
    → r.uuid ≡ uuid
    → r.version < next_version uuid rows
unfolding next_version
next_version-lt uuid rows r m e =
    version_after-max (of_uuid uuid) rows m (ground (arith, eq_iff r.uuid uuid))

-- No row has the new version.
pub next_version-absent :
    (uuid : String) (rows : List CollectionRow)
    → All (λ r. (r.uuid == uuid) && eqb r.version (next_version uuid rows) ≡ false) rows
next_version-absent uuid rows =
    All-of_mem (λ r. (r.uuid == uuid) && eqb r.version (next_version uuid rows) ≡ false) rows
      (λ r m. elim (Bool-cases (r.uuid == uuid)) [
        | inl e ↦
            let lt = next_version-lt uuid rows r m ((eq_iff r.uuid uuid).0 e) in
            ground (arith, eqb_iff r.version (next_version uuid rows))
        | inr e ↦ ground arith
      ])

-- What `createCollection` reads back is the row that it wrote.
pub find_collection-append :
    (uuid : String) (version : ℕ) (rows : List CollectionRow) (row : CollectionRow)
    → All (λ r. (r.uuid == uuid) && eqb r.version version ≡ false) rows
    → row.uuid ≡ uuid
    → row.version ≡ version
    → find_collection uuid version row.belongs_to (rows ++ row ∷ []) ≡ ok row
unfolding find_collection
find_collection-append uuid version [] row a e f =
    ground (
      arith,
      eq_iff row.uuid uuid,
      eqb_iff row.version version,
      eq_iff row.belongs_to row.belongs_to,
    )
find_collection-append uuid version (x ∷ rows) row a e f =
    let ih = find_collection-append uuid version rows row a.1 e f in let a0 = a.0 in ground arith

abbrev pub collection_artifact : String → ℕ → ArtifactRef → CollectionArtifact
collection_artifact uuid version ref = record {
  collection_uuid = uuid;
  collection_version = version;
  artifact = ref;
}

insert_collection_artifact-append :
    (artifacts : List Artifact) (uuid : String) (version : ℕ) (ref : ArtifactRef)
    (rows rows' : List CollectionArtifact)
    → insert_collection_artifact artifacts uuid version ref rows ≡ ok rows'
    → rows' ≡ rows ++ collection_artifact uuid version ref ∷ []
unfolding insert_collection_artifact
insert_collection_artifact-append artifacts uuid version ref rows rows' h = ground arith

-- The inserts add one row for each ref, in order.
pub insert_collection_artifacts-append :
    (artifacts : List Artifact) (uuid : String) (version : ℕ) (refs : List ArtifactRef)
    (rows rows' : List CollectionArtifact)
    → insert_collection_artifacts artifacts uuid version refs rows ≡ ok rows'
    → rows' ≡ rows ++ map (collection_artifact uuid version) refs
unfolding insert_collection_artifacts
insert_collection_artifacts-append artifacts uuid version [] rows rows' h =
    sym (ok-injective h) ∙ sym (append-nil rows)
insert_collection_artifacts-append artifacts uuid version (ref ∷ refs) rows rows' h =
    let (more, e, k) = >>=-eq-ok (insert_collection_artifact artifacts uuid version ref rows) _ h in
    insert_collection_artifacts-append artifacts uuid version refs more rows' k
    ∙ ap (λ z. z ++ map (collection_artifact uuid version) refs)
        (insert_collection_artifact-append artifacts uuid version ref rows more e)
    ∙ append_assoc rows (collection_artifact uuid version ref ∷ [])
        (map (collection_artifact uuid version) refs)

pub collection_refs-append :
    (uuid : String) (version : ℕ) (rows more : List CollectionArtifact)
    → All (λ r. (r.collection_uuid == uuid) && eqb r.collection_version version ≡ false) rows
    → collection_refs uuid version (rows ++ more) ≡ collection_refs uuid version more
unfolding collection_refs
collection_refs-append uuid version [] more a = refl
collection_refs-append uuid version (r ∷ rows) more a =
    rw a.0 (collection_refs-append uuid version rows more a.1)

pub collection_refs-map :
    (uuid : String) (version : ℕ) (refs : List ArtifactRef)
    → collection_refs uuid version (map (collection_artifact uuid version) refs) ≡ refs
unfolding collection_refs
collection_refs-map uuid version [] = refl
collection_refs-map uuid version (ref ∷ refs) =
    rw ((eq_iff uuid uuid).1 refl, (eqb_iff version version).1 refl)
      (ap (λ z. ref ∷ z) (collection_refs-map uuid version refs))
