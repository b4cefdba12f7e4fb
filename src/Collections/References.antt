-- ===== src/Collections/References.antt =====
-- internal/repo/collection.go: the references between `collection_artifact`, `collection` and
-- `artifact`, over a creation.
use opentea.Prelude.{
  ℕ, String, ◌≡◌, refl, sym, subst, Bool-cases, inl, inr, List, [], ◌∷◌, ◌++◌, map, arith, eq_iff,
  eqb_iff, ok, ok-injective, >>=-eq-ok, All, All-mem, All-of_mem, All-append, Memᴰ, mem-append_left,
  mem-append_right,
}
use opentea.Repo.Database.{
  ArtifactRef, Artifact, Collection, CollectionRow, CollectionArtifact, Database,
}
use opentea.Collections.{
  CollectionInput, create_collection, next_version, find_artifact, get_artifacts, ref_of, same_ref,
}
use opentea.Collections.Versions.{collection_artifact}
use opentea.Collections.ReadBack.{HasCollection, IsConsistent, create_collection-IsCreated}

HasCollection-append :
    (rows more : List CollectionRow) (r : CollectionArtifact)
    → HasCollection rows r
    → HasCollection (rows ++ more) r
HasCollection-append rows more r has = record {
  row = has.row;
  stored = mem-append_left more has.stored;
  named = has.named;
  versioned = has.versioned;
}

All-HasCollection-map :
    (rows : List CollectionRow) (row : CollectionRow) (uuid : String) (version : ℕ)
    → Memᴰ row rows
    → row.uuid ≡ uuid
    → row.version ≡ version
    → (refs : List ArtifactRef)
    → All (HasCollection rows) (map (collection_artifact uuid version) refs)
All-HasCollection-map rows row uuid version m e f [] = tt
All-HasCollection-map rows row uuid version m e f (ref ∷ refs) = (
  record { row = row; stored = m; named = e; versioned = f },
  All-HasCollection-map rows row uuid version m e f refs,
)

-- A creation keeps every reference of `collection_artifact` good.
pub create_collection-IsConsistent :
    (db db' : Database) (now : ℕ) (uuid belongs_to : String) (input : CollectionInput)
    (c : Collection)
    → IsConsistent db
    → create_collection db now uuid belongs_to input ≡ ok (c, db')
    → IsConsistent db'
create_collection-IsConsistent db db' now uuid belongs_to input c con h =
    let is = create_collection-IsCreated db now uuid belongs_to input c db' con h in
    let (row, kept, (named, versioned)) = is.kept in
    let v = next_version uuid db.collections in
    let rows = db.collections ++ row ∷ [] in
    let more = map (collection_artifact uuid v) input.artifacts in
    let old = All-of_mem (HasCollection rows) db.collection_artifacts (λ r m.
      HasCollection-append db.collections (row ∷ []) r
        (All-mem (HasCollection db.collections) m con)) in
    let new =
      All-HasCollection-map rows row uuid v (mem-append_right db.collections (Memᴰ.head refl)) named
        versioned input.artifacts in
    subst (λ cs. All (HasCollection cs) db'.collection_artifacts) (sym kept)
      (subst (All (HasCollection rows)) (sym is.linked)
        (All-append (HasCollection rows) db.collection_artifacts more old new))

find_artifact-same_ref :
    (ref : ArtifactRef) (rows : List Artifact) (a : Artifact)
    → find_artifact ref rows ≡ ok a
    → (a.uuid ≡ ref.uuid) × (a.version ≡ ref.version)
unfolding find_artifact
find_artifact-same_ref ref [] a h = cc
find_artifact-same_ref ref (x ∷ rows) a h = elim (Bool-cases (same_ref (ref_of x) ref)) [
  | inl e ↦
      let is : x ≡ a = ok-injective (rw (e, find_artifact) at h) in
      subst (λ z. (z.uuid ≡ ref.uuid) × (z.version ≡ ref.version)) is
        (ground (arith, eq_iff x.uuid ref.uuid), ground (arith, eqb_iff x.version ref.version))
  | inr e ↦ find_artifact-same_ref ref rows a (rw (e, find_artifact) at h)
]

-- The refs of artifacts that were found find the same artifacts again.
pub get_artifacts-map-ref_of :
    (rows : List Artifact) (refs : List ArtifactRef) (found : List Artifact)
    → get_artifacts rows refs ≡ ok found
    → (map ref_of found ≡ refs) × (get_artifacts rows (map ref_of found) ≡ ok found)
unfolding get_artifacts
get_artifacts-map-ref_of rows [] found h =
    subst (λ z. (map ref_of z ≡ []) × (get_artifacts rows (map ref_of z) ≡ ok z)) (ok-injective h)
      (refl, refl)
get_artifacts-map-ref_of rows (ref ∷ refs) found h =
    let (a, ha, h1) = >>=-eq-ok (find_artifact ref rows) _ h in
    let (more, hm, h2) = >>=-eq-ok (get_artifacts rows refs) _ h1 in
    let (same, again) = get_artifacts-map-ref_of rows refs more hm in
    let (e, f) = find_artifact-same_ref ref rows a ha in
    let is : ref_of a ≡ ref = rw (e, f) refl in
    subst (λ z. (map ref_of z ≡ ref ∷ refs) × (get_artifacts rows (map ref_of z) ≡ ok z))
      (ok-injective h2) (rw (is, same) refl, ground arith)
