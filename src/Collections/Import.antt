-- ===== src/Collections/Import.antt =====
-- `ImportCollection` (internal/repo/collection.go, identity.go): a collection version with an identity
-- that the caller gives.
use opentea.Prelude.{
  ℕ, ◌+◌, String, ◌≡◌, refl, Bool, true, false, not, ◌&&◌, ◌||◌, Bool-cases, inl, inr, Option, none,
  some, List, [], ◌∷◌, ◌++◌, arith, eq_iff, eqb, eqb_iff, ◌==◌, map, if◌then◌else◌, Result, ok, err,
  Result-cases, >>=-eq-ok, ◌>>=◌,
}
use opentea.Repo.{
  Error, not_found, constraint_violation, import_identity_conflict, parse_time, format_time,
  null_if_empty,
}
use opentea.Repo.Identity.{ptr_equal, set_equal}
use opentea.Repo.Database.{
  ArtifactRef, Artifact, UpdateReason, Collection, CollectionRow, CollectionArtifact, Database,
}
use opentea.Collections.{
  contains, same_ref, ref_of, find_artifact, get_artifacts, is_ok, reason_type, reason_comment,
  reason_of, belongs_to_product_release, belongs_to_component_release, reason_allowed,
  list_collection_artifacts, insert_collection_artifact, insert_collection_artifacts,
}

pub record ImportCollectionInput : Type 0 where
  pub uuid : String
  pub version : ℕ
  pub created_date : ℕ
  pub belongs_to : String
  pub update_reason : Option UpdateReason
  pub artifacts : List ArtifactRef

unfoldable pub find_collection_unfiltered :
    String → ℕ → List CollectionRow → Result Error CollectionRow
find_collection_unfiltered uuid version [] = err not_found
find_collection_unfiltered uuid version (row ∷ rows) =
    if (row.uuid == uuid) && eqb row.version version
    then ok row
    else find_collection_unfiltered uuid version rows

unfoldable pub get_collection_by_version_unfiltered :
    Database → String → ℕ → Result Error Collection
unfolding find_collection_unfiltered list_collection_artifacts
get_collection_by_version_unfiltered db uuid version = do
  row ← find_collection_unfiltered uuid version db.collections
  artifacts ← list_collection_artifacts db uuid version
  ok (record {
    uuid = uuid;
    version = version;
    created_date = parse_time row.date;
    belongs_to = row.belongs_to;
    artifacts = artifacts;
    update_reason = reason_of row.update_reason_type row.update_reason_comment;
  })

abbrev pub same_reason : UpdateReason → UpdateReason → Bool
same_reason a b = (a.type == b.type) && (a.comment == b.comment)

unfoldable pub collection_conflicts : Collection → ImportCollectionInput → Bool
unfolding set_equal
collection_conflicts existing input =
    not (existing.belongs_to == input.belongs_to)
    || (not (eqb existing.created_date input.created_date)
        || (not (ptr_equal same_reason existing.update_reason input.update_reason)
            || not (set_equal same_ref (map ref_of existing.artifacts) input.artifacts)))

abbrev pub import_row : ImportCollectionInput → CollectionRow
import_row input = record {
  uuid = input.uuid;
  version = input.version;
  date = format_time input.created_date;
  belongs_to = input.belongs_to;
  update_reason_type = reason_type input.update_reason;
  update_reason_comment = reason_comment input.update_reason;
}

abbrev pub belongs_to_types : List String
belongs_to_types = belongs_to_product_release ∷ belongs_to_component_release ∷ []

-- The two inserts and the watermark: the primary key of `collection`, and the CHECKs on the types.
unfoldable pub store_import : ImportCollectionInput → Database → Result Error (Bool × Database)
unfolding insert_collection_artifacts reason_allowed find_collection_unfiltered
store_import input db =
    if not (is_ok (find_collection_unfiltered input.uuid input.version db.collections))
      && (contains belongs_to_types input.belongs_to
          && reason_allowed (reason_type input.update_reason))
    then (do
      rows ←
          insert_collection_artifacts db.artifacts input.uuid input.version input.artifacts
            db.collection_artifacts
      ok (
        true,
        record db {
          collections = db.collections ++ import_row input ∷ [];
          collection_artifacts = rows;
          collections_watermark = db.collections_watermark + 1;
        },
      ))
    else err constraint_violation

-- `ImportCollection`: whether the version was created, and the tables. The one error of the query is
-- that it finds nothing.
unfoldable pub import_collection : ImportCollectionInput → Database → Result Error (Bool × Database)
unfolding get_collection_by_version_unfiltered collection_conflicts store_import
import_collection input db =
    elim (get_collection_by_version_unfiltered db input.uuid input.version) [
      | err e ↦ store_import input db
      | ok existing ↦
          if collection_conflicts existing input
          then err import_identity_conflict
          else ok (false, db)
    ]

pub find_collection_unfiltered-append :
    (uuid : String) (version : ℕ) (rows : List CollectionRow) (row : CollectionRow)
    → is_ok (find_collection_unfiltered uuid version rows) ≡ false
    → row.uuid ≡ uuid
    → row.version ≡ version
    → find_collection_unfiltered uuid version (rows ++ row ∷ []) ≡ ok row
unfolding find_collection_unfiltered
find_collection_unfiltered-append uuid version [] row h e f =
    ground (arith, eq_iff row.uuid uuid, eqb_iff row.version version)
find_collection_unfiltered-append uuid version (x ∷ rows) row h e f =
    elim (Bool-cases ((x.uuid == uuid) && eqb x.version version)) [
      | inl q ↦ absurd (let k = rw (q, find_collection_unfiltered) at h in cc)
      | inr q ↦ rw q (
          find_collection_unfiltered-append uuid version rows row
            (rw (q, find_collection_unfiltered) at h) e f)
    ]

-- The inserts check each reference.
pub insert_collection_artifacts-get_artifacts :
    (artifacts : List Artifact) (uuid : String) (version : ℕ) (refs : List ArtifactRef)
    (rows rows' : List CollectionArtifact)
    → insert_collection_artifacts artifacts uuid version refs rows ≡ ok rows'
    → (found : List Artifact) × (get_artifacts artifacts refs ≡ ok found)
unfolding insert_collection_artifacts insert_collection_artifact get_artifacts
insert_collection_artifacts-get_artifacts artifacts uuid version [] rows rows' h = ([], refl)
insert_collection_artifacts-get_artifacts artifacts uuid version (ref ∷ refs) rows rows' h =
    let (more, e, k) = >>=-eq-ok (insert_collection_artifact artifacts uuid version ref rows) _ h in
    let (found, g) =
      insert_collection_artifacts-get_artifacts artifacts uuid version refs more rows' k in
    elim (Result-cases (find_artifact ref artifacts)) [
      | inl (a, f) ↦ (a ∷ found, rw (f, g) refl)
      | inr (x, f) ↦ absurd (ground arith)
    ]

pub same_ref_self : (a : ArtifactRef) → same_ref a a ≡ true
same_ref_self a = ground (arith, eq_iff a.uuid a.uuid, eqb_iff a.version a.version)

pub ptr_equal-reason_of :
    (r : Option UpdateReason)
    → ptr_equal same_reason (reason_of (reason_type r) (reason_comment r)) r ≡ true
unfolding null_if_empty
ptr_equal-reason_of none = refl
ptr_equal-reason_of (some r) = ground (
  arith,
  eq_iff r.type r.type,
  eq_iff r.comment r.comment,
  eq_iff r.comment "",
  eq_iff "" r.comment,
)
