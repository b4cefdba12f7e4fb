-- ===== src/Collections.antt =====
-- internal/repo/collection.go: creating a collection version and reading it back.
pub mod Versions
pub mod ReadBack
pub mod References
pub mod Progress
pub mod Import
pub mod Reimport
pub mod Latest
mod Tests
use opentea.Prelude.{
  ℕ, suc, ◌+◌, String, Bool, true, false, not, ◌&&◌, ◌||◌, Option, none, some, List, [], ◌∷◌, ◌++◌,
  map, ◌==◌, eqb, ltb, if◌then◌else◌, any, filter, Result, ok, err, ◌>>=◌,
}
use opentea.Repo.{Error, not_found, constraint_violation, format_time, parse_time, null_if_empty}
use opentea.Repo.Database.{
  ArtifactRef, Artifact, UpdateReason, Collection, CollectionRow, CollectionArtifact, Database,
}

abbrev pub belongs_to_product_release : String
belongs_to_product_release = "PRODUCT_RELEASE"

abbrev pub belongs_to_component_release : String
belongs_to_component_release = "COMPONENT_RELEASE"

pub record CollectionInput : Type 0 where
  pub update_reason : Option UpdateReason
  pub artifacts : List ArtifactRef
  pub created_date : Option ℕ

abbrev pub contains : List String → String → Bool
contains xs a = any (λ x. x == a) xs

abbrev pub same_ref : ArtifactRef → ArtifactRef → Bool
same_ref a b = (a.uuid == b.uuid) && eqb a.version b.version

abbrev pub ref_of : Artifact → ArtifactRef
ref_of a = record { uuid = a.uuid; version = a.version }

-- `getArtifactByVersionTx`
unfoldable pub find_artifact : ArtifactRef → List Artifact → Result Error Artifact
find_artifact ref [] = err not_found
find_artifact ref (a ∷ rows) = if same_ref (ref_of a) ref then ok a else find_artifact ref rows

unfoldable pub get_artifacts : List Artifact → List ArtifactRef → Result Error (List Artifact)
get_artifacts rows [] = ok []
get_artifacts rows (ref ∷ refs) = do
  a ← find_artifact ref rows
  more ← get_artifacts rows refs
  ok (a ∷ more)

-- `SELECT MAX(version) ... WHERE` over the rows that the test keeps.
unfoldable pub max_version : (CollectionRow → Bool) → List CollectionRow → Option ℕ
max_version test [] = none
max_version test (row ∷ rows) =
    let rest = max_version test rows in
    if test row
    then elim rest [
      | none ↦ some row.version
      | some v ↦ some (if ltb v row.version then row.version else v)
    ]
    else rest

abbrev pub of_uuid : String → CollectionRow → Bool
of_uuid uuid row = row.uuid == uuid

-- `version := 1; if maxVersion.Valid { version = maxVersion + 1 }`
abbrev pub version_after : Option ℕ → ℕ
version_after none = 1
version_after (some v) = v + 1

unfoldable pub next_version : String → List CollectionRow → ℕ
unfolding max_version
next_version uuid rows = version_after (max_version (of_uuid uuid) rows)

unfoldable pub latest_collection_version : Database → String → String → Option ℕ
unfolding max_version
latest_collection_version db uuid belongs_to =
    max_version (λ row. (row.uuid == uuid) && (row.belongs_to == belongs_to)) db.collections

abbrev pub reason_type : Option UpdateReason → Option String
reason_type none = none
reason_type (some r) = some r.type

abbrev pub reason_comment : Option UpdateReason → Option String
reason_comment none = none
reason_comment (some r) = null_if_empty r.comment

abbrev pub or_empty : Option String → String
or_empty none = ""
or_empty (some s) = s

-- The reason that two columns hold.
abbrev pub reason_of : Option String → Option String → Option UpdateReason
reason_of none comment = none
reason_of (some t) comment = some (record { type = t; comment = or_empty comment })

-- The refs of one version, in the order of insertion.
unfoldable pub collection_refs : String → ℕ → List CollectionArtifact → List ArtifactRef
collection_refs uuid version [] = []
collection_refs uuid version (row ∷ rows) =
    let rest = collection_refs uuid version rows in
    if (row.collection_uuid == uuid) && eqb row.collection_version version
    then row.artifact ∷ rest
    else rest

unfoldable pub list_collection_artifacts : Database → String → ℕ → Result Error (List Artifact)
unfolding collection_refs get_artifacts
list_collection_artifacts db uuid version =
    get_artifacts db.artifacts (collection_refs uuid version db.collection_artifacts)

unfoldable pub find_collection :
    String → ℕ → String → List CollectionRow → Result Error CollectionRow
find_collection uuid version belongs_to [] = err not_found
find_collection uuid version belongs_to (row ∷ rows) =
    if (row.uuid == uuid) && (eqb row.version version && (row.belongs_to == belongs_to))
    then ok row
    else find_collection uuid version belongs_to rows

unfoldable pub get_collection_by_version : Database → String → ℕ → String → Result Error Collection
unfolding find_collection list_collection_artifacts
get_collection_by_version db uuid version belongs_to = do
  row ← find_collection uuid version belongs_to db.collections
  artifacts ← list_collection_artifacts db uuid version
  ok (record {
    uuid = uuid;
    version = version;
    created_date = parse_time row.date;
    belongs_to = row.belongs_to;
    artifacts = artifacts;
    update_reason = reason_of row.update_reason_type row.update_reason_comment;
  })

unfoldable pub get_latest_collection : Database → String → String → Result Error Collection
unfolding latest_collection_version get_collection_by_version
get_latest_collection db uuid belongs_to = elim (latest_collection_version db uuid belongs_to) [
  | none ↦ err not_found
  | some version ↦ get_collection_by_version db uuid version belongs_to
]

-- The CHECK on `update_reason_type`.
abbrev pub reason_types : List String
reason_types =
    "INITIAL_RELEASE" ∷ "VEX_UPDATED" ∷ "ARTIFACT_UPDATED" ∷ "ARTIFACT_ADDED" ∷ "ARTIFACT_REMOVED"
    ∷ []

unfoldable pub reason_allowed : Option String → Bool
reason_allowed none = true
reason_allowed (some t) = contains reason_types t

abbrev pub has_collection_artifact : String → ℕ → ArtifactRef → CollectionArtifact → Bool
has_collection_artifact uuid version ref row =
    (row.collection_uuid == uuid)
    && (eqb row.collection_version version && same_ref row.artifact ref)

abbrev pub is_ok {ℓ κ} : {E : Type κ} {A : Type ℓ} → Result E A → Bool
is_ok (ok a) = true
is_ok (err e) = false

-- One `INSERT INTO collection_artifact`: its primary key and its reference to `artifact`.
unfoldable pub insert_collection_artifact :
    List Artifact
    → String
    → ℕ
    → ArtifactRef
    → List CollectionArtifact
    → Result Error (List CollectionArtifact)
unfolding find_artifact
insert_collection_artifact artifacts uuid version ref rows =
    if not (is_ok (find_artifact ref artifacts))
      || any (has_collection_artifact uuid version ref) rows
    then err constraint_violation
    else ok (
        rows
        ++ record { collection_uuid = uuid; collection_version = version; artifact = ref } ∷ [])

unfoldable pub insert_collection_artifacts :
    List Artifact
    → String
    → ℕ
    → List ArtifactRef
    → List CollectionArtifact
    → Result Error (List CollectionArtifact)
unfolding insert_collection_artifact
insert_collection_artifacts artifacts uuid version [] rows = ok rows
insert_collection_artifacts artifacts uuid version (ref ∷ refs) rows = do
  more ← insert_collection_artifact artifacts uuid version ref rows
  insert_collection_artifacts artifacts uuid version refs more

abbrev pub or_now : ℕ → Option ℕ → ℕ
or_now now none = now
or_now now (some t) = t

-- The body of `createCollection`'s transaction, with the clock's reading `now`.
unfoldable pub create_collection :
    Database → ℕ → String → String → CollectionInput → Result Error (Collection × Database)
unfolding next_version insert_collection_artifacts get_collection_by_version reason_allowed
create_collection db now owner_uuid belongs_to input =
    let version = next_version owner_uuid db.collections in
    let row : CollectionRow = record {
      uuid = owner_uuid;
      version = version;
      date = format_time (or_now now input.created_date);
      belongs_to = belongs_to;
      update_reason_type = reason_type input.update_reason;
      update_reason_comment = reason_comment input.update_reason;
    } in
    if not (reason_allowed row.update_reason_type) then err constraint_violation else (do
      rows ←
          insert_collection_artifacts db.artifacts owner_uuid version input.artifacts
            db.collection_artifacts
      let db' : Database = record db {
        collections = db.collections ++ row ∷ [];
        collection_artifacts = rows;
        collections_watermark = db.collections_watermark + 1;
      }
      collection ← get_collection_by_version db' owner_uuid version belongs_to
      ok (collection, db'))

unfoldable pub create_collection_for_product_release :
    Database → ℕ → String → CollectionInput → Result Error (Collection × Database)
create_collection_for_product_release db now uuid input =
    if contains db.product_releases uuid
    then create_collection db now uuid belongs_to_product_release input
    else err not_found

unfoldable pub create_collection_for_component_release :
    Database → ℕ → String → CollectionInput → Result Error (Collection × Database)
create_collection_for_component_release db now uuid input =
    if contains db.component_releases uuid
    then create_collection db now uuid belongs_to_component_release input
    else err not_found
