-- ===== src/Draft.antt =====
-- internal/repo/collectiondraft.go: the collection draft, from editing over approval and the signing
-- lock to the published collection. `clock i` is what the i-th `time.Now()` in the text of an
-- operation, its callees included, reads; `ttl` and such are the durations of the configuration.
pub mod Rows
pub mod Operations
pub mod Publish
pub mod Effects
pub mod Committed
pub mod WouldBe
pub mod History
pub mod Signing
pub mod Editing
pub mod Faithful
pub mod Frames
pub mod Shown
pub mod Approved
pub mod Log
pub mod Progress
pub mod Example
mod Tests
pub mod FourEyes
use opentea.Prelude.{
  ℕ, ◌+◌, ◌*◌, ◌/◌, String, Bool, true, false, not, ◌&&◌, ◌||◌, Option, none, some, List, [], ◌∷◌,
  ◌++◌, map, ◌==◌, eqb, ltb, if◌then◌else◌, any, filter, Result, ok, err, ◌>>=◌, ◌>>◌,
}
use opentea.Repo.{
  Error, not_found, draft_locked, self_approval, approval_required, lock_not_held,
  draft_revision_conflict, unknown_owner_type, lock_date_missing, format_time, parse_time,
  null_if_empty, sql_eq,
}
use opentea.Repo.Database.{
  ArtifactRef, Artifact, UpdateReason, Collection, DraftRow, DraftArtifact, Database,
}
use opentea.Collections.{
  contains, is_ok, ref_of, find_artifact, get_artifacts, next_version, latest_collection_version,
  list_collection_artifacts, reason_type, reason_comment, reason_of, or_empty,
}

-- `*Repo` inside a transaction: the tables go in, and the new tables come out. An error carries no
-- tables, so what a failing operation did is rolled back.
abbrev pub Tx : Type 0 → Type 0
Tx A = Database → Result Error (A × Database)

pub record Approval : Type 0 where
  pub status : String
  pub decided_by : String
  pub decided_at : Option ℕ
  pub decided_at_revision : ℕ
  pub expires_at : Option ℕ
  pub comment : String

pub record CollectionDraft : Type 0 where
  pub owner_type : String
  pub owner_uuid : String
  pub created_at : ℕ
  pub expires_at : ℕ
  pub lock_expires_at : Option ℕ
  pub artifacts : List ArtifactRef
  pub update_reason : Option UpdateReason
  pub added : List String
  pub removed : List String
  pub drafted_by : String
  pub revision : ℕ
  pub approval : Approval

abbrev pub owned_by : String → String → DraftRow → Bool
owned_by owner_type owner_uuid row =
    (row.owner_type == owner_type) && (row.owner_uuid == owner_uuid)

unfoldable pub find_draft : String → String → List DraftRow → Option DraftRow
find_draft owner_type owner_uuid [] = none
find_draft owner_type owner_uuid (row ∷ rows) =
    if owned_by owner_type owner_uuid row then some row else find_draft owner_type owner_uuid rows

unfoldable pub fetch_draft_row : Database → String → String → Result Error DraftRow
unfolding find_draft
fetch_draft_row db owner_type owner_uuid = elim (find_draft owner_type owner_uuid db.drafts) [
  | none ↦ err not_found
  | some row ↦ ok row
]

-- `UPDATE collection_draft SET ... WHERE owner_type = ? AND owner_uuid = ?`
unfoldable pub update_draft :
    String → String → (DraftRow → DraftRow) → List DraftRow → List DraftRow
update_draft owner_type owner_uuid set [] = []
update_draft owner_type owner_uuid set (row ∷ rows) =
    (if owned_by owner_type owner_uuid row then set row else row)
    ∷ update_draft owner_type owner_uuid set rows

abbrev pub artifact_owned_by : String → String → DraftArtifact → Bool
artifact_owned_by owner_type owner_uuid row =
    (row.owner_type == owner_type) && (row.owner_uuid == owner_uuid)

unfoldable pub draft_refs : String → String → List DraftArtifact → List ArtifactRef
draft_refs owner_type owner_uuid [] = []
draft_refs owner_type owner_uuid (row ∷ rows) =
    let rest = draft_refs owner_type owner_uuid rows in
    if artifact_owned_by owner_type owner_uuid row then row.artifact ∷ rest else rest

unfoldable pub list_draft_artifacts : Database → String → String → List ArtifactRef
unfolding draft_refs
list_draft_artifacts db owner_type owner_uuid = draft_refs owner_type owner_uuid db.draft_artifacts

unfoldable pub lock_held : DraftRow → ℕ → Bool
lock_held row now = elim row.lock_expires_at [ none ↦ false | some t ↦ ltb now (parse_time t) ]

unfoldable pub require_release_owner_exists : Database → String → String → Result Error (Unit {0})
require_release_owner_exists db owner_type owner_uuid =
    if owner_type == "PRODUCT_RELEASE"
    then (if contains db.product_releases owner_uuid then ok tt else err not_found)
    else if owner_type == "COMPONENT_RELEASE"
    then (if contains db.component_releases owner_uuid then ok tt else err not_found)
    else err unknown_owner_type

unfoldable pub require_artifacts_exist : Database → List ArtifactRef → Result Error (Unit {0})
require_artifacts_exist db [] = ok tt
require_artifacts_exist db (ref ∷ refs) =
    let rest = require_artifacts_exist db refs in
    if is_ok (find_artifact ref db.artifacts) then rest else err not_found

-- The keys of a Go map from uuids, in the order in which the list first shows them; Go's own order
-- of iteration is not fixed.
unfoldable pub distinct_uuids : List String → List String
distinct_uuids [] = []
distinct_uuids (x ∷ xs) = let rest = distinct_uuids xs in x ∷ filter (λ y. not (y == x)) rest

unfoldable pub added_uuids : List String → List String → List String
unfolding distinct_uuids
added_uuids draft current = filter (λ u. not (contains current u)) (distinct_uuids draft)

unfoldable pub removed_uuids : List String → List String → List String
removed_uuids draft current = filter (λ u. not (contains draft u)) current

abbrev pub uuid_of : ArtifactRef → String
uuid_of ref = ref.uuid

-- The uuids of the artifacts of the current collection, if there is one.
unfoldable pub current_uuids : Database → String → String → Result Error (List String)
current_uuids db owner_type owner_uuid = elim (latest_collection_version db owner_uuid owner_type) [
  | none ↦ ok []
  | some version ↦ do
    current ← list_collection_artifacts db owner_uuid version
    ok (map (λ a. uuid_of (ref_of a)) current)
]

abbrev pub or_zero : Option ℕ → ℕ
or_zero none = 0
or_zero (some n) = n

abbrev pub parse_null_time : Option ℕ → Option ℕ
parse_null_time none = none
parse_null_time (some s) = some (parse_time s)

unfoldable pub get_collection_draft : Database → String → String → Result Error CollectionDraft
unfolding fetch_draft_row list_draft_artifacts current_uuids added_uuids removed_uuids
get_collection_draft db owner_type owner_uuid = do
  row ← fetch_draft_row db owner_type owner_uuid
  let refs = list_draft_artifacts db owner_type owner_uuid
  current ← current_uuids db owner_type owner_uuid
  ok (record {
    owner_type = owner_type;
    owner_uuid = owner_uuid;
    created_at = row.created_at;
    expires_at = parse_time row.expires_at;
    lock_expires_at = parse_null_time row.lock_expires_at;
    artifacts = refs;
    update_reason = reason_of row.update_reason_type row.update_reason_comment;
    added = added_uuids (map uuid_of refs) current;
    removed = removed_uuids (map uuid_of refs) current;
    drafted_by = row.drafted_by;
    revision = row.revision;
    approval = record {
      status = row.approval_status;
      decided_by = or_empty row.approval_decided_by;
      decided_at = parse_null_time row.approval_decided_at;
      decided_at_revision = or_zero row.approval_decided_at_revision;
      expires_at = parse_null_time row.approval_expires_at;
      comment = or_empty row.approval_comment;
    };
  })
