-- ===== src/Draft/Operations.antt =====
-- The operations of internal/repo/collectiondraft.go on a draft: putting, deciding, preparing,
-- peeking, cancelling and deleting.
use opentea.Prelude.{
  ℕ, ◌+◌, ◌*◌, ◌/◌, String, Bool, true, false, not, ◌&&◌, ◌||◌, Option, none, some, List, [], ◌∷◌,
  ◌++◌, map, ◌==◌, eqb, ltb, if◌then◌else◌, any, filter, Result, ok, err, ◌>>=◌, ◌>>◌,
}
use opentea.Repo.{
  Error, not_found, draft_locked, self_approval, approval_required, lock_not_held,
  draft_revision_conflict, lock_date_missing, format_time, parse_time, null_if_empty, sql_eq,
}
use opentea.Repo.Database.{ArtifactRef, UpdateReason, Collection, DraftRow, DraftArtifact, Database}
use opentea.Collections.{get_artifacts, next_version, reason_type, reason_comment, reason_of}
use opentea.Draft.{
  Tx, CollectionDraft, find_draft, fetch_draft_row, owned_by, update_draft, artifact_owned_by,
  list_draft_artifacts, lock_held, require_release_owner_exists, require_artifacts_exist,
  get_collection_draft,
}

-- What a client sends with `putCollectionDraft`, and the lifetime that the configuration gives.
pub record PutInput : Type 0 where
  pub actor : String
  pub drafted_by_credential_uuid : String
  pub artifacts : List ArtifactRef
  pub update_reason : Option UpdateReason
  pub ttl : ℕ
  pub expected_revision : Option ℕ

-- SQLite's default for `created_at` has milliseconds.
abbrev pub millisecond : ℕ
millisecond = 1000000

-- The row that `INSERT ... ON CONFLICT DO UPDATE` leaves: all columns but `created_at` are new.
unfoldable pub draft_row : String → String → PutInput → ℕ → ℕ → ℕ → DraftRow
draft_row owner_type owner_uuid input revision created_at now = record {
  owner_type = owner_type;
  owner_uuid = owner_uuid;
  revision = revision;
  drafted_by = input.actor;
  drafted_by_credential_uuid = null_if_empty input.drafted_by_credential_uuid;
  update_reason_type = reason_type input.update_reason;
  update_reason_comment = reason_comment input.update_reason;
  created_at = created_at;
  expires_at = format_time (now + input.ttl);
  lock_expires_at = none;
  lock_date = none;
  approval_status = "none";
  approval_decided_by = none;
  approval_decided_by_credential_uuid = none;
  approval_decided_at = none;
  approval_decided_at_revision = none;
  approval_expires_at = none;
  approval_comment = none;
}

abbrev pub current_revision : Option DraftRow → ℕ
current_revision none = 0
current_revision (some row) = row.revision

abbrev pub is_locked : Option DraftRow → ℕ → Bool
is_locked none now = false
is_locked (some row) now = lock_held row now

abbrev pub expects : Option ℕ → ℕ → Bool
expects none current = true
expects (some r) current = eqb r current

-- The upsert: an update keeps the row's place and its `created_at`.
unfoldable pub upsert_draft :
    String → String → PutInput → (ℕ → ℕ) → Option DraftRow → List DraftRow → List DraftRow
unfolding draft_row update_draft
upsert_draft owner_type owner_uuid input clock none rows =
    rows
    ++ draft_row owner_type owner_uuid input 1 (clock 2 / millisecond * millisecond) (clock 1) ∷ []
upsert_draft owner_type owner_uuid input clock (some old) rows =
    update_draft owner_type owner_uuid
      (λ row. draft_row owner_type owner_uuid input (old.revision + 1) row.created_at (clock 1))
      rows

abbrev pub draft_artifact : String → String → ArtifactRef → DraftArtifact
draft_artifact owner_type owner_uuid ref = record {
  owner_type = owner_type;
  owner_uuid = owner_uuid;
  artifact = ref;
}

unfoldable pub put_collection_draft : (ℕ → ℕ) → String → String → PutInput → Tx CollectionDraft
unfolding upsert_draft
put_collection_draft clock owner_type owner_uuid input db = do
  require_release_owner_exists db owner_type owner_uuid
  require_artifacts_exist db input.artifacts
  let existing = find_draft owner_type owner_uuid db.drafts
  if is_locked existing (clock 0) then err draft_locked else ok tt
  if expects input.expected_revision (current_revision existing)
      then ok tt
      else err draft_revision_conflict
  let db' : Database = record db {
    drafts = upsert_draft owner_type owner_uuid input clock existing db.drafts;
    draft_artifacts =
        filter (λ row. not (artifact_owned_by owner_type owner_uuid row)) db.draft_artifacts
        ++ map (draft_artifact owner_type owner_uuid) input.artifacts;
  }
  draft ← get_collection_draft db' owner_type owner_uuid
  ok (draft, db')

-- `DELETE FROM collection_draft`, with its cascade.
abbrev pub without_draft : String → String → Database → Database
without_draft owner_type owner_uuid db = record db {
  drafts = filter (λ row. not (owned_by owner_type owner_uuid row)) db.drafts;
  draft_artifacts =
      filter (λ row. not (artifact_owned_by owner_type owner_uuid row)) db.draft_artifacts;
}

unfoldable pub delete_collection_draft : String → String → Tx (Unit {0})
delete_collection_draft owner_type owner_uuid db =
    if any (owned_by owner_type owner_uuid) db.drafts
    then ok (tt, without_draft owner_type owner_uuid db)
    else err not_found

pub record Decide : Type 0 where
  pub actor : String
  pub deciding_credential_uuid : String
  pub comment : String
  pub approve : Bool
  pub approval_ttl : ℕ

-- Maker and checker: neither the actor nor, where both are known, the credential may agree.
unfoldable pub is_self_approval : Decide → DraftRow → Bool
is_self_approval d row =
    (d.actor == row.drafted_by)
    || (not (d.deciding_credential_uuid == "")
        && sql_eq (some d.deciding_credential_uuid) row.drafted_by_credential_uuid)

unfoldable pub decided_row : Decide → (ℕ → ℕ) → ℕ → DraftRow → DraftRow
decided_row d clock revision row = record row {
  approval_status = if d.approve then "approved" else "rejected";
  approval_decided_by = some d.actor;
  approval_decided_by_credential_uuid = null_if_empty d.deciding_credential_uuid;
  approval_decided_at = some (format_time (clock 2));
  approval_decided_at_revision = some revision;
  approval_expires_at = if d.approve then some (format_time (clock 1 + d.approval_ttl)) else none;
  approval_comment = null_if_empty d.comment;
}

unfoldable pub decide_collection_draft : (ℕ → ℕ) → String → String → Decide → Tx CollectionDraft
unfolding is_self_approval decided_row
decide_collection_draft clock owner_type owner_uuid d db = do
  row ← fetch_draft_row db owner_type owner_uuid
  if lock_held row (clock 0) then err draft_locked else ok tt
  if is_self_approval d row then err self_approval else ok tt
  let db' : Database = record db {
    drafts = update_draft owner_type owner_uuid (decided_row d clock row.revision) db.drafts;
  }
  draft ← get_collection_draft db' owner_type owner_uuid
  ok (draft, db')

-- `approval.status == "approved"` at the current revision, and not expired.
unfoldable pub is_approved : DraftRow → ℕ → Bool
is_approved row now =
    (row.approval_status == "approved")
    && (elim row.approval_decided_at_revision [ none ↦ false | some r ↦ eqb r row.revision ]
        && elim row.approval_expires_at [ none ↦ false | some t ↦ ltb now (parse_time t) ])

-- The date of the collection: the lock's where a lock is required, and otherwise the clock's.
unfoldable pub would_be_date : Bool → DraftRow → ℕ → Result Error ℕ
would_be_date true row now = elim row.lock_date [
  | none ↦ err lock_date_missing
  | some t ↦ ok (parse_time t)
]
would_be_date false row now = ok (parse_time (format_time now))

unfoldable pub build_would_be_collection :
    (ℕ → ℕ) → Database → String → String → Bool → Result Error Collection
unfolding is_approved would_be_date
build_would_be_collection clock db owner_type owner_uuid require_lock = do
  row ← fetch_draft_row db owner_type owner_uuid
  if require_lock && not (lock_held row (clock 0)) then err lock_not_held else ok tt
  if is_approved row (clock 1) then ok tt else err approval_required
  artifacts ← get_artifacts db.artifacts (list_draft_artifacts db owner_type owner_uuid)
  date ← would_be_date require_lock row (clock 2)
  ok (record {
    uuid = owner_uuid;
    version = next_version owner_uuid db.collections;
    created_date = date;
    belongs_to = owner_type;
    artifacts = artifacts;
    update_reason = reason_of row.update_reason_type row.update_reason_comment;
  })

unfoldable pub locked_row : (ℕ → ℕ) → ℕ → ℕ → DraftRow → DraftRow
locked_row clock lock_ttl date row = record row {
  lock_expires_at = some (format_time (clock 3 + lock_ttl));
  lock_date = some (format_time date);
}

unfoldable pub prepare_collection_commit : (ℕ → ℕ) → String → String → ℕ → Tx Collection
unfolding build_would_be_collection locked_row
prepare_collection_commit clock owner_type owner_uuid lock_ttl db = do
  would_be ← build_would_be_collection clock db owner_type owner_uuid false
  ok (
    would_be,
    record db {
      drafts =
          update_draft owner_type owner_uuid (locked_row clock lock_ttl would_be.created_date)
            db.drafts;
    },
  )

unfoldable pub peek_collection_draft_commit :
    (ℕ → ℕ) → Database → String → String → Result Error Collection
unfolding build_would_be_collection
peek_collection_draft_commit clock db owner_type owner_uuid =
    build_would_be_collection clock db owner_type owner_uuid true

abbrev pub unlocked_row : DraftRow → DraftRow
unlocked_row row = record row { lock_expires_at = none; lock_date = none }

unfoldable pub cancel_prepare_collection_commit : (ℕ → ℕ) → String → String → Tx (Unit {0})
cancel_prepare_collection_commit clock owner_type owner_uuid db = do
  row ← fetch_draft_row db owner_type owner_uuid
  if lock_held row (clock 0) then ok tt else err lock_not_held
  ok (tt, record db { drafts = update_draft owner_type owner_uuid unlocked_row db.drafts })
