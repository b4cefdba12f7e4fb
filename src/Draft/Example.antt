-- ===== src/Draft/Example.antt =====
-- One publication, step by step, for the tests of internal/repo/collectiondraft.go: alice drafts, bob
-- approves, a client prepares, and commits with its evidence.
use opentea.Prelude.{ℕ, ◌*◌, String, ◌≡◌, refl, true, none, some, [], ◌∷◌, ok}
use opentea.Repo.{second, null_if_empty}
use opentea.Repo.Database.{ArtifactRef, Artifact, Collection, DraftRow, Database}
use opentea.Collections.{
  find_artifact, get_artifacts, max_version, next_version, latest_collection_version,
  collection_refs, list_collection_artifacts, find_collection, get_collection_by_version,
  reason_allowed, insert_collection_artifact, insert_collection_artifacts, create_collection,
  create_collection_for_product_release,
}
use opentea.Evidence.{owner_exists, find_fingerprint, store_bundle, create_evidence_bundle}
use opentea.Draft.{
  CollectionDraft, find_draft, fetch_draft_row, update_draft, draft_refs, list_draft_artifacts,
  lock_held, require_release_owner_exists, require_artifacts_exist, distinct_uuids, added_uuids,
  removed_uuids, current_uuids, get_collection_draft,
}
use opentea.Draft.Operations.{
  PutInput, draft_row, upsert_draft, draft_artifact, put_collection_draft, Decide, is_self_approval,
  decided_row, decide_collection_draft, is_approved, would_be_date, build_would_be_collection,
  locked_row, prepare_collection_commit,
}
use opentea.Draft.Publish.{CommitEvidenceInput, create_for, commit_collection_draft}

abbrev pub release : String
release = "PRODUCT_RELEASE"

abbrev pub clock_at : ℕ → ℕ → ℕ
clock_at n i = n * second

abbrev pub sbom : Artifact
sbom = record { uuid = "a1"; version = 2; content = "sbom" }

abbrev pub sbom_ref : ArtifactRef
sbom_ref = record { uuid = "a1"; version = 2 }

abbrev pub before : Database
before = record {
  product_releases = "r1" ∷ [];
  component_releases = [];
  artifacts = sbom ∷ [];
  collections = [];
  collection_artifacts = [];
  collections_watermark = 0;
  drafts = [];
  draft_artifacts = [];
  used_fingerprints = [];
  evidence_bundles = [];
}

abbrev pub input : PutInput
input = record {
  actor = "alice";
  drafted_by_credential_uuid = "k1";
  artifacts = sbom_ref ∷ [];
  update_reason = none;
  ttl = 1000 * second;
  expected_revision = some 0;
}

abbrev pub drafted_row : DraftRow
drafted_row = record {
  owner_type = release;
  owner_uuid = "r1";
  revision = 1;
  drafted_by = "alice";
  drafted_by_credential_uuid = some "k1";
  update_reason_type = none;
  update_reason_comment = none;
  created_at = 100 * second;
  expires_at = 1100;
  lock_expires_at = none;
  lock_date = none;
  approval_status = "none";
  approval_decided_by = none;
  approval_decided_by_credential_uuid = none;
  approval_decided_at = none;
  approval_decided_at_revision = none;
  approval_expires_at = none;
  approval_comment = none;
}

abbrev pub drafted : Database
drafted = record before {
  drafts = drafted_row ∷ [];
  draft_artifacts = draft_artifact release "r1" sbom_ref ∷ [];
}

abbrev pub approval : Decide
approval = record {
  actor = "bob";
  deciding_credential_uuid = "k2";
  comment = "";
  approve = true;
  approval_ttl = 600 * second;
}

abbrev pub approved_row : DraftRow
approved_row = record drafted_row {
  approval_status = "approved";
  approval_decided_by = some "bob";
  approval_decided_by_credential_uuid = some "k2";
  approval_decided_at = some 200;
  approval_decided_at_revision = some 1;
  approval_expires_at = some 800;
  approval_comment = none;
}

abbrev pub approved : Database
approved = record drafted { drafts = approved_row ∷ [] }

abbrev pub prepared : Database
prepared = record drafted {
  drafts = record approved_row { lock_expires_at = some 360; lock_date = some 300 } ∷ [];
}

abbrev pub published : Collection
published = record {
  uuid = "r1";
  version = 1;
  created_date = 300 * second;
  belongs_to = release;
  artifacts = sbom ∷ [];
  update_reason = none;
}

abbrev pub evidence : CommitEvidenceInput
evidence = record {
  object_media_type = "application/json";
  object_location = "";
  object_digest_value = "d1";
  signature_format = "jws-detached";
  signature_value = "s1";
  certificate_format = "x509-pem";
  certificate_value = "c1";
  certificate_fingerprint = "f1";
  certificate_trust_domain = "";
}

pub put_ok :
    (v : CollectionDraft) × (put_collection_draft (clock_at 100) release "r1" input before
      ≡ ok (v, drafted))
unfolding put_collection_draft require_release_owner_exists require_artifacts_exist find_artifact
    upsert_draft draft_row find_draft get_collection_draft fetch_draft_row list_draft_artifacts
    draft_refs current_uuids latest_collection_version max_version added_uuids removed_uuids
    distinct_uuids null_if_empty
put_ok = (_, refl)

pub decide_ok :
    (v : CollectionDraft) × (decide_collection_draft (clock_at 200) release "r1" approval drafted
      ≡ ok (v, approved))
unfolding decide_collection_draft is_self_approval decided_row update_draft lock_held find_draft
    get_collection_draft fetch_draft_row list_draft_artifacts draft_refs current_uuids
    latest_collection_version max_version added_uuids removed_uuids distinct_uuids null_if_empty
decide_ok = (_, refl)

pub prepare_ok :
    prepare_collection_commit (clock_at 300) release "r1" (60 * second) approved
    ≡ ok (published, prepared)
unfolding prepare_collection_commit build_would_be_collection locked_row update_draft is_approved
    would_be_date find_draft fetch_draft_row list_draft_artifacts draft_refs get_artifacts
    find_artifact next_version max_version lock_held
prepare_ok = refl

pub commit_ok :
    (after : Database) × (commit_collection_draft (clock_at 330) "b1" release "r1" evidence prepared
      ≡ ok (published, after))
unfolding commit_collection_draft create_for create_collection_for_product_release create_collection
    insert_collection_artifacts insert_collection_artifact get_collection_by_version find_collection
    list_collection_artifacts collection_refs reason_allowed create_evidence_bundle owner_exists
    find_fingerprint store_bundle build_would_be_collection is_approved would_be_date find_draft
    fetch_draft_row list_draft_artifacts draft_refs get_artifacts find_artifact next_version
    max_version lock_held null_if_empty
commit_ok = (_, refl)
