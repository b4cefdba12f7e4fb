-- ===== src/Repo/Database.antt =====
-- The tables of internal/db/migrations that the collection, draft and evidence operations of
-- internal/repo read and write, each as the list of its rows, and the values of pkg/tea that they
-- return. Times are nanoseconds; the columns that `formatTime` writes are seconds.
use opentea.Prelude.{ℕ, String, Option, List}

-- `repo.ArtifactRef`, and `teapublisher.ArtifactVersionRef`.
pub record ArtifactRef : Type 0 where
  pub uuid : String
  pub version : ℕ

-- `tea.Artifact`. `content` stands for the name, type, formats and distributions, which these
-- operations only copy.
pub record Artifact : Type 0 where
  pub uuid : String
  pub version : ℕ
  pub content : String

pub record UpdateReason : Type 0 where
  pub type : String
  pub comment : String

-- `tea.Collection`
pub record Collection : Type 0 where
  pub uuid : String
  pub version : ℕ
  pub created_date : ℕ
  pub belongs_to : String
  pub artifacts : List Artifact
  pub update_reason : Option UpdateReason

-- Rows of `collection`.
pub record CollectionRow : Type 0 where
  pub uuid : String
  pub version : ℕ
  pub date : ℕ
  pub belongs_to : String
  pub update_reason_type : Option String
  pub update_reason_comment : Option String

-- Rows of `collection_artifact`.
pub record CollectionArtifact : Type 0 where
  pub collection_uuid : String
  pub collection_version : ℕ
  pub artifact : ArtifactRef

-- Rows of `collection_draft`.
pub record DraftRow : Type 0 where
  pub owner_type : String
  pub owner_uuid : String
  pub revision : ℕ
  pub drafted_by : String
  pub drafted_by_credential_uuid : Option String
  pub update_reason_type : Option String
  pub update_reason_comment : Option String
  pub created_at : ℕ
  pub expires_at : ℕ
  pub lock_expires_at : Option ℕ
  pub lock_date : Option ℕ
  pub approval_status : String
  pub approval_decided_by : Option String
  pub approval_decided_by_credential_uuid : Option String
  pub approval_decided_at : Option ℕ
  pub approval_decided_at_revision : Option ℕ
  pub approval_expires_at : Option ℕ
  pub approval_comment : Option String

-- Rows of `collection_draft_artifact`.
pub record DraftArtifact : Type 0 where
  pub owner_type : String
  pub owner_uuid : String
  pub artifact : ArtifactRef

-- Rows of `used_fingerprint`.
pub record UsedFingerprint : Type 0 where
  pub fingerprint : String
  pub trust_domain : String
  pub evidence_bundle_uuid : Option String

-- Rows of `evidence_bundle`; `tea.EvidenceBundle` has the same contents.
pub record EvidenceBundle : Type 0 where
  pub uuid : String
  pub owner_type : String
  pub owner_uuid : String
  pub owner_version : ℕ
  pub object_type : String
  pub object_media_type : Option String
  pub object_location : Option String
  pub object_digest_value : String
  pub signature_format : String
  pub signature_value : String
  pub signature_digest_value : Option String
  pub certificate_format : String
  pub certificate_value : String
  pub certificate_fingerprint : String

pub record Database : Type 0 where
  pub product_releases : List String
  pub component_releases : List String
  pub artifacts : List Artifact
  pub collections : List CollectionRow
  pub collection_artifacts : List CollectionArtifact
  pub collections_watermark : ℕ
  pub drafts : List DraftRow
  pub draft_artifacts : List DraftArtifact
  pub used_fingerprints : List UsedFingerprint
  pub evidence_bundles : List EvidenceBundle
