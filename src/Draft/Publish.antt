-- ===== src/Draft/Publish.antt =====
-- internal/repo/collectiondraft.go, `CommitCollectionDraft`: the draft becomes a collection with its
-- evidence, in one transaction.
use opentea.Prelude.{
  ℕ, String, true, some, map, ◌==◌, eqb, if◌then◌else◌, Result, ok, err, ◌>>=◌, ◌>>◌,
}
use opentea.Repo.{Error, unknown_owner_type, commit_race, commit_date_mismatch}
use opentea.Repo.Database.{Collection, Database}
use opentea.Collections.{
  CollectionInput, ref_of, create_collection_for_product_release,
  create_collection_for_component_release,
}
use opentea.Evidence.{EvidenceBundleInput, create_evidence_bundle}
use opentea.Draft.{Tx}
use opentea.Draft.Operations.{build_would_be_collection, without_draft}

pub record CommitEvidenceInput : Type 0 where
  pub object_media_type : String
  pub object_location : String
  pub object_digest_value : String
  pub signature_format : String
  pub signature_value : String
  pub certificate_format : String
  pub certificate_value : String
  pub certificate_fingerprint : String
  pub certificate_trust_domain : String

-- What the draft gives `createCollection`: the refs of its artifacts, and the date that was signed.
abbrev pub input_of : Collection → CollectionInput
input_of would_be = record {
  update_reason = would_be.update_reason;
  artifacts = map ref_of would_be.artifacts;
  created_date = some would_be.created_date;
}

unfoldable pub create_for :
    ℕ → String → String → CollectionInput → Database → Result Error (Collection × Database)
create_for now owner_type owner_uuid input db =
    if owner_type == "PRODUCT_RELEASE"
    then create_collection_for_product_release db now owner_uuid input
    else if owner_type == "COMPONENT_RELEASE"
    then create_collection_for_component_release db now owner_uuid input
    else err unknown_owner_type

abbrev pub evidence_of : String → ℕ → CommitEvidenceInput → EvidenceBundleInput
evidence_of owner_uuid version e = record {
  owner_type = "COLLECTION";
  owner_uuid = owner_uuid;
  owner_version = version;
  object_type = "tea-collection";
  object_media_type = e.object_media_type;
  object_location = e.object_location;
  object_digest_value = e.object_digest_value;
  signature_format = e.signature_format;
  signature_value = e.signature_value;
  signature_digest_value = "";
  certificate_format = e.certificate_format;
  certificate_value = e.certificate_value;
  certificate_fingerprint = e.certificate_fingerprint;
  certificate_trust_domain = e.certificate_trust_domain;
}

unfoldable pub commit_collection_draft :
    (ℕ → ℕ) → String → String → String → CommitEvidenceInput → Tx Collection
unfolding create_for
commit_collection_draft clock fresh owner_type owner_uuid evidence db = do
  would_be ← build_would_be_collection clock db owner_type owner_uuid true
  (collection, created) ← create_for (clock 3) owner_type owner_uuid (input_of would_be) db
  if eqb collection.version would_be.version then ok tt else err commit_race
  if eqb collection.created_date would_be.created_date then ok tt else err commit_date_mismatch
  (bundle, stored) ←
      create_evidence_bundle fresh (evidence_of owner_uuid collection.version evidence) created
  ok (collection, without_draft owner_type owner_uuid stored)
