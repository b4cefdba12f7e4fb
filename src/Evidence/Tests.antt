-- ===== src/Evidence/Tests.antt =====
-- The properties of internal/repo/evidencebundle.go at one signature of an artifact.
use opentea.Prelude.{◌≡◌, ◌≢◌, refl, true, [], ◌∷◌, arith, eq_iff, ok, err}
use opentea.Repo.{fingerprint_used, null_if_empty}
use opentea.Repo.Database.{EvidenceBundle, Database}
use opentea.Evidence.{
  EvidenceBundleInput, owner_exists, find_fingerprint, store_bundle, create_evidence_bundle,
}
use opentea.Evidence.Fingerprints.{
  create_evidence_bundle-retry, create_evidence_bundle-fingerprint_used,
}

abbrev empty : Database
empty = record {
  product_releases = [];
  component_releases = [];
  artifacts = record { uuid = "a1"; version = 1; content = "sbom" } ∷ [];
  collections = [];
  collection_artifacts = [];
  collections_watermark = 0;
  drafts = [];
  draft_artifacts = [];
  used_fingerprints = [];
  evidence_bundles = [];
}

abbrev signed : EvidenceBundleInput
signed = record {
  owner_type = "ARTIFACT";
  owner_uuid = "a1";
  owner_version = 1;
  object_type = "artifact";
  object_media_type = "application/json";
  object_location = "";
  object_digest_value = "d1";
  signature_format = "cms-detached";
  signature_value = "s1";
  signature_digest_value = "";
  certificate_format = "x509-pem";
  certificate_value = "c1";
  certificate_fingerprint = "f1";
  certificate_trust_domain = "example.org";
}

abbrev resigned : EvidenceBundleInput
resigned = record signed { signature_value = "s2" }

signed_ok :
    (b : EvidenceBundle) × (db' : Database) × (create_evidence_bundle "b1" signed empty
      ≡ ok (b, db'))
unfolding create_evidence_bundle owner_exists find_fingerprint store_bundle null_if_empty
signed_ok = (_, _, refl)

create_evidence_bundle-retry_example :
    create_evidence_bundle "b2" signed signed_ok.1 ≡ ok (signed_ok.0, signed_ok.1)
create_evidence_bundle-retry_example =
    create_evidence_bundle-retry "b1" signed empty signed_ok.1 signed_ok.0 "b2" signed_ok.2

differ : resigned.signature_value ≢ signed.signature_value
differ = ground (arith, eq_iff "s2" "s1")

owned : owner_exists signed_ok.1 "ARTIFACT" "a1" 1 ≡ ok true
unfolding signed_ok owner_exists store_bundle create_evidence_bundle
owned = refl

create_evidence_bundle-fingerprint_used_example :
    create_evidence_bundle "b2" resigned signed_ok.1 ≡ err fingerprint_used
create_evidence_bundle-fingerprint_used_example =
    create_evidence_bundle-fingerprint_used "b1" signed empty signed_ok.1 signed_ok.0 "b2" resigned
      signed_ok.2 refl differ owned
