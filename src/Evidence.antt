-- ===== src/Evidence.antt =====
-- internal/repo/evidencebundle.go: registering a certificate fingerprint and storing the evidence
-- bundle of an artifact or a collection. `fresh` is the uuid that `idgen.New()` returns.
pub mod Fingerprints
mod Tests
use opentea.Prelude.{
  ℕ, String, Bool, true, false, not, ◌&&◌, ◌||◌, Option, none, some, List, [], ◌∷◌, ◌++◌, map, ◌==◌,
  eqb, if◌then◌else◌, any, filter, Result, ok, err, ◌>>=◌, ◌>>◌,
}
use opentea.Repo.{
  Error, not_found, fingerprint_used, unknown_owner_type, constraint_violation, null_if_empty,
}
use opentea.Repo.Database.{Artifact, CollectionRow, UsedFingerprint, EvidenceBundle, Database}
use opentea.Collections.{contains}

pub record EvidenceBundleInput : Type 0 where
  pub owner_type : String
  pub owner_uuid : String
  pub owner_version : ℕ
  pub object_type : String
  pub object_media_type : String
  pub object_location : String
  pub object_digest_value : String
  pub signature_format : String
  pub signature_value : String
  pub signature_digest_value : String
  pub certificate_format : String
  pub certificate_value : String
  pub certificate_fingerprint : String
  pub certificate_trust_domain : String

abbrev pub is_artifact : String → ℕ → Artifact → Bool
is_artifact uuid version a = (a.uuid == uuid) && eqb a.version version

abbrev pub is_collection : String → ℕ → CollectionRow → Bool
is_collection uuid version c = (c.uuid == uuid) && eqb c.version version

unfoldable pub owner_exists : Database → String → String → ℕ → Result Error Bool
owner_exists db owner_type uuid version =
    if owner_type == "ARTIFACT"
    then ok (any (is_artifact uuid version) db.artifacts)
    else if owner_type == "COLLECTION"
    then ok (any (is_collection uuid version) db.collections)
    else err unknown_owner_type

-- The bundle registered for a fingerprint: the outer `none` is an unknown fingerprint.
unfoldable pub find_fingerprint : String → List UsedFingerprint → Option (Option String)
find_fingerprint f [] = none
find_fingerprint f (row ∷ rows) =
    if row.fingerprint == f then some row.evidence_bundle_uuid else find_fingerprint f rows

unfoldable pub find_bundle : String → List EvidenceBundle → Option EvidenceBundle
find_bundle uuid [] = none
find_bundle uuid (b ∷ bs) = if b.uuid == uuid then some b else find_bundle uuid bs

abbrev pub is_identical : EvidenceBundleInput → EvidenceBundle → Bool
is_identical input b =
    (b.owner_type == input.owner_type)
    && ((b.owner_uuid == input.owner_uuid)
        && (eqb b.owner_version input.owner_version
            && ((b.object_digest_value == input.object_digest_value)
                && ((b.signature_format == input.signature_format)
                    && ((b.signature_value == input.signature_value)
                        && (b.certificate_value == input.certificate_value))))))

-- The bundle that an earlier call with the same content stored, if that is what the fingerprint was
-- used for: a lost response that is sent again.
unfoldable pub identical_bundle :
    Database → EvidenceBundleInput → Option String → Option EvidenceBundle
unfolding find_bundle
identical_bundle db input none = none
identical_bundle db input (some uuid) = elim (find_bundle uuid db.evidence_bundles) [
  | none ↦ none
  | some b ↦ if is_identical input b then some b else none
]

abbrev pub signature_formats : List String
signature_formats = "cms-detached" ∷ "dsse-envelope" ∷ "jws-detached" ∷ "cose-sign1" ∷ []

abbrev pub certificate_formats : List String
certificate_formats = "x509-pem" ∷ "x509-der" ∷ []

abbrev pub bundle_of : String → EvidenceBundleInput → EvidenceBundle
bundle_of fresh input = record {
  uuid = fresh;
  owner_type = input.owner_type;
  owner_uuid = input.owner_uuid;
  owner_version = input.owner_version;
  object_type = input.object_type;
  object_media_type = null_if_empty input.object_media_type;
  object_location = null_if_empty input.object_location;
  object_digest_value = input.object_digest_value;
  signature_format = input.signature_format;
  signature_value = input.signature_value;
  signature_digest_value = null_if_empty input.signature_digest_value;
  certificate_format = input.certificate_format;
  certificate_value = input.certificate_value;
  certificate_fingerprint = input.certificate_fingerprint;
}

-- The two inserts of a fingerprint that is not yet used; the table's CHECKs are on the formats, and
-- its primary key is the fresh uuid.
unfoldable pub store_bundle :
    String → EvidenceBundleInput → Database → Result Error (EvidenceBundle × Database)
store_bundle fresh input db =
    if contains signature_formats input.signature_format
      && (contains certificate_formats input.certificate_format
          && not (any (λ b. b.uuid == fresh) db.evidence_bundles))
    then ok (
      bundle_of fresh input,
      record db {
        used_fingerprints =
            db.used_fingerprints
            ++ record {
              fingerprint = input.certificate_fingerprint;
              trust_domain = input.certificate_trust_domain;
              evidence_bundle_uuid = some fresh;
            }
              ∷ [];
        evidence_bundles = db.evidence_bundles ++ bundle_of fresh input ∷ [];
      },
    )
    else err constraint_violation

-- `CreateEvidenceBundle`
unfoldable pub create_evidence_bundle :
    String → EvidenceBundleInput → Database → Result Error (EvidenceBundle × Database)
unfolding owner_exists find_fingerprint identical_bundle store_bundle
create_evidence_bundle fresh input db = do
  exists ← owner_exists db input.owner_type input.owner_uuid input.owner_version
  if exists then ok tt else err not_found
  elim (find_fingerprint input.certificate_fingerprint db.used_fingerprints) [
    | none ↦ store_bundle fresh input db
    | some registered ↦ elim (identical_bundle db input registered) [
      | some existing ↦ ok (existing, db)
      | none ↦ err fingerprint_used
    ]
  ]
