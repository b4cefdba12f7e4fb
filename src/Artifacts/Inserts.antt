-- ===== src/Artifacts/Inserts.antt =====
-- internal/repo/artifact.go, checksum.go: the inserts of an artifact revision, with the keys, references
-- and CHECKs that they may break.
use opentea.Prelude.{
  ℕ, suc, String, Bool, not, ◌&&◌, ◌||◌, Option, none, some, List, [], ◌∷◌, ◌++◌, any, map, eqb,
  if◌then◌else◌, ◌==◌, Result, ok, err, ◌>>=◌,
}
use opentea.SemVer.{Bytes}
use opentea.Repo.{Error, format_time}
use opentea.Repo.Identifiers.{one_of}
use opentea.Repo.Owners.{Owner}
use opentea.Artifacts.{
  Checksum, ArtifactRow, FormatRow, DistributionRow, Tables, is_row, format_owner,
}

-- `ArtifactFormatInput` and `ImportArtifactFormatInput`: a created format has no locations or checksums.
pub record FormatInput : Type 0 where
  pub media_type : Bytes
  pub description : String
  pub url : String
  pub signature_url : String
  pub checksums : List Checksum

-- `ArtifactInput`, and `ImportArtifactInput` without its identity.
pub record ArtifactInput : Type 0 where
  pub name : String
  pub type : String
  pub created_date : Option ℕ
  pub distribution_ids : List String
  pub formats : List FormatInput

-- The CHECK on `artifact.type`.
abbrev pub artifact_types : List String
artifact_types =
    "ATTESTATION" ∷ "BOM" ∷ "BUILD_META" ∷ "CERTIFICATION" ∷ "FORMULATION" ∷ "LICENSE"
    ∷ "RELEASE_NOTES" ∷ "SECURITY_TXT" ∷ "THREAT_MODEL" ∷ "VULNERABILITIES" ∷ "OTHER" ∷ []

-- The CHECK on `checksum.alg_type`.
abbrev pub algorithm_types : List String
algorithm_types =
    "MD5" ∷ "SHA-1" ∷ "SHA-256" ∷ "SHA-384" ∷ "SHA-512" ∷ "SHA3-256" ∷ "SHA3-384" ∷ "SHA3-512"
    ∷ "BLAKE2b-256" ∷ "BLAKE2b-384" ∷ "BLAKE2b-512" ∷ "BLAKE3" ∷ []

abbrev format_time_ptr : Option ℕ → Option ℕ
format_time_ptr none = none
format_time_ptr (some t) = some (format_time t)

abbrev pub artifact_row : String → ℕ → ArtifactInput → ArtifactRow
artifact_row uuid version input = record {
  uuid = uuid;
  version = version;
  name = input.name;
  type = input.type;
  created_date = format_time_ptr input.created_date;
  revision = 1;
}

unfoldable pub insert_artifact_row : ArtifactRow → Tables → Result Error Tables
insert_artifact_row row t =
    if any (is_row row.uuid row.version) t.artifacts || not (one_of artifact_types row.type)
    then err Error.constraint_violation
    else ok (record t { artifacts = t.artifacts ++ row ∷ [] })

abbrev pub same_distribution : DistributionRow → DistributionRow → Bool
same_distribution a b =
    (a.artifact_uuid == b.artifact_uuid)
    && (eqb a.artifact_version b.artifact_version && (a.distribution_id == b.distribution_id))

unfoldable pub insert_distribution : DistributionRow → Tables → Result Error Tables
insert_distribution row t =
    if any (same_distribution row) t.distributions
      || not (one_of t.release_distributions row.distribution_id)
    then err Error.constraint_violation
    else ok (record t { distributions = t.distributions ++ row ∷ [] })

unfoldable pub insert_distributions : String → ℕ → List String → Tables → Result Error Tables
unfolding insert_distribution
insert_distributions uuid version [] t = ok t
insert_distributions uuid version (id ∷ ids) t = do
  t' ←
      insert_distribution
        (record { artifact_uuid = uuid; artifact_version = version; distribution_id = id }) t
  insert_distributions uuid version ids t'

unfoldable pub insert_checksum : Owner → Checksum → Tables → Result Error Tables
insert_checksum owner c t =
    if not (one_of algorithm_types c.alg_type)
    then err Error.constraint_violation
    else ok (record t { checksums = t.checksums ++ record { owner = owner; row = c } ∷ [] })

unfoldable pub insert_checksums : Owner → List Checksum → Tables → Result Error Tables
unfolding insert_checksum
insert_checksums owner [] t = ok t
insert_checksums owner (c ∷ checksums) t = do
  t' ← insert_checksum owner c t
  insert_checksums owner checksums t'

abbrev pub format_row : String → String → ℕ → FormatInput → FormatRow
format_row id uuid version f = record {
  id = id;
  artifact_uuid = uuid;
  artifact_version = version;
  media_type = f.media_type;
  description = f.description;
  url = f.url;
  signature_url = f.signature_url;
  signature_sha256 = "";
}

abbrev pub has_format_id : String → FormatRow → Bool
has_format_id id row = row.id == id

unfoldable pub insert_format_row : FormatRow → Tables → Result Error Tables
insert_format_row row t =
    if any (has_format_id row.id) t.formats
    then err Error.constraint_violation
    else ok (record t { formats = t.formats ++ row ∷ [] })

-- `new_id i` is the i-th `idgen.New()` of the loop.
unfoldable pub insert_formats :
    (ℕ → String) → ℕ → String → ℕ → List FormatInput → Tables → Result Error Tables
unfolding insert_format_row insert_checksums
insert_formats new_id i uuid version [] t = ok t
insert_formats new_id i uuid version (f ∷ formats) t = do
  t' ← insert_format_row (format_row (new_id i) uuid version f) t
  t'' ← insert_checksums (format_owner (new_id i)) f.checksums t'
  insert_formats new_id (suc i) uuid version formats t''

-- `insertArtifactTx`, and the inserts of `ImportArtifact`.
unfoldable pub insert_artifact :
    (ℕ → String) → String → ℕ → ArtifactInput → Tables → Result Error Tables
unfolding insert_artifact_row insert_distributions insert_formats
insert_artifact new_id uuid version input t = do
  t' ← insert_artifact_row (artifact_row uuid version input) t
  t'' ← insert_distributions uuid version input.distribution_ids t'
  insert_formats new_id 0 uuid version input.formats t''

-- What `CreateArtifact` and `CreateArtifactVersion` take: no locations and no checksums.
abbrev created_format : FormatInput → FormatInput
created_format f = record f { url = ""; signature_url = ""; checksums = [] }

abbrev pub without_files : ArtifactInput → ArtifactInput
without_files input = record input { formats = map created_format input.formats }
