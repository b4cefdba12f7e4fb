-- ===== src/Artifacts.antt =====
-- internal/repo/artifact.go: the tables of artifact revisions and their formats
-- (internal/db/migrations/0001_init.sql, 0004_etags.sql, 0008_artifact_download.sql), the revisions that
-- are created, the files that are recorded for them, and what the download endpoints look up.
pub mod Inserts
pub mod Writes
pub mod Views
pub mod Rows
pub mod Kept
pub mod Ids
pub mod Bumped
pub mod History
mod Tests
use opentea.Prelude.{
  ℕ, String, Bool, not, ◌&&◌, Option, none, some, List, [], ◌∷◌, map, eqb, ltb, if◌then◌else◌, ◌==◌,
  filter, Result, ok, err, ◌>>=◌,
}
use opentea.SemVer.{Bytes}
use opentea.Texts.{same_fold}
use opentea.Repo.{Error, parse_time}
use opentea.Repo.Owners.{Owner, Owned, rows_of}

pub record Checksum : Type 0 where
  pub alg_type : String
  pub alg_value : String

-- `tea.ArtifactFormat`; an absent text is empty.
pub record ArtifactFormat : Type 0 where
  pub media_type : Bytes
  pub description : String
  pub url : String
  pub signature_url : String
  pub checksums : List Checksum

-- `tea.Artifact`
pub record Artifact : Type 0 where
  pub uuid : String
  pub version : ℕ
  pub name : String
  pub type : String
  pub created_date : Option ℕ
  pub distribution_ids : List String
  pub formats : List ArtifactFormat

-- Rows of `artifact`.
pub record ArtifactRow : Type 0 where
  pub uuid : String
  pub version : ℕ
  pub name : String
  pub type : String
  pub created_date : Option ℕ
  pub revision : ℕ

-- Rows of `artifact_format`, in the order of `rowid`; NULL is the empty text, as `.String` reads it.
pub record FormatRow : Type 0 where
  pub id : String
  pub artifact_uuid : String
  pub artifact_version : ℕ
  pub media_type : Bytes
  pub description : String
  pub url : String
  pub signature_url : String
  pub signature_sha256 : String

-- Rows of `artifact_distribution`.
pub record DistributionRow : Type 0 where
  pub artifact_uuid : String
  pub artifact_version : ℕ
  pub distribution_id : String

-- `release_distributions` has the keys of `release_distribution`.
pub record Tables : Type 0 where
  pub artifacts : List ArtifactRow
  pub formats : List FormatRow
  pub distributions : List DistributionRow
  pub checksums : List (Owned Checksum)
  pub release_distributions : List String

abbrev pub is_row : String → ℕ → ArtifactRow → Bool
is_row uuid version row = (row.uuid == uuid) && eqb row.version version

abbrev pub find_row : String → ℕ → List ArtifactRow → Result Error ArtifactRow
find_row uuid version [] = err Error.not_found
find_row uuid version (row ∷ rows) =
    let rest = find_row uuid version rows in if is_row uuid version row then ok row else rest

-- `SELECT MAX(version) FROM artifact WHERE uuid = ?`
abbrev larger : ℕ → Option ℕ → ℕ
larger n none = n
larger n (some m) = if ltb n m then m else n

abbrev greatest_version : String → List ArtifactRow → Option ℕ
greatest_version uuid [] = none
greatest_version uuid (row ∷ rows) =
    let rest = greatest_version uuid rows in
    if row.uuid == uuid then some (larger row.version rest) else rest

unfoldable pub latest_artifact_version : String → Tables → Option ℕ
latest_artifact_version uuid t = greatest_version uuid t.artifacts

unfoldable pub get_artifact_revision : String → ℕ → Tables → Result Error ℕ
get_artifact_revision uuid version t = do row ← find_row uuid version t.artifacts; ok row.revision

unfoldable pub get_artifact_type : String → ℕ → Tables → Result Error String
get_artifact_type uuid version t = do row ← find_row uuid version t.artifacts; ok row.type

abbrev pub of_artifact : String → ℕ → FormatRow → Bool
of_artifact uuid version row = (row.artifact_uuid == uuid) && eqb row.artifact_version version

abbrev pub format_owner : String → Owner
format_owner id = record { type = "ARTIFACT_FORMAT"; uuid = id }

abbrev pub format_of : Tables → FormatRow → ArtifactFormat
format_of t row = record {
  media_type = row.media_type;
  description = row.description;
  url = row.url;
  signature_url = row.signature_url;
  checksums = rows_of (format_owner row.id) t.checksums;
}

unfoldable pub list_artifact_formats : String → ℕ → Tables → List ArtifactFormat
list_artifact_formats uuid version t =
    map (format_of t) (filter (of_artifact uuid version) t.formats)

abbrev pub distribution_ids_of : String → ℕ → List DistributionRow → List String
distribution_ids_of uuid version [] = []
distribution_ids_of uuid version (row ∷ rows) =
    let rest = distribution_ids_of uuid version rows in
    if (row.artifact_uuid == uuid) && eqb row.artifact_version version
    then row.distribution_id ∷ rest
    else rest

unfoldable pub list_artifact_distribution_ids : String → ℕ → Tables → List String
list_artifact_distribution_ids uuid version t = distribution_ids_of uuid version t.distributions

-- `parseNullTime`: the seconds of a column as a time.
abbrev pub parse_null_time : Option ℕ → Option ℕ
parse_null_time none = none
parse_null_time (some s) = some (parse_time s)

unfoldable pub get_artifact_by_version : String → ℕ → Tables → Result Error Artifact
unfolding list_artifact_formats list_artifact_distribution_ids
get_artifact_by_version uuid version t = do
  row ← find_row uuid version t.artifacts
  ok (record {
    uuid = uuid;
    version = version;
    name = row.name;
    type = row.type;
    created_date = parse_null_time row.created_date;
    distribution_ids = list_artifact_distribution_ids uuid version t;
    formats = list_artifact_formats uuid version t;
  })

unfoldable pub get_artifact_latest : String → Tables → Result Error Artifact
unfolding latest_artifact_version get_artifact_by_version
get_artifact_latest uuid t = elim (latest_artifact_version uuid t) [
  | none ↦ err Error.not_found
  | some version ↦ get_artifact_by_version uuid version t
]

-- Where content is: exactly one of `sha256Hex` and `externalURL`.
pub data Location : Type 0 where
  stored external : String → Location

abbrev pub stored_at : List Checksum → Result Error Location
stored_at [] = err Error.not_found
stored_at (c ∷ checksums) =
    let rest = stored_at checksums in
    if c.alg_type == "SHA-256" then ok (Location.stored c.alg_value) else rest

unfoldable pub content_of : ArtifactFormat → Result Error Location
content_of f = if f.url == "" then stored_at f.checksums else ok (Location.external f.url)

unfoldable pub find_content : Bytes → List ArtifactFormat → Result Error Location
unfolding content_of
find_content media_type [] = err Error.no_matching_format
find_content media_type (f ∷ formats) =
    let rest = find_content media_type formats in
    if same_fold f.media_type media_type then content_of f else rest

unfoldable pub get_artifact_format_for_download :
    String → ℕ → Bytes → Tables → Result Error Location
unfolding get_artifact_type list_artifact_formats find_content
get_artifact_format_for_download uuid version media_type t = do
  type ← get_artifact_type uuid version t
  find_content media_type (list_artifact_formats uuid version t)

-- `getArtifactFormatSignatureTx`: the first row with the media type.
abbrev pub find_signature : Bytes → List FormatRow → Result Error FormatRow
find_signature media_type [] = err Error.no_matching_format
find_signature media_type (row ∷ rows) =
    let rest = find_signature media_type rows in
    if same_fold row.media_type media_type then ok row else rest

abbrev pub signature_of : FormatRow → Result Error Location
signature_of row =
    if not (row.signature_url == "")
    then ok (Location.external row.signature_url)
    else if not (row.signature_sha256 == "")
    then ok (Location.stored row.signature_sha256)
    else err Error.signature_not_found

unfoldable pub get_artifact_format_for_signature_download :
    String → ℕ → Bytes → Tables → Result Error Location
unfolding get_artifact_type
get_artifact_format_for_signature_download uuid version media_type t = do
  type ← get_artifact_type uuid version t
  row ← find_signature media_type (filter (of_artifact uuid version) t.formats)
  signature_of row
