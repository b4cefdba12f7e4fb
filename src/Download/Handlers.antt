-- ===== src/Download/Handlers.antt =====
-- `downloadArtifactContent`, `downloadArtifactSignature`, and the endpoints of the latest revision
-- (internal/api/artifactdownload.go). A request reads one state of the tables.
use opentea.Prelude.{
  ℕ, String, Bool, false, Option, none, some, List, [], ◌∷◌, if◌then◌else◌, Result, ok, err, ◌>>=◌,
}
use opentea.SemVer.{Bytes, bytes}
use opentea.Repo.{Error}
use opentea.Authz.{Store, Resource, Capability}
use opentea.Artifacts.{
  Tables, Location, latest_artifact_version, get_artifact_type, get_artifact_by_version,
  get_artifact_revision, get_artifact_format_for_download,
  get_artifact_format_for_signature_download,
}
use opentea.Api.{
  Request, Failure, authorize, Validators, Conditional, conditional, cache_control_latest,
  cache_control_revalidate,
}
use opentea.Api.Numbers.{itoa}
use opentea.Download.{
  Floats, Selection, select_format_media_type, select_signature_format_media_type,
}

-- The headers of a response that this server's own storage backs. `described` is what Content-Location
-- names: the revision and the media type.
pub record Headers : Type 0 where
  pub vary_accept : Bool
  pub uuid : String
  pub version : ℕ
  pub media_type : Bytes
  pub validators : Validators

-- `blob` holds the content; the answer to a HEAD request ends with its headers.
pub data Response : Type 0 where
  failure : Failure → Response
  redirect : String → Response
  not_modified : Headers → Response
  head_only : Headers → Response
  blob : Headers → String → Response

-- What the server has beside its tables: the rules, the entitlement watermarks, the storage of blobs by
-- their SHA-256, and the floating-point numbers.
pub record Server (E Q : Type 0) : Type 0 where
  pub store : Store E
  pub watermark : String → Result E ℕ
  pub open_blob : String → Option String
  pub floats : Floats Q

abbrev pub cap_artifact_download : Capability
cap_artifact_download = "artifact.download"

abbrev pub artifact_resource : String → String → Resource
artifact_resource uuid type = record {
  product_uuid = "";
  product_release_uuid = "";
  component_uuid = "";
  component_release_uuid = "";
  collection_uuid = "";
  artifact_uuid = uuid;
  artifact_type = type;
}

abbrev pub headers_of : Bool → String → ℕ → Bytes → Validators → Headers
headers_of vary uuid version media_type v = record {
  vary_accept = vary;
  uuid = uuid;
  version = version;
  media_type = media_type;
  validators = v;
}

-- The parts of the ETag.
abbrev pub content_parts : String → ℕ → Bytes → ℕ → List Bytes
content_parts uuid version media_type revision =
    bytes "artifact-download" ∷ bytes uuid ∷ itoa version ∷ media_type ∷ itoa revision ∷ []

-- `errors.Is(err, repo.ErrNotFound)`, else 500.
abbrev pub found_failure : Error → Failure
found_failure Error.not_found = Failure.not_found
found_failure _ = Failure.internal_error

abbrev content_failure : Error → Failure
content_failure Error.not_found = Failure.not_found
content_failure Error.no_matching_format = Failure.not_acceptable
content_failure _ = Failure.internal_error

abbrev signature_failure : Error → Failure
signature_failure Error.not_found = Failure.not_found
signature_failure Error.no_matching_format = Failure.not_found
signature_failure Error.signature_not_found = Failure.signature_not_found
signature_failure _ = Failure.internal_error

abbrev pub answered : {A : Type 0} → (Error → Failure) → Result Error A → Result Failure A
answered f (ok a) = ok a
answered f (err e) = err (f e)

abbrev pub acceptable : Option Bytes → Result Failure Bytes
acceptable none = err Failure.not_acceptable
acceptable (some m) = ok m

abbrev pub respond : Result Failure Response → Response
respond (ok r) = r
respond (err f) = Response.failure f

module _ {E Q : Type 0} (server : Server E Q) (t : Tables) (r : Request) where
  -- `streamBlob`. A write that breaks off is not modelled.
  unfoldable pub stream_blob : Headers → String → Response
  stream_blob headers sha256 = elim (server.open_blob sha256) [
    | none ↦ Response.failure Failure.internal_error
    | some content ↦ if r.is_head then Response.head_only headers else Response.blob headers content
  ]

  unfoldable pub answer_conditional : (Validators → Headers) → String → Conditional → Response
  unfolding stream_blob
  answer_conditional headers sha256 Conditional.failed = Response.failure Failure.internal_error
  answer_conditional headers sha256 (Conditional.not_modified v) = Response.not_modified (headers v)
  answer_conditional headers sha256 (Conditional.continued v) = stream_blob (headers v) sha256

  -- From the location on: the redirect, or the conditional response from the storage.
  unfoldable pub serve_content :
      String → ℕ → Bytes → Selection → Bytes → Location → Result Failure Response
  unfolding get_artifact_revision conditional stream_blob
  serve_content uuid version base sel media_type (Location.external url) =
      ok (Response.redirect url)
  serve_content uuid version base sel media_type (Location.stored sha256) = do
    revision ← answered found_failure (get_artifact_revision uuid version t)
    ok (
        answer_conditional (headers_of sel.used_accept uuid version media_type) sha256
          (conditional server.watermark r base (content_parts uuid version media_type revision)))

  -- The rest of `downloadArtifactContent` once the caller is authorized.
  unfoldable pub authorized_content : String → ℕ → Bytes → Result Failure Response
  unfolding get_artifact_by_version select_format_media_type get_artifact_format_for_download
      serve_content
  authorized_content uuid version base = do
    a ← answered found_failure (get_artifact_by_version uuid version t)
    let sel = select_format_media_type server.floats r a.formats
    media_type ← acceptable sel.media_type
    location ← answered content_failure (get_artifact_format_for_download uuid version media_type t)
    serve_content uuid version base sel media_type location

  unfoldable pub download_artifact_content : String → ℕ → Bytes → Response
  unfolding get_artifact_type authorize authorized_content
  download_artifact_content uuid version base = respond (do
    type ← answered found_failure (get_artifact_type uuid version t)
    done ← authorize server.store r cap_artifact_download (artifact_resource uuid type)
    authorized_content uuid version base)

  unfoldable pub serve_signature : String → ℕ → Bytes → Bytes → Location → Result Failure Response
  unfolding get_artifact_revision conditional stream_blob
  serve_signature uuid version base media_type (Location.external url) = ok (Response.redirect url)
  serve_signature uuid version base media_type (Location.stored sha256) = do
    revision ← answered found_failure (get_artifact_revision uuid version t)
    ok (
        answer_conditional (headers_of false uuid version media_type) sha256 (
          conditional server.watermark r base (
            bytes "artifact-signature-download"
            ∷ bytes uuid
            ∷ itoa version
            ∷ media_type
            ∷ itoa revision
            ∷ [])))

  unfoldable pub download_artifact_signature : String → ℕ → Bytes → Response
  unfolding get_artifact_type authorize get_artifact_by_version select_signature_format_media_type
      get_artifact_format_for_signature_download serve_signature
  download_artifact_signature uuid version base = respond (do
    type ← answered found_failure (get_artifact_type uuid version t)
    done ← authorize server.store r cap_artifact_download (artifact_resource uuid type)
    a ← answered found_failure (get_artifact_by_version uuid version t)
    media_type ← acceptable (select_signature_format_media_type r a.formats)
    location ←
        answered signature_failure
          (get_artifact_format_for_signature_download uuid version media_type t)
    serve_signature uuid version base media_type location)

  unfoldable pub download_latest_artifact : String → Response
  unfolding latest_artifact_version download_artifact_content
  download_latest_artifact uuid = elim (latest_artifact_version uuid t) [
    | none ↦ Response.failure Failure.not_found
    | some version ↦ download_artifact_content uuid version cache_control_latest
  ]

  unfoldable pub download_latest_artifact_signature : String → Response
  unfolding latest_artifact_version download_artifact_signature
  download_latest_artifact_signature uuid = elim (latest_artifact_version uuid t) [
    | none ↦ Response.failure Failure.not_found
    | some version ↦ download_artifact_signature uuid version cache_control_latest
  ]

  unfoldable pub download_artifact_by_version : String → ℕ → Response
  unfolding download_artifact_content
  download_artifact_by_version uuid version =
      download_artifact_content uuid version cache_control_revalidate

  unfoldable pub download_artifact_signature_by_version : String → ℕ → Response
  unfolding download_artifact_signature
  download_artifact_signature_by_version uuid version =
      download_artifact_signature uuid version cache_control_revalidate
