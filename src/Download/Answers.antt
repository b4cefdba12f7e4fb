-- ===== src/Download/Answers.antt =====
-- The answers of `downloadArtifactContent` (internal/api/artifactdownload.go), each with what it says of
-- the request, the rules, the tables and the storage.
use opentea.Prelude.{ℕ, ◌≡◌, String, Bool, true, false, none, some, List, ok, err}
use opentea.SemVer.{Bytes}
use opentea.Repo.{Error}
use opentea.Authz.{decide, Decision}
use opentea.Artifacts.{
  Tables, ArtifactFormat, Location, content_of, list_artifact_formats, get_artifact_type,
  get_artifact_revision,
}
use opentea.Api.{Request, Failure, write_authz_denial, Validators, Conditional, conditional}
use opentea.Download.{select_format_media_type}
use opentea.Download.Resolved.{IsResolved}
use opentea.Download.Handlers.{
  Server, Response, headers_of, content_parts, cap_artifact_download, artifact_resource,
}

module _ {E Q : Type 0} (server : Server E Q) (t : Tables) (r : Request) (uuid : String)
    (version : ℕ) (base : Bytes) where
  -- The blob `sha256` of a format `m`, as the conditional request and the storage have it.
  pub data Streamed (vary : Bool) (m : Bytes) (revision : ℕ) (sha256 : String)
      : Response → Type 0 where
    suffix_failed :
        conditional server.watermark r base (content_parts uuid version m revision)
          ≡ Conditional.failed
        → Streamed vary m revision sha256 (Response.failure Failure.internal_error)
    unmodified :
        (v : Validators)
        → conditional server.watermark r base (content_parts uuid version m revision)
          ≡ Conditional.not_modified v
        → Streamed vary m revision sha256 (Response.not_modified (headers_of vary uuid version m v))
    blob_lost :
        (v : Validators)
        → conditional server.watermark r base (content_parts uuid version m revision)
          ≡ Conditional.continued v
        → server.open_blob sha256 ≡ none
        → Streamed vary m revision sha256 (Response.failure Failure.internal_error)
    head :
        (v : Validators)
        → conditional server.watermark r base (content_parts uuid version m revision)
          ≡ Conditional.continued v
        → r.is_head ≡ true
        → Streamed vary m revision sha256 (Response.head_only (headers_of vary uuid version m v))
    body :
        (v : Validators) (content : String)
        → conditional server.watermark r base (content_parts uuid version m revision)
          ≡ Conditional.continued v
        → r.is_head ≡ false
        → server.open_blob sha256 ≡ some content
        → Streamed vary m revision sha256 (Response.blob (headers_of vary uuid version m v) content)

  -- What the content of the format `f` decides.
  pub data Delivered (f : ArtifactFormat) (vary : Bool) (m : Bytes) (revision : ℕ)
      : Response → Type 0 where
    no_content :
        content_of f ≡ err Error.not_found
        → Delivered f vary m revision (Response.failure Failure.not_found)
    redirected :
        (url : String)
        → content_of f ≡ ok (Location.external url)
        → Delivered f vary m revision (Response.redirect url)
    streamed :
        (sha256 : String) {out : Response}
        → content_of f ≡ ok (Location.stored sha256)
        → Streamed vary m revision sha256 out
        → Delivered f vary m revision out

  -- What an authorized caller gets of these formats.
  pub data Served (formats : List ArtifactFormat) (revision : ℕ) : Response → Type 0 where
    none_acceptable :
        (select_format_media_type server.floats r formats).media_type ≡ none
        → Served formats revision (Response.failure Failure.not_acceptable)
    selected :
        (m : Bytes) {out : Response}
        → (select_format_media_type server.floats r formats).media_type ≡ some m
        → (i : IsResolved formats m)
        → Delivered i.format
            (select_format_media_type server.floats r formats).used_accept
            m
            revision
            out
        → Served formats revision out

  -- What anybody gets.
  pub data Downloaded : Response → Type 0 where
    unknown :
        get_artifact_type uuid version t ≡ err Error.not_found
        → Downloaded (Response.failure Failure.not_found)
    undecided :
        (type : String) (e : E)
        → get_artifact_type uuid version t ≡ ok type
        → decide server.store r.principal cap_artifact_download (artifact_resource uuid type)
          ≡ err e
        → Downloaded (Response.failure Failure.internal_error)
    denied :
        (type : String) (d : Decision)
        → get_artifact_type uuid version t ≡ ok type
        → decide server.store r.principal cap_artifact_download (artifact_resource uuid type) ≡ ok d
        → d.allowed ≡ false
        → Downloaded (Response.failure (write_authz_denial r))
    granted :
        (type : String) (d : Decision) (revision : ℕ) {out : Response}
        → get_artifact_type uuid version t ≡ ok type
        → get_artifact_revision uuid version t ≡ ok revision
        → decide server.store r.principal cap_artifact_download (artifact_resource uuid type) ≡ ok d
        → d.allowed ≡ true
        → Served (list_artifact_formats uuid version t) revision out
        → Downloaded out
