-- ===== src/Download/Outcome.antt =====
-- What a caller of `downloadArtifactContent` (internal/api/artifactdownload.go) gets, and what decides it.
use opentea.Prelude.{
  ℕ, ◌≡◌, refl, String, Bool, true, false, List, [], ◌∷◌, Bool-cases, Option-cases, inl, inr, ◌⊎◌,
  Result, ok, err, ◌>>=◌, ap, ◌∙◌, Result-cases, ◌==◌,
}
use opentea.SemVer.{Bytes}
use opentea.Repo.{Error}
use opentea.Authz.{decide, Decision, Resource}
use opentea.Artifacts.{
  Tables, ArtifactRow, ArtifactFormat, Checksum, Location, find_row, is_row, stored_at, content_of,
  list_artifact_formats, get_artifact_type, get_artifact_by_version, get_artifact_revision,
  get_artifact_format_for_download,
}
use opentea.Api.{Request, Failure, authorize, write_authz_denial, Conditional, conditional}
use opentea.Download.{Selection, select_format_media_type}
use opentea.Download.Quality.{IsOrdered}
use opentea.Download.Resolved.{select_format_media_type-IsResolved}
use opentea.Download.Handlers.{
  Server, headers_of, content_parts, cap_artifact_download, artifact_resource, respond, answered,
  found_failure, answer_conditional, stream_blob, serve_content, authorized_content,
  download_artifact_content,
}
use opentea.Download.Answers.{Streamed, Delivered, Served, Downloaded}

find_row-cases :
    (uuid : String) (version : ℕ) (rows : List ArtifactRow)
    → (find_row uuid version rows ≡ err Error.not_found)
      ⊎ ((row : ArtifactRow) × (find_row uuid version rows ≡ ok row))
find_row-cases uuid version [] = inl refl
find_row-cases uuid version (row ∷ rows) = elim (Bool-cases (is_row uuid version row)) [
  | inl e ↦ inr (row, rw e refl)
  | inr e ↦ rw e (find_row-cases uuid version rows)
]

stored_at-cases :
    (checksums : List Checksum)
    → (stored_at checksums ≡ err Error.not_found)
      ⊎ ((sha256 : String) × (stored_at checksums ≡ ok (Location.stored sha256)))
stored_at-cases [] = inl refl
stored_at-cases (c ∷ checksums) = elim (Bool-cases (c.alg_type == "SHA-256")) [
  | inl e ↦ inr (c.alg_value, rw e refl)
  | inr e ↦ rw e (stored_at-cases checksums)
]

module _ {E Q : Type 0} (server : Server E Q) (t : Tables) (r : Request) (uuid : String)
    (version : ℕ) (base : Bytes) where
  answer_conditional-Streamed :
      (vary : Bool) (m : Bytes) (revision : ℕ) (sha256 : String) (c : Conditional)
      → conditional server.watermark r base (content_parts uuid version m revision) ≡ c
      → Streamed server t r uuid version base vary m revision sha256
          (answer_conditional server t r (headers_of vary uuid version m) sha256 c)
  unfolding answer_conditional stream_blob
  answer_conditional-Streamed vary m revision sha256 Conditional.failed e = Streamed.suffix_failed e
  answer_conditional-Streamed vary m revision sha256 (Conditional.not_modified v) e =
      Streamed.unmodified v e
  answer_conditional-Streamed vary m revision sha256 (Conditional.continued v) e =
      elim (Option-cases (server.open_blob sha256)) [
        | inl o ↦ rw (stream_blob, o) (Streamed.blob_lost v e o)
        | inr (content, o) ↦ elim (Bool-cases r.is_head) [
          | inl h ↦ simp (stream_blob, o, h) (Streamed.head v e h)
          | inr h ↦ simp (stream_blob, o, h) (Streamed.body v content e h o)
        ]
      ]

  authorize-undecided :
      (resource : Resource) (e : E)
      → decide server.store r.principal cap_artifact_download resource ≡ err e
      → authorize server.store r cap_artifact_download resource ≡ err Failure.internal_error
  unfolding authorize
  authorize-undecided resource e h = rw (authorize, h) refl

  authorize-denied :
      (resource : Resource) (d : Decision)
      → decide server.store r.principal cap_artifact_download resource ≡ ok d
      → d.allowed ≡ false
      → authorize server.store r cap_artifact_download resource ≡ err (write_authz_denial r)
  unfolding authorize
  authorize-denied resource d h n = rw (authorize, h, n) refl

  authorize-granted :
      (resource : Resource) (d : Decision)
      → decide server.store r.principal cap_artifact_download resource ≡ ok d
      → d.allowed ≡ true
      → authorize server.store r cap_artifact_download resource ≡ ok tt
  unfolding authorize
  authorize-granted resource d h n = rw (authorize, h, n) refl

  content_of-cases :
      (f : ArtifactFormat)
      → (content_of f ≡ err Error.not_found)
        ⊎ (((url : String) × (content_of f ≡ ok (Location.external url)))
            ⊎ ((sha256 : String) × (content_of f ≡ ok (Location.stored sha256))))
  unfolding content_of
  content_of-cases f = elim (Bool-cases (f.url == "")) [
    | inr e ↦ inr (inl (f.url, rw e refl))
    | inl e ↦ elim (stored_at-cases f.checksums) [
      | inl s ↦ inl (rw (e, s) refl)
      | inr (sha256, s) ↦ inr (inr (sha256, rw (e, s) refl))
    ]
  ]

  module _ (row : ArtifactRow) (is_there : find_row uuid version t.artifacts ≡ ok row) where
    type-row : get_artifact_type uuid version t ≡ ok row.type
    unfolding get_artifact_type
    type-row = rw is_there refl

    revision-row : get_artifact_revision uuid version t ≡ ok row.revision
    unfolding get_artifact_revision
    revision-row = rw is_there refl

    serve_content-Streamed :
        (sel : Selection) (m : Bytes) (sha256 : String)
        → Streamed server t r uuid version base sel.used_accept m row.revision sha256
            (respond (serve_content server t r uuid version base sel m (Location.stored sha256)))
    unfolding serve_content get_artifact_revision
    serve_content-Streamed sel m sha256 =
        rw is_there (answer_conditional-Streamed sel.used_accept m row.revision sha256 _ refl)

    authorized_content-Served :
        (ordered : IsOrdered server.floats)
        → Served server t r uuid version base
            (list_artifact_formats uuid version t)
            row.revision
            (respond (authorized_content server t r uuid version base))
    unfolding authorized_content get_artifact_by_version get_artifact_format_for_download
        serve_content
    authorized_content-Served ordered =
        let formats = list_artifact_formats uuid version t in
        elim (Option-cases (select_format_media_type server.floats r formats).media_type) [
          | inl s ↦ rw (is_there, s) (Served.none_acceptable s)
          | inr (m, s) ↦
              let i = select_format_media_type-IsResolved server.floats ordered r formats m s in
              elim (content_of-cases i.format) [
                | inl c ↦
                    rw (is_there, s, i.looked_up, c)
                      (Served.selected m s i (Delivered.no_content c))
                | inr (inl (url, c)) ↦
                    rw (is_there, s, i.looked_up, c)
                      (Served.selected m s i (Delivered.redirected url c))
                | inr (inr (sha256, c)) ↦
                    rw (is_there, s, i.looked_up, c)
                      (Served.selected m s i (
                        Delivered.streamed sha256 c (
                          serve_content-Streamed (select_format_media_type server.floats r formats)
                            m sha256)))
              ]
        ]

    after_type :
        download_artifact_content server t r uuid version base
        ≡ respond (
            authorize server.store r cap_artifact_download (artifact_resource uuid row.type)
            >>= λ done. authorized_content server t r uuid version base)
    unfolding download_artifact_content
    after_type =
        ap
          (λ z. respond (
            answered found_failure z >>= λ type.
            authorize server.store r cap_artifact_download (artifact_resource uuid type) >>= λ done.
            authorized_content server t r uuid version base))
          type-row

    after_authorize :
        {a : Result Failure (Unit {0})}
        → authorize server.store r cap_artifact_download (artifact_resource uuid row.type) ≡ a
        → download_artifact_content server t r uuid version base
          ≡ respond (a >>= λ done. authorized_content server t r uuid version base)
    after_authorize e =
        after_type
        ∙ ap (λ z. respond (z >>= λ done. authorized_content server t r uuid version base)) e

    row-Downloaded :
        (ordered : IsOrdered server.floats)
        → Downloaded server t r uuid version base
            (download_artifact_content server t r uuid version base)
    row-Downloaded ordered =
        let resource = artifact_resource uuid row.type in
        elim (Result-cases (decide server.store r.principal cap_artifact_download resource)) [
          | inr (e, d) ↦
              rw (after_authorize (authorize-undecided resource e d))
                (Downloaded.undecided row.type e type-row d)
          | inl (d, q) ↦ elim (Bool-cases d.allowed) [
            | inr n ↦
                rw (after_authorize (authorize-denied resource d q n))
                  (Downloaded.denied row.type d type-row q n)
            | inl n ↦ rw (after_authorize (authorize-granted resource d q n)) (
                Downloaded.granted row.type d row.revision type-row revision-row q n
                  (authorized_content-Served ordered))
          ]
        ]

  unknown-Downloaded :
      find_row uuid version t.artifacts ≡ err Error.not_found
      → Downloaded server t r uuid version base
          (download_artifact_content server t r uuid version base)
  unfolding download_artifact_content get_artifact_type
  unknown-Downloaded e = rw e (Downloaded.unknown (rw e refl))

  -- A caller who is denied gets an answer made of the request alone, one who asks for no revision that
  -- there is gets 404, and one who is allowed gets 406 where no format is acceptable, and otherwise what
  -- the chosen format has: 404, its redirect, or its blob or 304 behind the ETag of the revision. It is 500
  -- where the rules cannot be read, the suffix of the ETag cannot be made or the blob is lost. `>` on
  -- numbers is ordered.
  pub download_artifact_content-Downloaded :
      (ordered : IsOrdered server.floats)
      → Downloaded server t r uuid version base
          (download_artifact_content server t r uuid version base)
  download_artifact_content-Downloaded ordered = elim (find_row-cases uuid version t.artifacts) [
    | inl e ↦ unknown-Downloaded e
    | inr (row, e) ↦ row-Downloaded row e ordered
  ]
