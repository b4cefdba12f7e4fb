-- ===== src/Artifacts/Views.antt =====
-- What the reads of internal/repo/artifact.go see of one revision, and the inserts that leave it as it is.
use opentea.Prelude.{ℕ, ◌≡◌, refl, ◌∙◌, String, false, List, [], ◌∷◌, any, filter}
use opentea.SemVer.{Bytes}
use opentea.Artifacts.{
  FormatRow, Tables, find_row, of_artifact, list_artifact_formats, list_artifact_distribution_ids,
  get_artifact_by_version, get_artifact_revision, get_artifact_format_for_download,
  get_artifact_format_for_signature_download, get_artifact_type,
}
use opentea.Artifacts.Inserts.{has_format_id}

-- Two states agree on the revision.
pub record IsSameFor (uuid : String) (version : ℕ) (t t' : Tables) : Type 0 where
  pub found : find_row uuid version t'.artifacts ≡ find_row uuid version t.artifacts
  pub rows :
      filter (of_artifact uuid version) t'.formats ≡ filter (of_artifact uuid version) t.formats
  pub listed : list_artifact_formats uuid version t' ≡ list_artifact_formats uuid version t
  pub distributions :
      list_artifact_distribution_ids uuid version t' ≡ list_artifact_distribution_ids uuid version t

-- No two formats have one id.
abbrev pub IdsOnce : List FormatRow → Type 0
IdsOnce [] = Unit
IdsOnce (r ∷ rows) = (any (has_format_id r.id) rows ≡ false) × IdsOnce rows

pub IsSameFor-refl : (uuid : String) (version : ℕ) (t : Tables) → IsSameFor uuid version t t
IsSameFor-refl uuid version t = record {
  found = refl;
  rows = refl;
  listed = refl;
  distributions = refl;
}

pub IsSameFor-trans :
    (uuid : String) (version : ℕ) (a b c : Tables)
    → IsSameFor uuid version a b
    → IsSameFor uuid version b c
    → IsSameFor uuid version a c
IsSameFor-trans uuid version a b c s r = record {
  found = r.found ∙ s.found;
  rows = r.rows ∙ s.rows;
  listed = r.listed ∙ s.listed;
  distributions = r.distributions ∙ s.distributions;
}

module _ (uuid : String) (version : ℕ) (t t' : Tables) (same : IsSameFor uuid version t t') where
  pub get_artifact_by_version-same :
      get_artifact_by_version uuid version t' ≡ get_artifact_by_version uuid version t
  unfolding get_artifact_by_version
  get_artifact_by_version-same = rw (same.found, same.listed, same.distributions) refl

  pub get_artifact_revision-same :
      get_artifact_revision uuid version t' ≡ get_artifact_revision uuid version t
  unfolding get_artifact_revision
  get_artifact_revision-same = rw same.found refl

  pub download-same :
      (m : Bytes)
      → get_artifact_format_for_download uuid version m t'
        ≡ get_artifact_format_for_download uuid version m t
  unfolding get_artifact_format_for_download get_artifact_type
  download-same m = rw (same.found, same.listed) refl

  pub signature_download-same :
      (m : Bytes)
      → get_artifact_format_for_signature_download uuid version m t'
        ≡ get_artifact_format_for_signature_download uuid version m t
  unfolding get_artifact_format_for_signature_download get_artifact_type
  signature_download-same m = rw (same.found, same.rows) refl
