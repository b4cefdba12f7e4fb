-- ===== src/Artifacts/History.antt =====
-- Histories of the writes of internal/repo/artifact.go, and the revision from which the ETags of an
-- artifact and of its downloads are made.
use opentea.Prelude.{ℕ, ◌≡◌, String, Bool, Option, ok}
use opentea.SemVer.{Bytes}
use opentea.Artifacts.{
  Artifact, Tables, get_artifact_by_version, get_artifact_format_for_download,
  get_artifact_format_for_signature_download,
}
use opentea.Artifacts.Inserts.{ArtifactInput}
use opentea.Artifacts.Writes.{
  create_artifact, create_artifact_version, import_artifact, set_artifact_format_file,
  set_artifact_format_signature_file,
}

-- One call that succeeds.
pub data Write (t t' : Tables) : Type 0 where
  create :
      (new_id : ℕ → String) (u : String) (input : ArtifactInput) (a : Artifact)
      → create_artifact new_id u input t ≡ ok (a, t')
      → Write t t'
  create_version :
      (new_id : ℕ → String) (u : String) (previous : Option ℕ) (input : ArtifactInput)
      (a : Artifact)
      → create_artifact_version new_id u previous input t ≡ ok (a, t')
      → Write t t'
  import_one :
      (new_id : ℕ → String) (u : String) (v : ℕ) (input : ArtifactInput) (created : Bool)
      → import_artifact new_id u v input t ≡ ok (created, t')
      → Write t t'
  set_file :
      (u : String) (v i : ℕ) (sha256 : String) (a : Artifact)
      → set_artifact_format_file u v i sha256 t ≡ ok (a, t')
      → Write t t'
  set_signature :
      (u : String) (v i : ℕ) (sha256 : String) (a : Artifact)
      → set_artifact_format_signature_file u v i sha256 t ≡ ok (a, t')
      → Write t t'

pub data Writes (t : Tables) : Tables → Type 0 where
  none_yet : Writes t t
  then_write : {t' t'' : Tables} → Writes t t' → Write t' t'' → Writes t t''

module _ (uuid : String) (version : ℕ) where
  -- The artifact, and what every media type finds for its content and its signature.
  pub record SameContent (t t' : Tables) : Type 0 where
    pub artifact : get_artifact_by_version uuid version t' ≡ get_artifact_by_version uuid version t
    pub content :
        (m : Bytes)
        → get_artifact_format_for_download uuid version m t'
          ≡ get_artifact_format_for_download uuid version m t
    pub signature :
        (m : Bytes)
        → get_artifact_format_for_signature_download uuid version m t'
          ≡ get_artifact_format_for_signature_download uuid version m t
