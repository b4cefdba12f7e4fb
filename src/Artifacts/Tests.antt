-- ===== src/Artifacts/Tests.antt =====
-- An artifact with two formats, another one, and the uploads of their files.
use opentea.Prelude.{
  ℕ, zero, suc, ◌≡◌, refl, String, Bool, false, none, some, [], ◌∷◌, Result, ok, err, ◌>>=◌,
}
use opentea.SemVer.{bytes}
use opentea.Repo.{Error}
use opentea.Artifacts.{
  Artifact, Tables, Location, get_artifact_format_for_download, latest_artifact_version,
}
use opentea.Artifacts.Inserts.{FormatInput, ArtifactInput}
use opentea.Artifacts.Writes.{
  create_artifact, create_artifact_version, import_artifact, set_artifact_format_file,
  artifact_format_index_by_id,
}
use opentea.Artifacts.History.{Writes}

abbrev format : String → FormatInput
format media_type = record {
  media_type = bytes media_type;
  description = "";
  url = "";
  signature_url = "";
  checksums = [];
}

abbrev bom : ArtifactInput
bom = record {
  name = "bom";
  type = "BOM";
  created_date = some 2500000000;
  distribution_ids = [];
  formats = format "application/json" ∷ format "application/xml" ∷ [];
}

abbrev licence : ArtifactInput
licence = record bom { type = "LICENSE"; formats = format "text/plain" ∷ [] }

abbrev ids : String → String → ℕ → String
ids a b zero = a
ids a b (suc i) = b

abbrev empty : Tables
empty = record {
  artifacts = [];
  formats = [];
  distributions = [];
  checksums = [];
  release_distributions = [];
}

abbrev tables_of : {A : Type 0} → Result Error (A × Tables) → Tables
tables_of (ok p) = p.1
tables_of (err e) = empty

abbrev artifact_of : Result Error (Artifact × Tables) → Artifact
artifact_of (ok p) = p.0
artifact_of (err e) = record {
  uuid = "";
  version = 0;
  name = "";
  type = "";
  created_date = none;
  distribution_ids = [];
  formats = [];
}

-- `a` has its file of XML.
abbrev one_artifact : Tables
unfolding create_artifact set_artifact_format_file
one_artifact = tables_of (
    set_artifact_format_file "a" 1 1 "x"
      (tables_of (create_artifact (ids "f0" "f1") "a" bom empty)))

abbrev two_artifacts : Tables
unfolding create_artifact set_artifact_format_file
two_artifacts = tables_of (create_artifact (ids "g0" "g1") "b" licence one_artifact)

abbrev both_uploaded : Tables
unfolding create_artifact set_artifact_format_file
both_uploaded = tables_of (set_artifact_format_file "b" 1 0 "l" two_artifacts)

upload_again :
    (set_artifact_format_file "a" 1 1 "y" one_artifact >>= λ p.
    get_artifact_format_for_download "a" 1 (bytes "application/XML") p.1)
    ≡ ok (Location.stored "y")
unfolding one_artifact set_artifact_format_file get_artifact_format_for_download
upload_again = refl

no_content :
    get_artifact_format_for_download "a" 1 (bytes "application/json") one_artifact
    ≡ err Error.not_found
unfolding one_artifact get_artifact_format_for_download
no_content = refl

index_by_id : artifact_format_index_by_id "a" 1 "f1" one_artifact ≡ ok 1
unfolding one_artifact artifact_format_index_by_id
index_by_id = refl

stale_version :
    create_artifact_version (ids "h0" "h1") "a" (some 2) bom one_artifact
    ≡ err Error.version_conflict
unfolding one_artifact create_artifact_version
stale_version = refl

next_version :
    latest_artifact_version "a"
      (tables_of (create_artifact_version (ids "h0" "h1") "a" (some 1) bom one_artifact))
    ≡ some 2
unfolding one_artifact create_artifact_version latest_artifact_version
next_version = refl

abbrev created_at : ℕ → ArtifactInput
created_at date = record bom { created_date = some date }

abbrev import_twice : ℕ → Result Error Bool
unfolding import_artifact
import_twice date = do
  once ← import_artifact (ids "f0" "f1") "a" 1 (created_at date) empty
  again ← import_artifact (ids "h0" "h1") "a" 1 (created_at date) once.1
  ok again.0

-- A date of whole seconds is read back as it was, and one with a fraction is not.
whole_second_again : import_twice 2000000000 ≡ ok false
unfolding import_twice
whole_second_again = refl

fraction_again : import_twice 2500000000 ≡ err Error.import_identity_conflict
unfolding import_twice
fraction_again = refl

other_date :
    (import_artifact (ids "f0" "f1") "a" 1 (created_at 2000000000) empty >>= λ p.
    import_artifact (ids "h0" "h1") "a" 1 (created_at 3000000000) p.1)
    ≡ err Error.import_identity_conflict
unfolding import_artifact
other_date = refl
