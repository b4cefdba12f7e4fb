-- ===== src/Download/Tests.antt =====
-- Runs of the negotiation and of the download endpoints on one artifact with two formats.
use opentea.Prelude.{
  ℕ, ◌≡◌, refl, String, true, false, Option, none, some, List, [], ◌∷◌, ltb, arith, ok,
  if◌then◌else◌,
}
use opentea.SemVer.{Bytes, bytes, bytes_equal}
use opentea.Repo.Owners.{Owned}
use opentea.Authz.{CandidateRule, decide_candidates}
use opentea.Artifacts.{Tables, ArtifactRow, FormatRow, Checksum, list_artifact_formats}
use opentea.Api.{Request, Failure, matches_if_none_match, build_etag, cache_control_for}
use opentea.Api.Numbers.{itoa}
use opentea.Download.{Floats, parse_accept, best_accept_quality, select_format_media_type}
use opentea.Download.Quality.{IsOrdered}
use opentea.Download.Choice.{Chosen, select_format_media_type-Chosen}
use opentea.Download.Answers.{Downloaded}
use opentea.Download.Outcome.{download_artifact_content-Downloaded}
use opentea.Download.Handlers.{
  Server, Response, download_artifact_content, download_latest_artifact,
  download_artifact_signature_by_version, answer_conditional,
}

-- Thousandths, read from three texts.
abbrev parse_thousandths : Bytes → Option ℕ
parse_thousandths s =
    if bytes_equal s (bytes "0")
    then some 0
    else if bytes_equal s (bytes "0.5")
    then some 500
    else if bytes_equal s (bytes "1")
    then some 1000
    else none

abbrev thousandths : Floats ℕ
thousandths = record { parse_float = parse_thousandths; gt = λ a b. ltb b a; zero = 0; one = 1000 }

thousandths-IsOrdered : IsOrdered thousandths
thousandths-IsOrdered = record {
  irreflexive = λ a. ground arith;
  trans = λ a b c p q. ground arith;
  over = λ a b c p q h. ground arith;
}

abbrev json : Bytes
json = bytes "application/json"

abbrev xml : Bytes
xml = bytes "application/xml"

abbrev row : String → Bytes → String → FormatRow
row id media_type signature = record {
  id = id;
  artifact_uuid = "a";
  artifact_version = 2;
  media_type = media_type;
  description = "";
  url = "";
  signature_url = "";
  signature_sha256 = signature;
}

abbrev revision : ℕ → ArtifactRow
revision version = record {
  uuid = "a";
  version = version;
  name = "bom";
  type = "BOM";
  created_date = none;
  revision = 7;
}

abbrev sha : String → String → Owned Checksum
sha id value = record {
  owner = record { type = "ARTIFACT_FORMAT"; uuid = id };
  row = record { alg_type = "SHA-256"; alg_value = value };
}

abbrev tables : Tables
tables = record {
  artifacts = revision 1 ∷ revision 2 ∷ [];
  formats = row "f1" json "" ∷ row "f2" xml "sig" ∷ [];
  distributions = [];
  release_distributions = [];
  checksums = sha "f1" "j" ∷ sha "f2" "x" ∷ [];
}

abbrev allow : CandidateRule
allow = record {
  entitlement_uuid = "e";
  template_uuid = "t";
  template_revision = 1;
  resource_scope = 6;
  subject_type = "principal";
  decision = "allow";
}

abbrev server : List CandidateRule → Server (Unit {0}) ℕ
server rules = record {
  store = record { candidate_rules = λ p c res. ok rules };
  watermark = λ u. ok 12;
  open_blob = λ h. some h;
  floats = thousandths;
}

abbrev request : String → String → String → Request
request media_type accept etag = record {
  principal = record { user_uuid = "u" };
  invalid_bearer = false;
  is_head = false;
  media_type = bytes media_type;
  accept = bytes accept;
  if_none_match = bytes etag ∷ [];
}

itoa_number : itoa 120 ≡ bytes "120"
itoa_number = refl

weak_match :
    matches_if_none_match (bytes "\"x\", W/\"a:1\"" ∷ []) (build_etag (bytes "a" ∷ bytes "1" ∷ []))
    ≡ true
unfolding matches_if_none_match build_etag
weak_match = refl

private_cache :
    cache_control_for (request "" "" "") (bytes "public, no-cache") ≡ bytes "private, no-cache"
unfolding cache_control_for
private_cache = refl

refused_by_the_exact_range :
    best_accept_quality thousandths
      (parse_accept thousandths (bytes "application/*, application/JSON; q=0"))
      json
    ≡ none
unfolding best_accept_quality parse_accept
refused_by_the_exact_range = refl

-- The range of `application/*` outweighs the half quality of JSON.
select_xml :
    select_format_media_type thousandths
      (request "" "application/json;q=0.5, application/*" "")
      (list_artifact_formats "a" 2 tables)
    ≡ record { media_type = some xml; used_accept = true }
unfolding select_format_media_type list_artifact_formats
select_xml = refl

select_format_media_type-Chosen_example :
    Chosen thousandths
      (request "" "application/json;q=0.5, application/*" "")
      (list_artifact_formats "a" 2 tables)
      (select_format_media_type thousandths
        (request "" "application/json;q=0.5, application/*" "")
        (list_artifact_formats "a" 2 tables))
select_format_media_type-Chosen_example =
    select_format_media_type-Chosen thousandths thousandths-IsOrdered
      (request "" "application/json;q=0.5, application/*" "") (list_artifact_formats "a" 2 tables)

denied_answer :
    download_latest_artifact (server []) tables (request "" "" "") "a"
    ≡ Response.failure Failure.not_found
unfolding download_latest_artifact decide_candidates
denied_answer = refl

unchanged_answer :
    download_latest_artifact
      (server (allow ∷ []))
      tables
      (request "APPLICATION/xml" "" "\"artifact-download:a:2:application/xml:7:u:u:12\"")
      "a"
    ≡ Response.not_modified (record {
      vary_accept = false;
      uuid = "a";
      version = 2;
      media_type = xml;
      validators = record {
        etag = bytes "\"artifact-download:a:2:application/xml:7:u:u:12\"";
        cache_control = bytes "private, no-cache";
      };
    })
unfolding download_latest_artifact decide_candidates answer_conditional
unchanged_answer = refl

no_signature_answer :
    download_artifact_signature_by_version (server (allow ∷ [])) tables (request "" "" "") "a" 2
    ≡ Response.failure Failure.signature_not_found
unfolding download_artifact_signature_by_version decide_candidates
no_signature_answer = refl

download_artifact_content-Downloaded_example :
    Downloaded (server (allow ∷ [])) tables (request "" "application/*" "") "a" 2 (bytes "public") (
      download_artifact_content
        (server (allow ∷ []))
        tables
        (request "" "application/*" "")
        "a"
        2
        (bytes "public"))
download_artifact_content-Downloaded_example =
    download_artifact_content-Downloaded (server (allow ∷ [])) tables
      (request "" "application/*" "") "a" 2 (bytes "public") thousandths-IsOrdered
