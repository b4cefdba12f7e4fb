-- ===== src/Download.antt =====
-- internal/api/artifactdownload.go: which format of an artifact a download serves. Media types and
-- headers are lists of bytes, in ASCII; a quality is a `float64`, of which the code needs the test `>`.
pub mod Quality
pub mod Choice
pub mod Handlers
pub mod Resolved
pub mod Answers
pub mod Outcome
mod Tests
use opentea.Prelude.{
  ℕ, zero, suc, Bool, true, false, not, ◌&&◌, ◌||◌, Option, none, some, List, [], ◌∷◌, map, eqb,
  ltb, leb, if◌then◌else◌, first_best,
}
use opentea.SemVer.{Bytes, bytes, bytes_equal, cut, split}
use opentea.Texts.{to_lower, same_fold, trim_space, is_empty}
use opentea.Api.{Request}
use opentea.Artifacts.{ArtifactFormat}

-- `acceptRange`
pub record AcceptRange (Q : Type 0) : Type 0 where
  pub typ : Bytes
  pub subtype : Bytes
  pub q : Q

-- `strconv.ParseFloat`, `>`, and the constants 0 and 1 of `float64`.
pub record Floats (Q : Type 0) : Type 0 where
  pub parse_float : Bytes → Option Q
  pub gt : Q → Q → Bool
  pub zero : Q
  pub one : Q

module _ {Q : Type 0} (floats : Floats Q) where
  -- The loop over the parameters of a range, which ends at the first `q`.
  unfoldable pub range_quality : List Bytes → Q
  range_quality [] = floats.one
  range_quality (param ∷ params) =
      let rest = range_quality params in
      let c = cut b'=' param in
      if not c.found || not (same_fold (trim_space c.before) (bytes "q"))
      then rest
      else elim (floats.parse_float (trim_space c.after)) [ none ↦ floats.one | some q ↦ q ]

  abbrev range_of : List Bytes → Option (AcceptRange Q)
  unfolding range_quality
  range_of [] = none
  range_of (name ∷ params) =
      let c = cut b'/' (trim_space name) in
      if not c.found || (is_empty c.before || is_empty c.after)
      then none
      else some
          (record { typ = to_lower c.before; subtype = to_lower c.after; q = range_quality params })

  abbrev parse_parts : List Bytes → List (AcceptRange Q)
  parse_parts [] = []
  parse_parts (part ∷ parts) =
      let rest = parse_parts parts in
      elim (range_of (split b';' part)) [ none ↦ rest | some rg ↦ rg ∷ rest ]

  unfoldable pub parse_accept : Bytes → List (AcceptRange Q)
  unfolding range_quality
  parse_accept header = parse_parts (split b',' header)

-- The `switch` of `bestAcceptQuality`: `none` for its default, which skips the range.
unfoldable pub specificity : {Q : Type 0} → Bytes → Bytes → AcceptRange Q → Option ℕ
specificity typ subtype rg =
    if bytes_equal rg.typ typ && bytes_equal rg.subtype subtype
    then some 2
    else if bytes_equal rg.typ typ && bytes_equal rg.subtype (bytes "*")
    then some 1
    else if bytes_equal rg.typ (bytes "*") && bytes_equal rg.subtype (bytes "*")
    then some 0
    else none

-- `specificity > bestSpecificity`; a Go -1 is the lack of a best range.
abbrev pub more_specific : ℕ → ℕ → Bool
more_specific s t = ltb t s

-- `bestSpecificity` and the range that it comes from.
unfoldable pub best_range : {Q : Type 0} → List (AcceptRange Q) → Bytes → Option (AcceptRange Q × ℕ)
unfolding specificity
best_range ranges media_type =
    let c = cut b'/' media_type in
    if not c.found
    then none
    else first_best (specificity (to_lower c.before) (to_lower c.after)) more_specific ranges

-- `q, q > 0`, or `0, false` where no range matches.
abbrev pub positive : {Q : Type 0} → Floats Q → Option (AcceptRange Q × ℕ) → Option Q
positive floats none = none
positive floats (some (rg, s)) = if floats.gt rg.q floats.zero then some rg.q else none

-- `none` where `matched` is false.
unfoldable pub best_accept_quality :
    {Q : Type 0} → Floats Q → List (AcceptRange Q) → Bytes → Option Q
unfolding best_range
best_accept_quality floats ranges media_type = positive floats (best_range ranges media_type)

-- What is returned; `media_type` is `none` where `ok` is false.
pub record Selection : Type 0 where
  pub media_type : Option Bytes
  pub used_accept : Bool

-- The loop over the formats for an explicit `mediaType`.
abbrev pub first_with : Bytes → List ArtifactFormat → Option Bytes
first_with q [] = none
first_with q (f ∷ formats) =
    let rest = first_with q formats in if same_fold f.media_type q then some f.media_type else rest

abbrev pub first_format : List ArtifactFormat → Option Bytes
first_format [] = none
first_format (f ∷ formats) = some f.media_type

-- The quality that the loop over the formats compares.
abbrev pub quality_of : {Q : Type 0} → Floats Q → List (AcceptRange Q) → ArtifactFormat → Option Q
unfolding best_accept_quality
quality_of floats ranges f = best_accept_quality floats ranges f.media_type

-- `formats[bestIdx].MediaType`
abbrev pub media_type_of : {Q : Type 0} → Option (ArtifactFormat × Q) → Option Bytes
media_type_of none = none
media_type_of (some (f, q)) = some f.media_type

unfoldable pub select_format_media_type :
    {Q : Type 0} → Floats Q → Request → List ArtifactFormat → Selection
unfolding best_accept_quality parse_accept
select_format_media_type floats r formats =
    if not (is_empty r.media_type)
    then record { media_type = first_with r.media_type formats; used_accept = false }
    else if is_empty r.accept
    then record { media_type = first_format formats; used_accept = true }
    else let ranges = parse_accept floats r.accept in
      record {
        media_type = media_type_of (first_best (quality_of floats ranges) floats.gt formats);
        used_accept = true;
      }

unfoldable pub select_signature_format_media_type : Request → List ArtifactFormat → Option Bytes
select_signature_format_media_type r formats =
    if not (is_empty r.media_type) then first_with r.media_type formats else first_format formats
