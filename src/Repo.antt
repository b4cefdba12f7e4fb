-- ===== src/Repo.antt =====
-- internal/repo: the errors that the data-access layer returns, the time format of its columns
-- (timeutil.go), and the SQL comparisons that its queries make. A table is the list of its rows.
pub mod Database
pub mod Identity
pub mod Owners
pub mod Identifiers
use opentea.Prelude.{
  ℕ, ◌*◌, ◌/◌, String, Bool, false, Option, none, some, List, [], ◌∷◌, ◌==◌, if◌then◌else◌,
}

pub data Error : Type 0 where
  not_found draft_locked self_approval approval_required lock_not_held : Error
  draft_revision_conflict import_identity_conflict fingerprint_used : Error
  unknown_owner_type no_identifying_field lock_date_missing commit_race commit_date_mismatch : Error
  compliance_document_wrong_owner invalid_compliance_document_type cross_type_uuid_reuse : Error
  no_matching_format signature_not_found version_conflict constraint_violation : Error

-- Nanoseconds in a second.
abbrev pub second : ℕ
second = 1000000000

-- The column holds whole seconds in UTC, `2006-01-02T15:04:05Z`; a time is a count of nanoseconds.
-- The texts of two times compare as the times do, so a column is the number of seconds.
abbrev pub format_time : ℕ → ℕ
format_time t = t / second

abbrev pub parse_time : ℕ → ℕ
parse_time s = s * second

unfoldable pub null_if_empty : String → Option String
null_if_empty s = if s == "" then none else some s

-- `column = ?`, false where either side is NULL
abbrev pub sql_eq : Option String → Option String → Bool
sql_eq (some a) (some b) = a == b
sql_eq _ _ = false

-- The value column of the first row with this key.
unfoldable pub lookup {ℓ} : {V : Type ℓ} → String → List (String × V) → Option V
lookup k [] = none
lookup k ((j, v) ∷ rows) = if j == k then some v else lookup k rows
