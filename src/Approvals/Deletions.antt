-- ===== src/Approvals/Deletions.antt =====
-- `DeleteStaff` (internal/openteapublisher/staff.go) and `DeleteTarget` (target.go), with what the foreign
-- keys of 0004_business_approval.sql do to requests and decisions.
use opentea.Prelude.{
  String, Bool, not, ◌&&◌, Option, none, some, List, [], ◌∷◌, ◌==◌, leb, if◌then◌else◌, any, filter,
  length, map, Result, ok, err,
}
use opentea.Repo.{sql_eq}
use opentea.Approvals.{Error, not_found, last_admin, RequestRow, DecisionRow, Staff, Tables}

unfoldable pub find_staff : String → List Staff → Option Staff
find_staff uuid [] = none
find_staff uuid (s ∷ staff) =
    let rest = find_staff uuid staff in if s.uuid == uuid then some s else rest

abbrev is_admin : Staff → Bool
is_admin s = s.role == "admin"

abbrev is_other : String → Staff → Bool
is_other uuid s = not (s.uuid == uuid)

-- ON DELETE SET NULL
abbrev pub cleared : String → Option String → Option String
cleared uuid reference = if sql_eq reference (some uuid) then none else reference

abbrev pub forget_requester : String → RequestRow → RequestRow
forget_requester uuid row = record row { requested_by = cleared uuid row.requested_by }

abbrev pub forget_voter : String → DecisionRow → DecisionRow
forget_voter uuid d = record d { staff_uuid = cleared uuid d.staff_uuid }

abbrev pub without_staff : String → Tables → Tables
without_staff uuid db = record db {
  staff = filter (is_other uuid) db.staff;
  requests = map (forget_requester uuid) db.requests;
  decisions = map (forget_voter uuid) db.decisions;
}

-- The last administrator stays.
abbrev pub is_last_admin : Staff → List Staff → Bool
is_last_admin s staff = is_admin s && leb (length (filter is_admin staff)) 1

unfoldable pub delete_staff : String → Tables → Result Error Tables
unfolding find_staff
delete_staff uuid db = elim (find_staff uuid db.staff) [
  | none ↦ err not_found
  | some s ↦ if is_last_admin s db.staff then err last_admin else ok (without_staff uuid db)
]

abbrev pub is_of : String → String → RequestRow → Bool
is_of target uuid row = (row.uuid == uuid) && (row.target_uuid == target)

-- The request of this uuid, the primary key, belongs to the target.
abbrev pub removed : String → List RequestRow → String → Bool
removed target rows uuid = any (is_of target uuid) rows

abbrev pub keeps_request : String → List RequestRow → RequestRow → Bool
keeps_request target rows row = not (removed target rows row.uuid)

abbrev pub keeps_decision : String → List RequestRow → DecisionRow → Bool
keeps_decision target rows d = not (removed target rows d.request_uuid)

-- ON DELETE CASCADE, from the target to its requests and from them to their decisions.
abbrev pub without_target : String → Tables → Tables
without_target uuid db = record db {
  targets = filter (λ t. not (t == uuid)) db.targets;
  requests = filter (keeps_request uuid db.requests) db.requests;
  decisions = filter (keeps_decision uuid db.requests) db.decisions;
}

unfoldable pub delete_target : String → Tables → Result Error Tables
delete_target uuid db =
    if any (λ t. t == uuid) db.targets then ok (without_target uuid db) else err not_found
