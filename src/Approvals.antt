-- ===== src/Approvals.antt =====
-- internal/openteapublisher/approval.go: business approvals of a release, by a number of members of
-- staff none of whom asked for it. `fresh` is the uuid that `idgen.New()` returns, `now` the time in
-- SQLite's defaults.
pub mod Voters
pub mod Requests
pub mod Deletions
pub mod Fairness
pub mod Deleted
pub mod Steps
pub mod Quorum
pub mod Closed
mod Tests
use opentea.Prelude.{
  ℕ, String, Bool, true, false, not, ◌&&◌, ◌||◌, Option, none, some, List, [], ◌∷◌, ◌++◌, ◌==◌, eqb,
  leb, if◌then◌else◌, any, filter, length, Result, ok, err, ◌>>=◌, ◌>>◌,
}
use opentea.Repo.{null_if_empty, sql_eq}

pub data Error : Type 0 where
  not_found invalid_release_kind self_approval request_not_pending constraint_violation : Error
  last_admin : Error

-- Rows of `approval_request`.
pub record RequestRow : Type 0 where
  pub uuid : String
  pub target_uuid : String
  pub release_kind : String
  pub release_uuid : String
  pub notes : Option String
  pub requested_by : Option String
  pub required_approvals : ℕ
  pub status : String
  pub created_at : ℕ

-- Rows of `approval_decision`, in the order of their ids.
pub record DecisionRow : Type 0 where
  pub request_uuid : String
  pub staff_uuid : Option String
  pub decision : String
  pub comment : Option String
  pub decided_at : ℕ

-- Rows of `staff`, by the columns that these operations read.
pub record Staff : Type 0 where
  pub uuid : String
  pub role : String

pub record Tables : Type 0 where
  pub targets : List String
  pub staff : List Staff
  pub requests : List RequestRow
  pub decisions : List DecisionRow

pub record ApprovalRequest : Type 0 where
  pub uuid : String
  pub target_uuid : String
  pub release_kind : String
  pub release_uuid : String
  pub notes : String
  pub requested_by : String
  pub required_approvals : ℕ
  pub status : String
  pub created_at : ℕ

pub record ApprovalRequestInput : Type 0 where
  pub target_uuid : String
  pub release_kind : String
  pub release_uuid : String
  pub notes : String
  pub requested_by : String
  pub required_approvals : ℕ

unfoldable pub find_request : String → List RequestRow → Option RequestRow
find_request uuid [] = none
find_request uuid (row ∷ rows) = if row.uuid == uuid then some row else find_request uuid rows

abbrev pub text_of : Option String → String
text_of none = ""
text_of (some s) = s

unfoldable pub get_approval_request : Tables → String → Result Error ApprovalRequest
get_approval_request db uuid = elim (find_request uuid db.requests) [
  | none ↦ err not_found
  | some row ↦ ok (record {
    uuid = row.uuid;
    target_uuid = row.target_uuid;
    release_kind = row.release_kind;
    release_uuid = row.release_uuid;
    notes = text_of row.notes;
    requested_by = text_of row.requested_by;
    required_approvals = row.required_approvals;
    status = row.status;
    created_at = row.created_at;
  })
]

-- A reference that is NULL or names a row.
abbrev pub refers : List String → Option String → Bool
refers keys none = true
refers keys (some k) = any (λ x. x == k) keys

abbrev pub uuids : List Staff → List String
uuids [] = []
uuids (s ∷ staff) = s.uuid ∷ uuids staff

abbrev pub request_row : String → ℕ → ApprovalRequestInput → RequestRow
request_row fresh now input = record {
  uuid = fresh;
  target_uuid = input.target_uuid;
  release_kind = input.release_kind;
  release_uuid = input.release_uuid;
  notes = null_if_empty input.notes;
  requested_by = null_if_empty input.requested_by;
  required_approvals = if eqb input.required_approvals 0 then 1 else input.required_approvals;
  status = "pending";
  created_at = now;
}

-- The insert: the primary key, and the references to `target` and `staff`.
unfoldable pub insert_request : RequestRow → Tables → Result Error Tables
insert_request row db = elim (find_request row.uuid db.requests) [
  | some old ↦ err constraint_violation
  | none ↦
      if refers db.targets (some row.target_uuid) && refers (uuids db.staff) row.requested_by
      then ok (record db { requests = db.requests ++ row ∷ [] })
      else err constraint_violation
]

unfoldable pub create_approval_request :
    String → ℕ → ApprovalRequestInput → Tables → Result Error (ApprovalRequest × Tables)
create_approval_request fresh now input db =
    if (input.release_kind == "productRelease") || (input.release_kind == "componentRelease")
    then (do
      db' ← insert_request (request_row fresh now input) db
      request ← get_approval_request db' fresh
      ok (request, db'))
    else err invalid_release_kind

-- The insert: the CHECK on `decision` and the reference to `staff`; the request was found before.
unfoldable pub insert_decision : DecisionRow → Tables → Result Error Tables
insert_decision d db =
    if ((d.decision == "approved") || (d.decision == "rejected"))
      && refers (uuids db.staff) d.staff_uuid
    then ok (record db { decisions = db.decisions ++ d ∷ [] })
    else err constraint_violation

abbrev pub approves : String → DecisionRow → Bool
approves uuid d = (d.request_uuid == uuid) && (d.decision == "approved")

-- `SELECT DISTINCT staff_uuid`, without NULL, which COUNT passes over.
unfoldable pub voters : String → List DecisionRow → List String
voters uuid [] = []
voters uuid (d ∷ ds) =
    let rest = voters uuid ds in
    if approves uuid d
    then elim d.staff_uuid [ none ↦ rest | some s ↦ s ∷ filter (λ x. not (x == s)) rest ]
    else rest

unfoldable pub update_status : String → String → List RequestRow → List RequestRow
update_status uuid status [] = []
update_status uuid status (row ∷ rows) =
    (if row.uuid == uuid then record row { status = status } else row)
    ∷ update_status uuid status rows

unfoldable pub new_status : Tables → String → ℕ → String → String
new_status db uuid required decision =
    if decision == "rejected"
    then "rejected"
    else if leb required (length (voters uuid db.decisions))
    then "approved"
    else "pending"

unfoldable pub close_request : String → String → Tables → Tables
close_request uuid status db =
    if status == "pending"
    then db
    else record db { requests = update_status uuid status db.requests }

abbrev pub decision_row : ℕ → String → String → String → String → DecisionRow
decision_row now uuid staff decision comment = record {
  request_uuid = uuid;
  staff_uuid = null_if_empty staff;
  decision = decision;
  comment = null_if_empty comment;
  decided_at = now;
}

unfoldable pub record_approval_decision :
    ℕ → String → String → String → String → Tables → Result Error (ApprovalRequest × Tables)
record_approval_decision now uuid staff decision comment db = do
  request ← get_approval_request db uuid
  if request.status == "pending" then ok tt else err request_not_pending
  if not (staff == "") && (staff == request.requested_by) then err self_approval else ok tt
  decided ← insert_decision (decision_row now uuid staff decision comment) db
  let db' = close_request uuid (new_status decided uuid request.required_approvals decision) decided
  updated ← get_approval_request db' uuid
  ok (updated, db')
