-- ===== src/Approvals/Tests.antt =====
-- The properties of internal/openteapublisher/approval.go at a request that needs two approvals.
use opentea.Prelude.{ℕ, String, ◌≡◌, ◌≢◌, refl, none, some, [], ◌∷◌, arith, eq_iff, ok, err}
use opentea.Repo.{null_if_empty}
use opentea.Approvals.{
  RequestRow, DecisionRow, Staff, Tables, ApprovalRequest, ApprovalRequestInput, find_request,
  get_approval_request, insert_request, create_approval_request, insert_decision, voters,
  last_admin, update_status, new_status, close_request, record_approval_decision,
}
use opentea.Approvals.Deletions.{delete_staff, find_staff, delete_target}
use opentea.Approvals.Steps.{Reach, start, next, create, decide, remove_staff}
use opentea.Approvals.Quorum.{WasApproved, reach-quorum}
use opentea.Approvals.Closed.{Left, step-closed}

abbrev admin : String → Staff
admin uuid = record { uuid = uuid; role = "admin" }

abbrev empty : Tables
empty = record {
  targets = "t" ∷ [];
  staff = admin "alice" ∷ admin "bob" ∷ admin "carol" ∷ [];
  requests = [];
  decisions = [];
}

abbrev input : ApprovalRequestInput
input = record {
  target_uuid = "t";
  release_kind = "productRelease";
  release_uuid = "r1";
  notes = "";
  requested_by = "alice";
  required_approvals = 2;
}

abbrev requested_row : RequestRow
requested_row = record {
  uuid = "q1";
  target_uuid = "t";
  release_kind = "productRelease";
  release_uuid = "r1";
  notes = none;
  requested_by = some "alice";
  required_approvals = 2;
  status = "pending";
  created_at = 5;
}

abbrev vote : String → ℕ → DecisionRow
vote staff now = record {
  request_uuid = "q1";
  staff_uuid = some staff;
  decision = "approved";
  comment = none;
  decided_at = now;
}

abbrev requested : Tables
requested = record empty { requests = requested_row ∷ [] }

abbrev once : Tables
once = record requested { decisions = vote "bob" 6 ∷ [] }

abbrev twice : Tables
twice = record requested {
  requests = record requested_row { status = "approved" } ∷ [];
  decisions = vote "bob" 6 ∷ vote "carol" 7 ∷ [];
}

request_ok :
    (r : ApprovalRequest) × (create_approval_request "q1" 5 input empty ≡ ok (r, requested))
unfolding create_approval_request insert_request get_approval_request find_request null_if_empty
request_ok = (_, refl)

bob_ok :
    (r : ApprovalRequest) × (record_approval_decision 6 "q1" "bob" "approved" "" requested
      ≡ ok (r, once))
unfolding record_approval_decision insert_decision get_approval_request find_request null_if_empty
    new_status voters close_request update_status
bob_ok = (_, refl)

carol_ok :
    (r : ApprovalRequest) × (record_approval_decision 7 "q1" "carol" "approved" "" once
      ≡ ok (r, twice))
unfolding record_approval_decision insert_decision get_approval_request find_request null_if_empty
    new_status voters close_request update_status
carol_ok = (_, refl)

abbrev reach_twice : Reach twice
reach_twice =
    next
      (next (next (start empty refl refl) (create "q1" 5 input request_ok.0 request_ok.1))
        (decide 6 "q1" "bob" "approved" "" bob_ok.0 bob_ok.1))
      (decide 7 "q1" "carol" "approved" "" carol_ok.0 carol_ok.1)

-- Bob, who voted, leaves, and then Alice, who asked.
abbrev voter_gone : Tables
voter_gone = record twice {
  staff = admin "alice" ∷ admin "carol" ∷ [];
  decisions = record (vote "bob" 6) { staff_uuid = none } ∷ vote "carol" 7 ∷ [];
}

abbrev both_gone : Tables
both_gone = record voter_gone {
  staff = admin "carol" ∷ [];
  requests = record requested_row { status = "approved"; requested_by = none } ∷ [];
}

bob_removed : delete_staff "bob" twice ≡ ok voter_gone
unfolding delete_staff find_staff
bob_removed = refl

alice_removed : delete_staff "alice" voter_gone ≡ ok both_gone
unfolding delete_staff find_staff
alice_removed = refl

last_admin_stays : delete_staff "carol" both_gone ≡ err last_admin
unfolding delete_staff find_staff
last_admin_stays = refl

target_removed :
    delete_target "t" both_gone
    ≡ ok (record both_gone { targets = []; requests = []; decisions = [] })
unfolding delete_target
target_removed = refl

reach-quorum_example :
    WasApproved both_gone "q1" (record requested_row { status = "approved"; requested_by = none })
reach-quorum_example =
    reach-quorum both_gone "q1" (record requested_row { status = "approved"; requested_by = none })
      (next (next reach_twice (remove_staff "bob" bob_removed))
        (remove_staff "alice" alice_removed))
      (unfold find_request in refl) refl

not_pending : ◌≢◌ {A = String} "approved" "pending"
not_pending = ground (arith, eq_iff "approved" "pending")

step-closed_example : Left "q1" (record requested_row { status = "approved" }) voter_gone both_gone
step-closed_example =
    step-closed voter_gone both_gone "q1" (record requested_row { status = "approved" })
      (remove_staff "alice" alice_removed) (unfold find_request in refl) not_pending
