-- ===== src/Approvals/Closed.antt =====
-- A closed request of internal/openteapublisher/approval.go under one more transaction.
use opentea.Prelude.{
  String, ◌≡◌, ◌≢◌, refl, sym, ap, ◌∙◌, subst, true, false, Option, none, some, Option-cases,
  Bool-cases, ◌⊎◌, inl, inr, arith, eq_iff, ◌==◌, ok,
}
use mathlib.Core.Option.{some-injective}
use opentea.Approvals.{
  RequestRow, Tables, find_request, request_row, decision_row, new_status, close_request,
}
use opentea.Approvals.Requests.{
  find_request-append, find_request-update_status, record_approval_decision-parts,
}
use opentea.Approvals.Deletions.{
  delete_staff, delete_target, removed, without_target, forget_requester,
}
use opentea.Approvals.Deleted.{
  delete_staff-state, delete_target-state, find_request-forget, find_request-kept,
}
use opentea.Approvals.Fairness.{create_approval_request-parts, insert_decision-parts}
use opentea.Approvals.Steps.{Step}

close_request-other :
    (uuid status other : String) (db : Tables)
    → uuid == other ≡ false
    → find_request other (close_request uuid status db).requests ≡ find_request other db.requests
unfolding close_request
close_request-other uuid status other db e =
    let f = find_request-update_status uuid status other db.requests in
    elim (Option-cases (find_request other db.requests)) [
      | inl g ↦ ground arith
      | inr (row, g) ↦ ground arith
    ]

-- What is left of a request: all of it, all but its requester, whose account was deleted, or nothing,
-- because a target was deleted to which a row of this uuid, the primary key, belongs.
pub data Left (uuid : String) (row : RequestRow) (db db' : Tables) : Type 0 where
  unchanged : find_request uuid db'.requests ≡ some row → Left uuid row db db'
  unnamed :
      (staff : String)
      → delete_staff staff db ≡ ok db'
      → row.requested_by ≡ some staff
      → find_request uuid db'.requests ≡ some (record row { requested_by = none })
      → Left uuid row db db'
  gone :
      (target : String)
      → delete_target target db ≡ ok db'
      → removed target db.requests uuid ≡ true
      → find_request uuid db'.requests ≡ none
      → Left uuid row db db'

cleared-cases :
    (staff : String) (row : RequestRow)
    → (forget_requester staff row ≡ row)
      ⊎ ((row.requested_by ≡ some staff)
          × (forget_requester staff row ≡ record row { requested_by = none }))
cleared-cases staff row = elim (Option-cases row.requested_by) [
  | inl e ↦ inl (ap (λ (z : Option String). record row { requested_by = z }) (rw e refl))
  | inr (s, e) ↦ elim (Bool-cases (s == staff)) [
    | inl q ↦ inr (
      e ∙ ap some ((eq_iff s staff).0 q),
      ap (λ (z : Option String). record row { requested_by = z }) (rw (e, q) refl),
    )
    | inr q ↦ inl (ap (λ (z : Option String). record row { requested_by = z }) (rw (e, q) refl))
  ]
]

staff-Left :
    (uuid staff : String) (row : RequestRow) (db db' : Tables)
    → delete_staff staff db ≡ ok db'
    → find_request uuid db.requests ≡ some row
    → Left uuid row db db'
staff-Left uuid staff row db db' h f =
    let after : find_request uuid db'.requests ≡ some (forget_requester staff row) =
      subst (λ (z : Tables). find_request uuid z.requests ≡ some (forget_requester staff row))
        (delete_staff-state staff db db' h)
        (find_request-forget staff uuid db.requests ∙ rw f refl) in
    elim (cleared-cases staff row) [
      | inl e ↦ Left.unchanged (after ∙ ap some e)
      | inr (by, e) ↦ Left.unnamed staff h by (after ∙ ap some e)
    ]

target-Left :
    (uuid target : String) (row : RequestRow) (db db' : Tables)
    → delete_target target db ≡ ok db'
    → find_request uuid db.requests ≡ some row
    → Left uuid row db db'
target-Left uuid target row db db' h f =
    let after : find_request uuid db'.requests
        ≡ find_request uuid (without_target target db).requests =
      ap (λ (z : Tables). find_request uuid z.requests)
        (sym (delete_target-state target db db' h)) in
    let kept = after ∙ find_request-kept target uuid db.requests db.requests in
    elim (Bool-cases (removed target db.requests uuid)) [
      | inl e ↦ Left.gone target h e (kept ∙ rw e refl)
      | inr e ↦ Left.unchanged (kept ∙ rw e f)
    ]

-- Of a request that is approved or rejected, no later transaction changes anything but by a deletion: of
-- the account of its requester, whose name is then taken from it, or of its target, and it goes with it.
pub step-closed :
    (db db' : Tables) (uuid : String) (row : RequestRow)
    → Step db db'
    → find_request uuid db.requests ≡ some row
    → row.status ≢ "pending"
    → Left uuid row db db'
step-closed db db' uuid row (Step.create fresh now input r h) f closed =
    let (absent, er, _) = create_approval_request-parts fresh now input db db' r h in
    Left.unchanged
      (rw (er, find_request-append uuid db.requests (request_row fresh now input), f) refl)
step-closed db db' uuid row (Step.decide now on staff decision comment r h) f closed =
    let (old, decided, g, pending, _, inserted, e) =
      record_approval_decision-parts now on staff decision comment db db' r h in
    let (_, er) =
      insert_decision-parts (decision_row now on staff decision comment) db decided inserted in
    elim (Bool-cases (on == uuid)) [
      | inl q ↦
          let same : old ≡ row =
            some-injective _ _
              (sym g ∙ ap (λ z. find_request z db.requests) ((eq_iff on uuid).0 q) ∙ f) in
          absurd (closed (ap (λ z. z.status) (sym same) ∙ pending))
      | inr q ↦ Left.unchanged (
          ap (λ z. find_request uuid z.requests) e
          ∙ close_request-other on (new_status decided on old.required_approvals decision) uuid
              decided q
          ∙ ap (find_request uuid) er
          ∙ f)
    ]
step-closed db db' uuid row (Step.remove_staff staff h) f closed =
    staff-Left uuid staff row db db' h f
step-closed db db' uuid row (Step.remove_target target h) f closed =
    target-Left uuid target row db db' h f
step-closed db db' uuid row (Step.elsewhere er ed) f closed =
    Left.unchanged (ap (find_request uuid) er ∙ f)
