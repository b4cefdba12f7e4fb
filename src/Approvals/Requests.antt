-- ===== src/Approvals/Requests.antt =====
-- The `approval_request` table of internal/openteapublisher/approval.go under its two writes.
use opentea.Prelude.{
  ℕ, String, ◌≡◌, refl, sym, false, none, some, Option-cases, Bool-cases, inl, inr, ◌⊎◌, List, [],
  ◌∷◌, ◌++◌, arith, eq_iff, ◌==◌, if◌then◌else◌, ok, Result-cases,
}
use mathlib.Core.Option.{some-injective}
use opentea.Repo.{null_if_empty, sql_eq}
use opentea.Approvals.{
  RequestRow, Tables, ApprovalRequest, find_request, get_approval_request, record_approval_decision,
  insert_decision, new_status, close_request, update_status, decision_row,
}

-- The status of a row.
abbrev pub with_status : String → RequestRow → RequestRow
with_status status row = record row { status = status }

pub find_request-append :
    (uuid : String) (rows : List RequestRow) (row : RequestRow)
    → find_request uuid (rows ++ row ∷ []) ≡ elim (find_request uuid rows) [
      | some old ↦ some old
      | none ↦ if row.uuid == uuid then some row else none
    ]
unfolding find_request
find_request-append uuid [] row = refl
find_request-append uuid (x ∷ rows) row = elim (Bool-cases (x.uuid == uuid)) [
  | inl e ↦ rw e refl
  | inr e ↦ rw e (find_request-append uuid rows row)
]

pub find_request-update_status :
    (uuid status other : String) (rows : List RequestRow)
    → find_request other (update_status uuid status rows) ≡ elim (find_request other rows) [
      | none ↦ none
      | some row ↦ some (if uuid == other then with_status status row else row)
    ]
unfolding find_request update_status
find_request-update_status uuid status other [] = refl
find_request-update_status uuid status other (x ∷ rows) =
    let ih = find_request-update_status uuid status other rows in
    ground (arith, eq_iff x.uuid other, eq_iff x.uuid uuid, eq_iff uuid other)

module _ (now : ℕ) (uuid staff decision comment : String) (db db' : Tables) where
  -- What a recorded decision required and did.
  pub record_approval_decision-parts :
      (r : ApprovalRequest)
      → record_approval_decision now uuid staff decision comment db ≡ ok (r, db')
      → (row : RequestRow) × (decided : Tables) × (find_request uuid db.requests ≡ some row)
        × (row.status ≡ "pending")
        × (sql_eq (null_if_empty staff) row.requested_by ≡ false)
        × (insert_decision (decision_row now uuid staff decision comment) db ≡ ok decided)
        × (db'
            ≡ close_request uuid (new_status decided uuid row.required_approvals decision) decided)
  unfolding record_approval_decision get_approval_request null_if_empty
  record_approval_decision-parts r h = elim (Option-cases (find_request uuid db.requests)) [
    | inl f ↦ absurd (ground arith)
    | inr (row, f) ↦
        elim (Result-cases (insert_decision (decision_row now uuid staff decision comment) db)) [
          | inr (e, g) ↦ absurd (ground arith)
          | inl (decided, g) ↦ (
            row,
            decided,
            f,
            ground (arith, eq_iff row.status "pending"),
            ground (arith, eq_iff staff ""),
            g,
            ground arith,
          )
        ]
  ]

-- Closing a request changes the status of this request only.
pub close_request-find_request :
    (uuid status other : String) (db : Tables) (row' : RequestRow)
    → find_request other (close_request uuid status db).requests ≡ some row'
    → (row : RequestRow) × (find_request other db.requests ≡ some row)
      × (row'.requested_by ≡ row.requested_by)
      × (row'.required_approvals ≡ row.required_approvals)
      × ((row'.status ≡ row.status) ⊎ ((uuid ≡ other) × (row'.status ≡ status)))
unfolding close_request
close_request-find_request uuid status other db row' h = elim (Bool-cases (status == "pending")) [
  | inl e ↦ (row', rw e at h, refl, refl, inl refl)
  | inr e ↦
      let k = rw (e, find_request-update_status uuid status other db.requests) at h in
      elim (Option-cases (find_request other db.requests)) [
        | inl f ↦ absurd (ground arith)
        | inr (row, f) ↦ elim (Bool-cases (uuid == other)) [
          | inl q ↦
              (row, f, ground arith, ground arith, inr ((eq_iff uuid other).0 q, ground arith))
          | inr q ↦ (row, f, ground arith, ground arith, inl (ground arith))
        ]
      ]
]

-- A request that is closed is still there.
pub find_request-close_request :
    (uuid status other : String) (db : Tables) (row : RequestRow)
    → find_request other db.requests ≡ some row
    → (row' : RequestRow) × (find_request other (close_request uuid status db).requests ≡ some row')
unfolding close_request
find_request-close_request uuid status other db row h = elim (Bool-cases (status == "pending")) [
  | inl e ↦ (row, rw e h)
  | inr e ↦ (
    if uuid == other then with_status status row else row,
    rw (e, find_request-update_status uuid status other db.requests, h) refl,
  )
]

-- A request after a closing is as it was, or is the one closed, with its new status.
pub close_request-cases :
    (uuid status other : String) (db : Tables) (row' : RequestRow)
    → find_request other (close_request uuid status db).requests ≡ some row'
    → (row : RequestRow) × (find_request other db.requests ≡ some row)
      × ((row' ≡ row) ⊎ ((uuid ≡ other) × (row' ≡ with_status status row)))
unfolding close_request
close_request-cases uuid status other db row' h = elim (Bool-cases (status == "pending")) [
  | inl e ↦ (row', rw e at h, inl refl)
  | inr e ↦
      let k = rw (e, find_request-update_status uuid status other db.requests) at h in
      elim (Option-cases (find_request other db.requests)) [
        | inl f ↦ absurd (ground arith)
        | inr (row, f) ↦ elim (Bool-cases (uuid == other)) [
          | inl q ↦
              (row, f, inr ((eq_iff uuid other).0 q, sym (some-injective _ _ (rw (f, q) at k))))
          | inr q ↦ (row, f, inl (sym (some-injective _ _ (rw (f, q) at k))))
        ]
      ]
]
