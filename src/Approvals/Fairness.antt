-- ===== src/Approvals/Fairness.antt =====
-- The writes of internal/openteapublisher/approval.go keep every request fair: no requester decides.
use opentea.Prelude.{
  ℕ, String, ◌≡◌, ◌≤◌, refl, sym, ap, ◌∙◌, subst, Bool, false, ◌&&◌, none, some, Option-cases,
  Bool-cases, inl, inr, List, [], ◌∷◌, ◌++◌, arith, eq_iff, ◌==◌, All, All-append, All-mem,
  All-of_mem, length, ok,
}
use mathlib.Core.Option.{some-injective}
use opentea.Repo.{sql_eq}
use opentea.Approvals.{
  RequestRow, DecisionRow, Tables, ApprovalRequest, ApprovalRequestInput, find_request, request_row,
  insert_request, create_approval_request, record_approval_decision, insert_decision, decision_row,
  new_status, close_request, voters,
}
use opentea.Approvals.Requests.{
  find_request-append, record_approval_decision-parts, close_request-find_request,
  find_request-close_request,
}

-- The reference of a decision to its request.
abbrev pub HasRequest : Tables → DecisionRow → Type 0
HasRequest db d = (row : RequestRow) × (find_request d.request_uuid db.requests ≡ some row)

abbrev pub by_requester : String → RequestRow → DecisionRow → Bool
by_requester uuid row d = (d.request_uuid == uuid) && sql_eq d.staff_uuid row.requested_by

-- No decision on the request is its requester's.
abbrev pub IsFair : List DecisionRow → String → RequestRow → Type 0
IsFair ds uuid row = All (λ d. by_requester uuid row d ≡ false) ds

pub record IsSound (db : Tables) : Type 0 where
  pub fair :
      (uuid : String) (row : RequestRow)
      → find_request uuid db.requests ≡ some row
      → IsFair db.decisions uuid row
  -- The reference of a decision to its request.
  pub known : All (HasRequest db) db.decisions

module _ (fresh : String) (now : ℕ) (input : ApprovalRequestInput) (db db' : Tables) where
  pub create_approval_request-parts :
      (r : ApprovalRequest)
      → create_approval_request fresh now input db ≡ ok (r, db')
      → (find_request fresh db.requests ≡ none)
        × (db'.requests ≡ db.requests ++ request_row fresh now input ∷ [])
        × (db'.decisions ≡ db.decisions)
  unfolding create_approval_request insert_request
  create_approval_request-parts r h = ground arith

module _ (fresh : String) (now : ℕ) (input : ApprovalRequestInput) (db db' : Tables)
    (sound : IsSound db) where
  new-IsFair :
      (uuid : String) (row : RequestRow)
      → find_request uuid db.requests ≡ none
      → IsFair db.decisions uuid row
  new-IsFair uuid row f =
      All-of_mem (λ d. by_requester uuid row d ≡ false) db.decisions
        (λ d m. elim (Bool-cases (d.request_uuid == uuid)) [
          | inr e ↦ ground arith
          | inl e ↦
              let (old, k) = All-mem (HasRequest db) m sound.known in
              absurd (
                let c =
                  subst (λ z. find_request z db.requests ≡ some old)
                    ((eq_iff d.request_uuid uuid).0 e) k in
                cc)
        ])

  pub create_approval_request-IsSound :
      (r : ApprovalRequest) → create_approval_request fresh now input db ≡ ok (r, db') → IsSound db'
  create_approval_request-IsSound r h =
      let (absent, er, ed) = create_approval_request-parts fresh now input db db' r h in
      let new = request_row fresh now input in
      record {
        fair = λ uuid row k.
            let at_end = rw (er, find_request-append uuid db.requests new) at k in
            subst (λ z. IsFair z uuid row) (sym ed)
              (elim (Option-cases (find_request uuid db.requests)) [
                | inl f ↦ new-IsFair uuid row f
                | inr (old, f) ↦ sound.fair uuid row (ground arith)
              ]);
        known =
            subst (λ z. All (HasRequest db') z) (sym ed)
              (All-of_mem (HasRequest db') db.decisions (λ d m.
                let (old, k) = All-mem (HasRequest db) m sound.known in
                (old, rw (er, find_request-append d.request_uuid db.requests new, k) refl)));
      }

pub insert_decision-parts :
    (d : DecisionRow) (db decided : Tables)
    → insert_decision d db ≡ ok decided
    → (decided.decisions ≡ db.decisions ++ d ∷ []) × (decided.requests ≡ db.requests)
unfolding insert_decision
insert_decision-parts d db decided h = (ground arith, ground arith)

pub close_request-decisions :
    (uuid status : String) (db : Tables) → (close_request uuid status db).decisions ≡ db.decisions
unfolding close_request
close_request-decisions uuid status db = ground arith

pub new_status-quorum :
    (db : Tables) (uuid : String) (required : ℕ) (decision : String)
    → new_status db uuid required decision ≡ "approved"
    → required ≤ length (voters uuid db.decisions)
unfolding new_status
new_status-quorum db uuid required decision h =
    ground (arith, eq_iff "rejected" "approved", eq_iff "pending" "approved")

module _ (now : ℕ) (uuid staff decision comment : String) (db db' : Tables)
    (sound : IsSound db) where
  abbrev added : DecisionRow
  added = decision_row now uuid staff decision comment

  decided-IsFair :
      (row : RequestRow) (decided : Tables)
      → find_request uuid db.requests ≡ some row
      → row.status ≡ "pending"
      → sql_eq added.staff_uuid row.requested_by ≡ false
      → decided.decisions ≡ db.decisions ++ added ∷ []
      → decided.requests ≡ db.requests
      → (other : String) (row' : RequestRow)
      → find_request other
          (close_request uuid
            (new_status decided uuid row.required_approvals decision)
            decided).requests
        ≡ some row'
      → IsFair decided.decisions other row'
  decided-IsFair row decided f pending self ed er other row' k =
      let (old, g0, by, required, state) =
        close_request-find_request uuid (new_status decided uuid row.required_approvals decision)
          other decided row' k in
      let g = subst (λ z. find_request other z ≡ some old) er g0 in
      let before = sound.fair other old g in
      let same : uuid ≡ other → old ≡ row =
        λ e. some-injective _ _ (sym g ∙ ap (λ z. find_request z db.requests) (sym e) ∙ f) in
      subst (λ z. IsFair z other row') (sym ed)
        (All-append (λ d. by_requester other row' d ≡ false) db.decisions (added ∷ [])
          (subst
            (λ z.
              All (λ d. (d.request_uuid == other) && sql_eq d.staff_uuid z ≡ false) db.decisions)
            (sym by) before)
          (
            elim (Bool-cases (uuid == other)) [
              | inr e ↦ ground arith
              | inl e ↦
                  let is = same ((eq_iff uuid other).0 e) in
                  let no =
                    subst (λ z. sql_eq added.staff_uuid z ≡ false)
                      (ap (λ z. z.requested_by) (sym is) ∙ sym by) self in
                  ground arith
            ],
            tt,
          ))

  still :
      (decided : Tables)
      → decided.requests ≡ db.requests
      → (status other : String) (old : RequestRow) → find_request other db.requests ≡ some old
      → (row : RequestRow) × (find_request other (close_request uuid status decided).requests
          ≡ some row)
  still decided er status other old k =
      find_request-close_request uuid status other decided old
        (subst (λ z. find_request other z ≡ some old) (sym er) k)

  pub record_approval_decision-IsSound :
      (r : ApprovalRequest)
      → record_approval_decision now uuid staff decision comment db ≡ ok (r, db')
      → IsSound db'
  record_approval_decision-IsSound r h =
      let (row, decided, f, pending, self, inserted, e) =
        record_approval_decision-parts now uuid staff decision comment db db' r h in
      let (ed, er) = insert_decision-parts added db decided inserted in
      let status = new_status decided uuid row.required_approvals decision in
      subst IsSound (sym e) (record {
        fair = λ other row' k.
            subst (λ z. IsFair z other row') (sym (close_request-decisions uuid status decided))
              (decided-IsFair row decided f pending self ed er other row' k);
        known =
            subst (All (HasRequest (close_request uuid status decided)))
              (sym (close_request-decisions uuid status decided ∙ ed))
              (All-append (HasRequest (close_request uuid status decided)) db.decisions (added ∷ [])
                (All-of_mem (HasRequest (close_request uuid status decided)) db.decisions (λ d m.
                  let (old, k) = All-mem (HasRequest db) m sound.known in
                  still decided er status d.request_uuid old k))
                (still decided er status uuid row f, tt));
      })
