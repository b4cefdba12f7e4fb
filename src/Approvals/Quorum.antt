-- ===== src/Approvals/Quorum.antt =====
-- What an approved request of internal/openteapublisher/approval.go rests on.
use opentea.Prelude.{
  ℕ, String, ◌≡◌, ◌≤◌, refl, sym, ap, ◌∙◌, subst, false, none, Option, some, Option-cases,
  Bool-cases, ◌⊎◌, inl, inr, arith, eq_iff, All, All-mem, All-of_mem, length, ok,
}
use mathlib.Core.Option.{some-injective}
use opentea.Repo.{sql_eq}
use opentea.Approvals.{
  RequestRow, Tables, ApprovalRequest, ApprovalRequestInput, find_request, request_row,
  create_approval_request, record_approval_decision, decision_row, new_status, voters,
}
use opentea.Approvals.Voters.{IsDistinct, voters-IsDistinct, HasApproved, voters-HasApproved}
use opentea.Approvals.Requests.{
  with_status, find_request-append, record_approval_decision-parts, close_request-cases,
}
use opentea.Approvals.Deletions.{forget_requester}
use opentea.Approvals.Deleted.{
  delete_staff-state, delete_target-state, forgotten-request, kept-request,
}
use opentea.Approvals.Fairness.{
  by_requester, IsSound, create_approval_request-parts, insert_decision-parts, new_status-quorum,
  close_request-decisions,
}
use opentea.Approvals.Steps.{Step, Steps, Reach, step-IsSound, reach-IsFair}

-- A member of staff who approved the request and did not ask for it.
pub record IsVote (db : Tables) (uuid : String) (requested_by : Option String) (s : String)
    : Type 0 where
  pub approved : HasApproved uuid db.decisions s
  pub other : sql_eq (some s) requested_by ≡ false

-- As many votes as the request requires, of members of staff who are all different, none of whom is the
-- one who asked for it.
pub record HasQuorum (db : Tables) (uuid : String) (row : RequestRow) : Type 0 where
  pub enough : row.required_approvals ≤ length (voters uuid db.decisions)
  pub distinct : IsDistinct (voters uuid db.decisions)
  pub votes : All (IsVote db uuid row.requested_by) (voters uuid db.decisions)

-- The row as it was, or without its requester, whose account was deleted.
abbrev pub IsLater : RequestRow → RequestRow → Type 0
IsLater old row = (row ≡ old) ⊎ (row ≡ record old { requested_by = none })

IsLater-trans : (a b c : RequestRow) → IsLater a b → IsLater b c → IsLater a c
IsLater-trans a b c (inl p) (inl q) = inl (q ∙ p)
IsLater-trans a b c (inl p) (inr q) =
    inr (q ∙ ap (λ (z : RequestRow). record z { requested_by = none }) p)
IsLater-trans a b c (inr p) (inl q) = inr (q ∙ p)
IsLater-trans a b c (inr p) (inr q) =
    inr (q ∙ ap (λ (z : RequestRow). record z { requested_by = none }) p)

pub forget_requester-IsLater :
    (staff : String) (row : RequestRow) → IsLater row (forget_requester staff row)
forget_requester-IsLater staff row = elim (Bool-cases (sql_eq row.requested_by (some staff))) [
  | inl e ↦ inr (ap (λ (z : Option String). record row { requested_by = z }) (rw e refl))
  | inr e ↦ inl (ap (λ (z : Option String). record row { requested_by = z }) (rw e refl))
]

-- The decision that approved the request: at a state of the history where it was pending, and left it
-- approved, with its quorum.
pub record WasApproved (db : Tables) (uuid : String) (row : RequestRow) : Type 0 where
  pub before : Tables
  pub after : Tables
  pub reached : Reach before
  pub decided : Step before after
  pub later : Steps after db
  pub pending : RequestRow
  pub was_pending : find_request uuid before.requests ≡ some pending
  pub status : pending.status ≡ "pending"
  pub is_approved : find_request uuid after.requests ≡ some (with_status "approved" pending)
  pub quorum : HasQuorum after uuid pending
  pub is_later : IsLater (with_status "approved" pending) row

votes-of_IsSound :
    (db : Tables) (uuid : String) (row : RequestRow)
    → IsSound db
    → find_request uuid db.requests ≡ some row
    → All (IsVote db uuid row.requested_by) (voters uuid db.decisions)
votes-of_IsSound db uuid row sound f =
    All-of_mem (IsVote db uuid row.requested_by) (voters uuid db.decisions) (λ s m.
      let h = voters-HasApproved uuid db.decisions s m in
      let no = All-mem (λ d. by_requester uuid row d ≡ false) h.stored (sound.fair uuid row f) in
      let q = h.request in
      let st = h.staff in
      record { approved = h; other = ground (arith, eq_iff h.row.request_uuid uuid) })

-- How a request is approved after a step: it was before, or this decision has approved it.
data Approval (db db' : Tables) (uuid : String) (row : RequestRow) : Type 0 where
  earlier :
      (old : RequestRow)
      → find_request uuid db.requests ≡ some old
      → old.status ≡ "approved"
      → IsLater old row
      → Approval db db' uuid row
  just_now :
      (old : RequestRow)
      → find_request uuid db.requests ≡ some old
      → old.status ≡ "pending"
      → row ≡ with_status "approved" old
      → row.required_approvals ≤ length (voters uuid db'.decisions)
      → Approval db db' uuid row

created-Approval :
    (fresh : String) (now : ℕ) (input : ApprovalRequestInput) (r : ApprovalRequest)
    (db db' : Tables) (uuid : String) (row : RequestRow)
    → create_approval_request fresh now input db ≡ ok (r, db')
    → find_request uuid db'.requests ≡ some row
    → row.status ≡ "approved"
    → Approval db db' uuid row
created-Approval fresh now input r db db' uuid row h f a =
    let (absent, er, _) = create_approval_request-parts fresh now input db db' r h in
    let new = request_row fresh now input in
    let k = rw (er, find_request-append uuid db.requests new) at f in
    elim (Option-cases (find_request uuid db.requests)) [
      | inr (old, g) ↦
          let same : old ≡ row = some-injective _ _ (rw g at k) in
          Approval.earlier old g (ap (λ (z : RequestRow). z.status) same ∙ a) (inl (sym same))
      | inl g ↦ absurd (ground (arith, eq_iff "pending" "approved"))
    ]

decided-Approval :
    (now : ℕ) (on staff decision comment : String) (r : ApprovalRequest) (db db' : Tables)
    (uuid : String) (row : RequestRow)
    → record_approval_decision now on staff decision comment db ≡ ok (r, db')
    → find_request uuid db'.requests ≡ some row
    → row.status ≡ "approved"
    → Approval db db' uuid row
decided-Approval now on staff decision comment r db db' uuid row h f a =
    let (asked, decided, g, pending, self, inserted, e) =
      record_approval_decision-parts now on staff decision comment db db' r h in
    let (ed, er) =
      insert_decision-parts (decision_row now on staff decision comment) db decided inserted in
    let status = new_status decided on asked.required_approvals decision in
    let (old, k, state) =
      close_request-cases on status uuid decided row
        (subst (λ (z : Tables). find_request uuid z.requests ≡ some row) e f) in
    let before : find_request uuid db.requests ≡ some old =
      subst (λ z. find_request uuid z ≡ some old) er k in
    elim state [
      | inl same ↦
          Approval.earlier old before (ap (λ (z : RequestRow). z.status) (sym same) ∙ a) (inl same)
      | inr (q, closed) ↦
          let is : asked ≡ old =
            some-injective _ _ (sym g ∙ ap (λ z. find_request z db.requests) q ∙ before) in
          let now_approved : status ≡ "approved" =
            ap (λ (z : RequestRow). z.status) (sym closed) ∙ a in
          let enough =
            new_status-quorum decided on asked.required_approvals decision now_approved in
          let ds : db'.decisions ≡ decided.decisions =
            ap (λ (z : Tables). z.decisions) e ∙ close_request-decisions on status decided in
          let same_required : row.required_approvals ≡ asked.required_approvals =
            ap (λ (z : RequestRow). z.required_approvals)
              (closed ∙ ap (with_status status) (sym is)) in
          Approval.just_now old before (subst (λ (z : RequestRow). z.status ≡ "pending") is pending)
            (closed ∙ ap (λ s. with_status s old) now_approved)
            (subst (λ z. row.required_approvals ≤ length (voters uuid z)) (sym ds)
              (subst (λ n. n ≤ length (voters uuid decided.decisions)) (sym same_required)
                (subst (λ z. asked.required_approvals ≤ length (voters z decided.decisions)) q
                  enough)))
    ]

step-Approval :
    (db db' : Tables) (uuid : String) (row : RequestRow)
    → Step db db'
    → find_request uuid db'.requests ≡ some row
    → row.status ≡ "approved"
    → Approval db db' uuid row
step-Approval db db' uuid row (Step.create fresh now input r h) f a =
    created-Approval fresh now input r db db' uuid row h f a
step-Approval db db' uuid row (Step.decide now on staff decision comment r h) f a =
    decided-Approval now on staff decision comment r db db' uuid row h f a
step-Approval db db' uuid row (Step.remove_staff staff h) f a =
    let (old, g, e) = forgotten-request staff uuid db.requests row (
      subst (λ (z : Tables). find_request uuid z.requests ≡ some row)
        (sym (delete_staff-state staff db db' h)) f) in
    Approval.earlier old g (ap (λ (z : RequestRow). z.status) (sym e) ∙ a)
      (subst (IsLater old) (sym e) (forget_requester-IsLater staff old))
step-Approval db db' uuid row (Step.remove_target target h) f a =
    let (_, g) = kept-request target uuid db row (
      subst (λ (z : Tables). find_request uuid z.requests ≡ some row)
        (sym (delete_target-state target db db' h)) f) in
    Approval.earlier row g a (inl refl)
step-Approval db db' uuid row (Step.elsewhere er ed) f a =
    Approval.earlier row (subst (λ z. find_request uuid z ≡ some row) er f) a (inl refl)

-- In every history, a request that is approved was approved by a decision that found it pending and left
-- it with as many votes as it requires, of members of staff who were all different and none of whom had
-- asked for it; since then nothing of it has changed but that its requester may have been deleted.
pub reach-quorum :
    (db : Tables) (uuid : String) (row : RequestRow)
    → Reach db
    → find_request uuid db.requests ≡ some row
    → row.status ≡ "approved"
    → WasApproved db uuid row
unfolding find_request
reach-quorum db uuid row (Reach.start _ er ed) f a = absurd (let k = rw er at f in cc)
reach-quorum db uuid row (Reach.next {db = mid} r s) f a =
    elim (step-Approval mid db uuid row s f a) [
      | Approval.earlier old g b later ↦
          let w = reach-quorum mid uuid old r g b in
          record {
            before = w.before;
            after = w.after;
            reached = w.reached;
            decided = w.decided;
            later = Steps.then_step w.later s;
            pending = w.pending;
            was_pending = w.was_pending;
            status = w.status;
            is_approved = w.is_approved;
            quorum = w.quorum;
            is_later = IsLater-trans (with_status "approved" w.pending) old row w.is_later later;
          }
      | Approval.just_now old g p e enough ↦
          let votes = votes-of_IsSound db uuid row (step-IsSound mid db s (reach-IsFair mid r)) f in
          record {
            before = mid;
            after = db;
            reached = r;
            decided = s;
            later = Steps.none_yet;
            pending = old;
            was_pending = g;
            status = p;
            is_approved = f ∙ ap some e;
            quorum = record {
              enough =
                  subst (λ n. n ≤ length (voters uuid db.decisions))
                    (ap (λ (z : RequestRow). z.required_approvals) e) enough;
              distinct = voters-IsDistinct uuid db.decisions;
              votes =
                  subst (λ o. All (IsVote db uuid o) (voters uuid db.decisions))
                    (ap (λ (z : RequestRow). z.requested_by) e) votes;
            };
            is_later = inl e;
          }
    ]
