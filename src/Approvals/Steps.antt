-- ===== src/Approvals/Steps.antt =====
-- The histories of the publisher's approvals (internal/openteapublisher): requests made and decided,
-- members of staff and targets deleted, and all writes of other tables.
use opentea.Prelude.{ℕ, String, ◌≡◌, sym, ap, ◌∙◌, subst, some, [], All, All-mem, All-of_mem, ok}
use opentea.Approvals.{
  Tables, ApprovalRequest, ApprovalRequestInput, find_request, create_approval_request,
  record_approval_decision,
}
use opentea.Approvals.Deletions.{delete_staff, delete_target}
use opentea.Approvals.Deleted.{
  delete_staff-state, delete_target-state, without_staff-IsSound, without_target-IsSound,
}
use opentea.Approvals.Fairness.{
  HasRequest, IsFair, IsSound, create_approval_request-IsSound, record_approval_decision-IsSound,
}

-- One transaction.
pub data Step (db db' : Tables) : Type 0 where
  create :
      (fresh : String) (now : ℕ) (input : ApprovalRequestInput) (r : ApprovalRequest)
      → create_approval_request fresh now input db ≡ ok (r, db')
      → Step db db'
  decide :
      (now : ℕ) (uuid staff decision comment : String) (r : ApprovalRequest)
      → record_approval_decision now uuid staff decision comment db ≡ ok (r, db')
      → Step db db'
  remove_staff : (uuid : String) → delete_staff uuid db ≡ ok db' → Step db db'
  remove_target : (uuid : String) → delete_target uuid db ≡ ok db' → Step db db'
  -- Accounts, targets and whatever else: no other code writes the two tables of approvals.
  elsewhere : db'.requests ≡ db.requests → db'.decisions ≡ db.decisions → Step db db'

pub data Steps (db : Tables) : Tables → Type 0 where
  none_yet : Steps db db
  then_step : {mid last_state : Tables} → Steps db mid → Step mid last_state → Steps db last_state

pub data Reach : Tables → Type 0 where
  start : (db : Tables) → db.requests ≡ [] → db.decisions ≡ [] → Reach db
  next : {db db' : Tables} → Reach db → Step db db' → Reach db'

empty-IsSound : (db : Tables) → db.requests ≡ [] → db.decisions ≡ [] → IsSound db
unfolding find_request
empty-IsSound db er ed = record {
  fair = λ uuid row k. absurd (let none_found = rw er at k in cc);
  known = subst (All (HasRequest db)) (sym ed) tt;
}

elsewhere-IsSound :
    (db db' : Tables)
    → db'.requests ≡ db.requests
    → db'.decisions ≡ db.decisions
    → IsSound db
    → IsSound db'
elsewhere-IsSound db db' er ed sound = record {
  fair = λ uuid row k.
      subst (λ z. IsFair z uuid row) (sym ed)
        (sound.fair uuid row (subst (λ z. find_request uuid z ≡ some row) er k));
  known = subst (All (HasRequest db')) (sym ed) (
      All-of_mem (HasRequest db') db.decisions (λ d m.
        let (old, f) = All-mem (HasRequest db) m sound.known in
        (old, ap (find_request d.request_uuid) er ∙ f)));
}

pub step-IsSound : (db db' : Tables) → Step db db' → IsSound db → IsSound db'
step-IsSound db db' (Step.create fresh now input q h) sound =
    create_approval_request-IsSound fresh now input db db' sound q h
step-IsSound db db' (Step.decide now uuid staff decision comment q h) sound =
    record_approval_decision-IsSound now uuid staff decision comment db db' sound q h
step-IsSound db db' (Step.remove_staff uuid h) sound =
    subst IsSound (delete_staff-state uuid db db' h) (without_staff-IsSound uuid db sound)
step-IsSound db db' (Step.remove_target uuid h) sound =
    subst IsSound (delete_target-state uuid db db' h) (without_target-IsSound uuid db sound)
step-IsSound db db' (Step.elsewhere er ed) sound = elsewhere-IsSound db db' er ed sound

pub reach-IsFair : (db : Tables) → Reach db → IsSound db
reach-IsFair db (Reach.start _ er ed) = empty-IsSound db er ed
reach-IsFair db (Reach.next {db = before} r s) = step-IsSound before db s (reach-IsFair before r)
