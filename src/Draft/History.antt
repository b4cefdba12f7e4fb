-- ===== src/Draft/History.antt =====
-- The drafts over the life of a server: every operation of internal/repo/collectiondraft.go that
-- writes, in any order and for any owners, and the rest of the server, which does not touch the
-- `collection_draft` table.
use opentea.Prelude.{
  ℕ, String, ◌≡◌, ◌≢◌, refl, sym, subst, true, false, Option, none, some, [], arith, eq_iff, ok,
}
use opentea.Repo.{sql_eq}
use opentea.Repo.Database.{Collection, DraftRow, Database}
use opentea.Collections.{get_artifacts}
use opentea.Draft.{CollectionDraft, find_draft, list_draft_artifacts}
use opentea.Draft.Operations.{
  PutInput, put_collection_draft, Decide, decide_collection_draft, prepare_collection_commit,
  cancel_prepare_collection_commit, delete_collection_draft, is_approved,
}
use opentea.Draft.Publish.{CommitEvidenceInput, commit_collection_draft}
use opentea.Draft.FourEyes.{
  IsSound, IsVetted-found, put_collection_draft-IsSound, decide_collection_draft-IsSound,
  prepare_collection_commit-IsSound, cancel_prepare_collection_commit-IsSound,
  delete_collection_draft-IsSound, commit_collection_draft-IsSound,
}
use opentea.Draft.Committed.{commit_collection_draft-parts}
use opentea.Draft.WouldBe.{build_would_be_collection-IsBuilt}

-- One transaction that succeeds.
pub data Step (clock : ℕ → ℕ) (db db' : Database) : Type 0 where
  put :
      (t u : String) (input : PutInput) {v : CollectionDraft}
      → put_collection_draft clock t u input db ≡ ok (v, db')
      → Step clock db db'
  decide :
      (t u : String) (d : Decide) {v : CollectionDraft}
      → decide_collection_draft clock t u d db ≡ ok (v, db')
      → Step clock db db'
  prepare :
      (t u : String) (lock_ttl : ℕ) {c : Collection}
      → prepare_collection_commit clock t u lock_ttl db ≡ ok (c, db')
      → Step clock db db'
  cancel :
      (t u : String) {x : Unit {0}}
      → cancel_prepare_collection_commit clock t u db ≡ ok (x, db')
      → Step clock db db'
  delete :
      (t u : String) {x : Unit {0}}
      → delete_collection_draft t u db ≡ ok (x, db')
      → Step clock db db'
  commit :
      (t u : String) (fresh : String) (evidence : CommitEvidenceInput) {c : Collection}
      → commit_collection_draft clock fresh t u evidence db ≡ ok (c, db')
      → Step clock db db'
  elsewhere : db'.drafts ≡ db.drafts → Step clock db db'

pub data Reach : Database → Type 0 where
  start : (db : Database) → db.drafts ≡ [] → Reach db
  next : (clock : ℕ → ℕ) {db db' : Database} → Reach db → Step clock db db' → Reach db'

step-IsSound :
    (clock : ℕ → ℕ) (db db' : Database) → Step clock db db' → IsSound db.drafts → IsSound db'.drafts
step-IsSound clock db db' (put t u input h) s =
    put_collection_draft-IsSound clock t u db db' s input h
step-IsSound clock db db' (decide t u d h) s =
    decide_collection_draft-IsSound clock t u db db' s d h
step-IsSound clock db db' (prepare t u lock_ttl h) s =
    prepare_collection_commit-IsSound clock t u db db' s lock_ttl h
step-IsSound clock db db' (cancel t u h) s =
    cancel_prepare_collection_commit-IsSound clock t u db db' s h
step-IsSound clock db db' (delete t u h) s = delete_collection_draft-IsSound clock t u db db' s h
step-IsSound clock db db' (commit t u fresh evidence h) s =
    commit_collection_draft-IsSound clock t u db db' s fresh evidence h
step-IsSound clock db db' (elsewhere e) s = subst IsSound (sym e) s

-- In every history the drafts are one for each owner, and each approval is by another than the
-- drafter, where both credentials are recorded with another credential, and of the present revision.
pub reach-IsSound : (db : Database) → Reach db → IsSound db.drafts
reach-IsSound db (start _ e) = subst IsSound (sym e) (record { keyed = tt; vetted = tt })
reach-IsSound db (next clock {db = before} r s) =
    step-IsSound clock before db s (reach-IsSound before r)

-- Somebody else than the drafter approved the present revision, and the approval is not over.
pub record IsApprovedByOther (db : Database) (t u : String) (now : ℕ) (row : DraftRow)
    : Type 0 where
  pub found : find_draft t u db.drafts ≡ some row
  pub decider : (a : String) × (row.approval_decided_by ≡ some a) × (a ≢ row.drafted_by)
  pub credential :
      sql_eq row.approval_decided_by_credential_uuid row.drafted_by_credential_uuid ≡ false
  pub current : row.approval_decided_at_revision ≡ some row.revision
  pub unexpired : is_approved row now ≡ true

pub is_approved-status :
    (row : DraftRow) (now : ℕ) → is_approved row now ≡ true → row.approval_status ≡ "approved"
unfolding is_approved
is_approved-status row now h = ground (arith, eq_iff row.approval_status "approved")

sql_eq-false : (a b : Option String) → ((c : String) → a ≡ some c → b ≢ some c) → sql_eq a b ≡ false
sql_eq-false none b h = refl
sql_eq-false (some a) none h = refl
sql_eq-false (some a) (some b) h = ground (arith, eq_iff a b, h a refl)

-- In every history, a draft that is committed was approved by somebody other than its drafter, where
-- both credentials are recorded with another credential, at the revision that is committed; and the
-- artifacts that the collection is made of are those that the draft's references resolve to.
pub commit_collection_draft-IsApprovedByOther :
    (db db' : Database) (clock : ℕ → ℕ) (t u fresh : String) (evidence : CommitEvidenceInput)
    (c : Collection)
    → Reach db
    → commit_collection_draft clock fresh t u evidence db ≡ ok (c, db')
    → (row : DraftRow) × IsApprovedByOther db t u (clock 1) row
      × (w : Collection) × (get_artifacts db.artifacts (list_draft_artifacts db t u)
          ≡ ok w.artifacts)
      × ((c.version ≡ w.version) × (c.created_date ≡ w.created_date))
commit_collection_draft-IsApprovedByOther db db' clock t u fresh evidence c reach h =
    let (w, built, _, _, same, _, _, _, _) =
      commit_collection_draft-parts clock t u db db' fresh evidence h in
    let (row, is) = build_would_be_collection-IsBuilt clock db t u true built in
    let vetted = IsVetted-found t u db.drafts (reach-IsSound db reach) is.found in
    let e = is_approved-status row (clock 1) is.approved in
    (
      row,
      record {
        found = is.found;
        decider = vetted.decider e;
        credential =
            sql_eq-false row.approval_decided_by_credential_uuid row.drafted_by_credential_uuid
              (vetted.credential e);
        current = vetted.current e;
        unexpired = is.approved;
      },
      w,
      is.resolved,
      same,
    )
