-- ===== src/Draft/Log.antt =====
-- What is committed is what was approved: the history of internal/repo/collectiondraft.go with a log
-- of its decisions.
use opentea.Prelude.{
  ℕ, String, ◌≡◌, ◌≢◌, refl, sym, ap, ◌∙◌, subst, true, false, List, [], ◌∷◌, ok, Memᴰ, Bool-cases,
  inl, inr, map,
}
use opentea.Repo.Database.{Collection, Database}
use opentea.Draft.{CollectionDraft, find_draft, draft_refs}
use opentea.Draft.Effects.{
  prepare_collection_commit-drafts, cancel_prepare_collection_commit-drafts,
  delete_collection_draft-drafts,
}
use opentea.Draft.Committed.{commit_collection_draft-drafts}
use opentea.Draft.WouldBe.{build_would_be_collection-IsBuilt}
use opentea.Draft.Operations.{
  PutInput, put_collection_draft, Decide, decide_collection_draft, prepare_collection_commit,
  locked_row, cancel_prepare_collection_commit, unlocked_row, delete_collection_draft,
}
use opentea.Draft.Publish.{CommitEvidenceInput, commit_collection_draft}
use opentea.Draft.Frames.{same_key, same_key_eq, find_draft-filter}
use opentea.Draft.Shown.{
  cancel_prepare_collection_commit-draft_artifacts, put_collection_draft-Untouched,
  decide_collection_draft-Untouched, prepare_collection_commit-Untouched,
  cancel_prepare_collection_commit-Untouched, delete_collection_draft-Untouched,
  commit_collection_draft-Untouched,
}
use opentea.Collections.{ref_of}
use opentea.Collections.ReadBack.{IsConsistent}
use opentea.Collections.References.{get_artifacts-map-ref_of}
use opentea.Draft.{list_draft_artifacts}
use opentea.Draft.Operations.{peek_collection_draft_commit}
use opentea.Draft.History.{is_approved-status}
use opentea.Draft.Faithful.{commit-peek}
use opentea.Draft.Approved.{
  Decision, IsFaithful, IsFaithful-later, IsFaithful-Untouched, IsFaithful-absent,
  IsFaithful-touched, put_collection_draft-IsFaithful, decide_collection_draft-IsFaithful,
}

-- One transaction that succeeds, and the log after it. The rest of the server touches neither of the
-- two tables of drafts.
pub data Logged (clock : ℕ → ℕ) (log : List Decision) (db db' : Database)
    : List Decision → Type 0 where
  put :
      (t u : String) (input : PutInput) {v : CollectionDraft}
      → put_collection_draft clock t u input db ≡ ok (v, db')
      → Logged clock log db db' log
  decide :
      (t u : String) (d : Decide) {v : CollectionDraft}
      → decide_collection_draft clock t u d db ≡ ok (v, db')
      → Logged clock log db db'
          (record { owner_type = t; owner_uuid = u; decide = d; shown = v } ∷ log)
  prepare :
      (t u : String) (lock_ttl : ℕ) {c : Collection}
      → prepare_collection_commit clock t u lock_ttl db ≡ ok (c, db')
      → Logged clock log db db' log
  cancel :
      (t u : String) {x : Unit {0}}
      → cancel_prepare_collection_commit clock t u db ≡ ok (x, db')
      → Logged clock log db db' log
  delete :
      (t u : String) {x : Unit {0}}
      → delete_collection_draft t u db ≡ ok (x, db')
      → Logged clock log db db' log
  commit :
      (t u : String) (fresh : String) (evidence : CommitEvidenceInput) {c : Collection}
      → commit_collection_draft clock fresh t u evidence db ≡ ok (c, db')
      → Logged clock log db db' log
  elsewhere :
      db'.drafts ≡ db.drafts
      → db'.draft_artifacts ≡ db.draft_artifacts
      → Logged clock log db db' log

pub data History : List Decision → Database → Type 0 where
  begin : (db : Database) → db.drafts ≡ [] → History [] db
  next :
      (clock : ℕ → ℕ) {log log' : List Decision} {db db' : Database}
      → History log db
      → Logged clock log db db' log'
      → History log' db'

-- A step on `t u`, for the owner `a b`: its own or another.
by_owner :
    {log : List Decision} {db : Database} (a b t u : String)
    → IsFaithful log t u db
    → (same_key a b t u ≡ false → IsFaithful log a b db)
    → IsFaithful log a b db
by_owner {log} {db} a b t u own other = elim (Bool-cases (same_key a b t u)) [
  | inl e ↦
      let (p, q) = same_key_eq a b t u e in
      subst (λ z. IsFaithful log z b db) (sym p) (subst (λ z. IsFaithful log t z db) (sym q) own)
  | inr e ↦ other e
]

Logged-IsFaithful :
    (clock : ℕ → ℕ) (log log' : List Decision) (db db' : Database)
    → Logged clock log db db' log'
    → ((a b : String) → IsFaithful log a b db)
    → (a b : String) → IsFaithful log' a b db'
Logged-IsFaithful clock log log' db db' (Logged.put t u input h) f a b =
    by_owner a b t u (put_collection_draft-IsFaithful clock t u db db' log input h) (λ o.
      IsFaithful-Untouched (put_collection_draft-Untouched clock t u db db' a b o input h) (f a b))
Logged-IsFaithful clock log log' db db' (Logged.decide t u d h) f a b =
    by_owner a b t u (decide_collection_draft-IsFaithful clock t u db db' log d h) (λ o.
      IsFaithful-later _ (
        IsFaithful-Untouched (decide_collection_draft-Untouched clock t u db db' a b o d h)
          (f a b)))
Logged-IsFaithful clock log log' db db' (Logged.prepare t u lock_ttl {c} h) f a b =
    let (_, e) = prepare_collection_commit-drafts clock t u db db' lock_ttl h in
    by_owner a b t u
      (unfold locked_row in
        IsFaithful-touched (locked_row clock lock_ttl c.created_date)
          (λ row. record { status = refl; update_reason = refl; revision = refl })
          (λ x o. (refl, refl)) (ap (λ z. z.drafts) e) (ap (λ z. z.draft_artifacts) e) (f t u))
      (λ o.
        IsFaithful-Untouched (prepare_collection_commit-Untouched clock t u db db' a b o lock_ttl h)
          (f a b))
Logged-IsFaithful clock log log' db db' (Logged.cancel t u h) f a b =
    by_owner a b t u
      (IsFaithful-touched unlocked_row
        (λ row. record { status = refl; update_reason = refl; revision = refl })
        (λ x o. (refl, refl)) (cancel_prepare_collection_commit-drafts clock t u db db' h)
        (cancel_prepare_collection_commit-draft_artifacts clock t u db db' h) (f t u))
      (λ o.
        IsFaithful-Untouched (cancel_prepare_collection_commit-Untouched clock t u db db' a b o h)
          (f a b))
Logged-IsFaithful clock log log' db db' (Logged.delete t u h) f a b =
    by_owner a b t u
      (IsFaithful-absent (
        ap (find_draft t u) (delete_collection_draft-drafts clock t u db db' h)
        ∙ find_draft-filter t u db.drafts))
      (λ o.
        IsFaithful-Untouched (delete_collection_draft-Untouched clock t u db db' a b o h) (f a b))
Logged-IsFaithful clock log log' db db' (Logged.commit t u fresh evidence h) f a b =
    by_owner a b t u
      (IsFaithful-absent (
        ap (find_draft t u) (commit_collection_draft-drafts clock t u db db' fresh evidence h)
        ∙ find_draft-filter t u db.drafts))
      (λ o.
        IsFaithful-Untouched
          (commit_collection_draft-Untouched clock t u db db' a b o fresh evidence h) (f a b))
Logged-IsFaithful clock log log' db db' (Logged.elsewhere e refs) f a b =
    IsFaithful-Untouched (record { row = ap (find_draft a b) e; refs = ap (draft_refs a b) refs })
      (f a b)

History-IsFaithful :
    (log : List Decision) (db : Database) → History log db → (a b : String) → IsFaithful log a b db
History-IsFaithful log db (History.begin _ e) a b =
    IsFaithful-absent (ap (find_draft a b) e ∙ unfold find_draft in refl)
History-IsFaithful log db (History.next clock {log = before} {db = old} r s) a b =
    Logged-IsFaithful clock before log old db s (History-IsFaithful before old r) a b

-- What is committed is what was approved: where the references of `collection_artifact` are good, the
-- artifacts and the reason of a collection that is committed are those that the draft showed when, at
-- some time before, somebody other than its drafter approved it.
pub commit_collection_draft-approved :
    (log : List Decision) (db db' : Database) (clock : ℕ → ℕ) (t u fresh : String)
    (evidence : CommitEvidenceInput) (c : Collection)
    → IsConsistent db
    → History log db
    → commit_collection_draft clock fresh t u evidence db ≡ ok (c, db')
    → (x : Decision) × Memᴰ x log
      × ((x.owner_type ≡ t) × (x.owner_uuid ≡ u))
      × ((x.decide.approve ≡ true) × (x.decide.actor ≢ x.shown.drafted_by))
      × ((map ref_of c.artifacts ≡ x.shown.artifacts) × (c.update_reason ≡ x.shown.update_reason))
unfolding peek_collection_draft_commit list_draft_artifacts
commit_collection_draft-approved log db db' clock t u fresh evidence c con history h =
    let built = commit-peek clock t u fresh evidence db c db' con h in
    let (row, is) = build_would_be_collection-IsBuilt clock db t u true built in
    let seen =
      (History-IsFaithful log db history t u).seen row is.found
        (is_approved-status row (clock 1) is.approved) in
    let (refs, _) =
      get_artifacts-map-ref_of db.artifacts (draft_refs t u db.draft_artifacts) c.artifacts
        is.resolved in
    (
      seen.decision,
      seen.logged,
      seen.owner,
      (seen.approves, seen.by_other),
      (refs ∙ sym seen.artifacts, is.reasoned ∙ sym seen.update_reason),
    )
