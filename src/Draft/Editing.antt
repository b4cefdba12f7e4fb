-- ===== src/Draft/Editing.antt =====
-- `PutCollectionDraft` (internal/repo/collectiondraft.go): what is found after it, and what of the draft
-- before it is void.
use opentea.Prelude.{
  ℕ, ◌+◌, ◌*◌, ◌/◌, String, ◌≡◌, sym, some, Option-cases, inl, inr, List, arith, eq_iff, eqb_iff,
  ok, err,
}
use opentea.Repo.{draft_revision_conflict, approval_required}
use opentea.Repo.Database.{DraftRow, Database}
use opentea.Draft.{
  CollectionDraft, find_draft, fetch_draft_row, lock_held, require_release_owner_exists,
  require_artifacts_exist,
}
use opentea.Draft.Rows.{owned_by_eq, find_draft-update_draft, find_draft-append}
use opentea.Draft.Operations.{
  PutInput, put_collection_draft, draft_row, upsert_draft, current_revision, millisecond,
  build_would_be_collection, is_approved, prepare_collection_commit,
}
use opentea.Draft.Effects.{put_collection_draft-drafts}

find_draft-upsert_draft :
    (clock : ℕ → ℕ) (t u : String) (input : PutInput) (rows : List DraftRow)
    → (created_at : ℕ) × (find_draft t u (upsert_draft t u input clock (find_draft t u rows) rows)
        ≡ some
            (draft_row t u input (current_revision (find_draft t u rows) + 1) created_at (clock 1)))
unfolding upsert_draft
find_draft-upsert_draft clock t u input rows = elim (Option-cases (find_draft t u rows)) [
  | inl f ↦
      let created = clock 2 / millisecond * millisecond in
      (
        created,
        rw f (
            find_draft-append t u rows (draft_row t u input 1 created (clock 1))
              (unfold draft_row in ground (arith, eq_iff t t, eq_iff u u)) f),
      )
  | inr (old, f) ↦ (
    old.created_at,
    rw f (
        find_draft-update_draft t u
          (λ row. draft_row t u input (old.revision + 1) row.created_at (clock 1)) rows
          (λ x o. let (p, q) = owned_by_eq x o in unfold draft_row in (sym p, sym q)) f),
  )
]

module _ (clock : ℕ → ℕ) (t u : String) (input : PutInput) (db db' : Database)
    (v : CollectionDraft) where
  -- The row that a put leaves: undecided, not locked, and one revision on.
  pub put_collection_draft-find_draft :
      put_collection_draft clock t u input db ≡ ok (v, db')
      → (created_at : ℕ) × (find_draft t u db'.drafts
          ≡ some (
              draft_row t u input
                (current_revision (find_draft t u db.drafts) + 1)
                created_at
                (clock 1)))
  put_collection_draft-find_draft h =
      let (_, _, e) = put_collection_draft-drafts clock t u db db' input h in
      let (created_at, f) = find_draft-upsert_draft clock t u input db.drafts in
      (created_at, rw e f)

  -- A put voids every approval before it: whatever the draft's row held, a prepare that follows is
  -- answered with `approval_required`, at any time.
  pub put-approval_required :
      (later : ℕ → ℕ) (lock_ttl : ℕ)
      → put_collection_draft clock t u input db ≡ ok (v, db')
      → prepare_collection_commit later t u lock_ttl db' ≡ err approval_required
  unfolding prepare_collection_commit build_would_be_collection fetch_draft_row is_approved
      draft_row
  put-approval_required later lock_ttl h =
      let (created_at, f) = put_collection_draft-find_draft h in
      ground (arith, eq_iff "none" "approved")

  -- Optimistic concurrency: after a put that succeeded, another that was prepared against the same
  -- revision fails with a conflict, whatever it sends, if its owner and artifacts exist.
  pub put-draft_revision_conflict :
      (later : ℕ → ℕ) (other : PutInput) (revision : ℕ)
      → put_collection_draft clock t u input db ≡ ok (v, db')
      → input.expected_revision ≡ some revision
      → other.expected_revision ≡ some revision
      → require_release_owner_exists db' t u ≡ ok tt
      → require_artifacts_exist db' other.artifacts ≡ ok tt
      → put_collection_draft later t u other db' ≡ err draft_revision_conflict
  unfolding put_collection_draft draft_row lock_held
  put-draft_revision_conflict later other revision h mine theirs owner artifacts =
      let (created_at, f) = put_collection_draft-find_draft h in
      let (_, expected, _) = put_collection_draft-drafts clock t u db db' input h in
      ground (arith, eqb_iff revision (current_revision (find_draft t u db.drafts)))
