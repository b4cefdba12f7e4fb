-- ===== src/Draft/Effects.antt =====
-- What a successful operation of internal/repo/collectiondraft.go does to the `collection_draft`
-- table, and what it required.
use opentea.Prelude.{ℕ, String, ◌≡◌, true, false, not, some, arith, filter, ok}
use opentea.Repo.Database.{DraftRow, Database, Collection}
use opentea.Draft.{CollectionDraft, owned_by, find_draft, fetch_draft_row, update_draft, lock_held}
use opentea.Draft.Operations.{
  PutInput, put_collection_draft, is_locked, expects, current_revision, upsert_draft, Decide,
  decide_collection_draft, is_self_approval, decided_row, build_would_be_collection,
  prepare_collection_commit, locked_row, cancel_prepare_collection_commit, unlocked_row,
  delete_collection_draft,
}

module _ (clock : ℕ → ℕ) (t u : String) (db db' : Database) where
  pub put_collection_draft-drafts :
      (input : PutInput) {v : CollectionDraft}
      → put_collection_draft clock t u input db ≡ ok (v, db')
      → (is_locked (find_draft t u db.drafts) (clock 0) ≡ false)
        × (expects input.expected_revision (current_revision (find_draft t u db.drafts)) ≡ true)
        × (db'.drafts ≡ upsert_draft t u input clock (find_draft t u db.drafts) db.drafts)
  unfolding put_collection_draft
  put_collection_draft-drafts input h = ground arith

  pub decide_collection_draft-drafts :
      (d : Decide) {v : CollectionDraft}
      → decide_collection_draft clock t u d db ≡ ok (v, db')
      → (row : DraftRow) × (find_draft t u db.drafts ≡ some row)
        × (lock_held row (clock 0) ≡ false)
        × (is_self_approval d row ≡ false)
        × (db'.drafts ≡ update_draft t u (decided_row d clock row.revision) db.drafts)
  unfolding decide_collection_draft fetch_draft_row
  decide_collection_draft-drafts d h = ground arith

  pub prepare_collection_commit-drafts :
      (lock_ttl : ℕ) {c : Collection}
      → prepare_collection_commit clock t u lock_ttl db ≡ ok (c, db')
      → (build_would_be_collection clock db t u false ≡ ok c)
        × (db' ≡ record db {
          drafts = update_draft t u (locked_row clock lock_ttl c.created_date) db.drafts;
        })
  unfolding prepare_collection_commit
  prepare_collection_commit-drafts lock_ttl h = ground arith

  pub cancel_prepare_collection_commit-drafts :
      {x : Unit {0}}
      → cancel_prepare_collection_commit clock t u db ≡ ok (x, db')
      → db'.drafts ≡ update_draft t u unlocked_row db.drafts
  unfolding cancel_prepare_collection_commit
  cancel_prepare_collection_commit-drafts h = ground arith

  pub delete_collection_draft-drafts :
      {x : Unit {0}}
      → delete_collection_draft t u db ≡ ok (x, db')
      → db'.drafts ≡ filter (λ row. not (owned_by t u row)) db.drafts
  unfolding delete_collection_draft
  delete_collection_draft-drafts h = ground arith
