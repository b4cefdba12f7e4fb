-- ===== src/Draft/Shown.antt =====
-- What the operations of internal/repo/collectiondraft.go do to the drafts of the other owners, and
-- what a decider is shown.
use opentea.Prelude.{
  ℕ, ◌+◌, ◌*◌, ◌/◌, String, ◌≡◌, refl, ap, ◌∙◌, true, false, not, some, ◌++◌, map, arith, eq_iff,
  filter, ok, Option-cases, inl, inr,
}
use opentea.Repo.Database.{DraftRow, Database, Collection, EvidenceBundle}
use opentea.Collections.{
  CollectionInput, reason_of, create_collection, create_collection_for_product_release,
  create_collection_for_component_release, belongs_to_product_release, belongs_to_component_release,
}
use opentea.Evidence.{EvidenceBundleInput, create_evidence_bundle, store_bundle}
use opentea.Draft.{
  CollectionDraft, owned_by, find_draft, fetch_draft_row, artifact_owned_by, draft_refs,
  list_draft_artifacts, get_collection_draft,
}
use opentea.Draft.Operations.{
  PutInput, put_collection_draft, draft_row, upsert_draft, draft_artifact, millisecond, Decide,
  decide_collection_draft, decided_row, prepare_collection_commit, locked_row,
  cancel_prepare_collection_commit, unlocked_row, delete_collection_draft,
}
use opentea.Draft.Effects.{
  put_collection_draft-drafts, decide_collection_draft-drafts, prepare_collection_commit-drafts,
  cancel_prepare_collection_commit-drafts, delete_collection_draft-drafts,
}
use opentea.Draft.Publish.{CommitEvidenceInput, input_of, create_for, commit_collection_draft}
use opentea.Draft.Committed.{commit_collection_draft-parts, commit_collection_draft-drafts}
use opentea.Draft.Frames.{
  same_key, find_draft-update_draft_other, find_draft-filter_other, find_draft-append_other,
  draft_refs-filter_other, draft_refs-append_other,
}

-- The draft of an owner, its row and its references, is the same in two states.
pub record Untouched (a b : String) (db db' : Database) : Type 0 where
  pub row : find_draft a b db'.drafts ≡ find_draft a b db.drafts
  pub refs : draft_refs a b db'.draft_artifacts ≡ draft_refs a b db.draft_artifacts

module _ (clock : ℕ → ℕ) (t u : String) (db db' : Database) where
  put_collection_draft-draft_artifacts :
      (input : PutInput) {v : CollectionDraft}
      → put_collection_draft clock t u input db ≡ ok (v, db')
      → db'.draft_artifacts
        ≡ filter (λ row. not (artifact_owned_by t u row)) db.draft_artifacts
          ++ map (draft_artifact t u) input.artifacts
  unfolding put_collection_draft
  put_collection_draft-draft_artifacts input h = ground arith

  -- A decision returns the draft as it then is, and leaves its references.
  pub decide_collection_draft-shown :
      (d : Decide) {v : CollectionDraft}
      → decide_collection_draft clock t u d db ≡ ok (v, db')
      → (db'.draft_artifacts ≡ db.draft_artifacts) × (get_collection_draft db' t u ≡ ok v)
  unfolding decide_collection_draft fetch_draft_row
  decide_collection_draft-shown d h = ground arith

  pub cancel_prepare_collection_commit-draft_artifacts :
      {x : Unit {0}}
      → cancel_prepare_collection_commit clock t u db ≡ ok (x, db')
      → db'.draft_artifacts ≡ db.draft_artifacts
  unfolding cancel_prepare_collection_commit
  cancel_prepare_collection_commit-draft_artifacts h = ground arith

  delete_collection_draft-draft_artifacts :
      {x : Unit {0}}
      → delete_collection_draft t u db ≡ ok (x, db')
      → db'.draft_artifacts ≡ filter (λ row. not (artifact_owned_by t u row)) db.draft_artifacts
  unfolding delete_collection_draft
  delete_collection_draft-draft_artifacts h = ground arith

store_bundle-draft_artifacts :
    (fresh : String) (input : EvidenceBundleInput) (db db' : Database) {b : EvidenceBundle}
    → store_bundle fresh input db ≡ ok (b, db')
    → db'.draft_artifacts ≡ db.draft_artifacts
unfolding store_bundle
store_bundle-draft_artifacts fresh input db db' h = ground arith

create_evidence_bundle-draft_artifacts :
    (fresh : String) (input : EvidenceBundleInput) (db db' : Database) {b : EvidenceBundle}
    → create_evidence_bundle fresh input db ≡ ok (b, db')
    → db'.draft_artifacts ≡ db.draft_artifacts
unfolding create_evidence_bundle
create_evidence_bundle-draft_artifacts fresh input db db' h =
    ground (arith, store_bundle-draft_artifacts fresh input db db')

create_collection-draft_artifacts :
    (db db' : Database) (now : ℕ) (owner belongs : String) (input : CollectionInput)
    {c : Collection}
    → create_collection db now owner belongs input ≡ ok (c, db')
    → db'.draft_artifacts ≡ db.draft_artifacts
unfolding create_collection
create_collection-draft_artifacts db db' now owner belongs input h = ground arith

create_for-draft_artifacts :
    (db db' : Database) (now : ℕ) (t u : String) (input : CollectionInput) {c : Collection}
    → create_for now t u input db ≡ ok (c, db')
    → db'.draft_artifacts ≡ db.draft_artifacts
unfolding create_for create_collection_for_product_release create_collection_for_component_release
create_for-draft_artifacts db db' now t u input {c} h = ground (
  arith,
  create_collection-draft_artifacts db db' now u belongs_to_product_release input {c = c},
  create_collection-draft_artifacts db db' now u belongs_to_component_release input {c = c},
)

commit_collection_draft-draft_artifacts :
    (clock : ℕ → ℕ) (t u : String) (db db' : Database) (fresh : String)
    (evidence : CommitEvidenceInput) {c : Collection}
    → commit_collection_draft clock fresh t u evidence db ≡ ok (c, db')
    → db'.draft_artifacts ≡ filter (λ row. not (artifact_owned_by t u row)) db.draft_artifacts
commit_collection_draft-draft_artifacts clock t u db db' fresh evidence h =
    let (w, _, created, made, _, b, stored, kept, e) =
      commit_collection_draft-parts clock t u db db' fresh evidence h in
    let same : stored.draft_artifacts ≡ db.draft_artifacts =
      create_evidence_bundle-draft_artifacts fresh _ created stored kept
      ∙ create_for-draft_artifacts db created (clock 3) t u (input_of w) made in
    rw (e, same) refl

-- What the draft that is returned shows.
pub record Shows (db : Database) (t u : String) (row : DraftRow) (v : CollectionDraft)
    : Type 0 where
  pub found : find_draft t u db.drafts ≡ some row
  pub artifacts : v.artifacts ≡ draft_refs t u db.draft_artifacts
  pub update_reason : v.update_reason ≡ reason_of row.update_reason_type row.update_reason_comment
  pub drafted_by : v.drafted_by ≡ row.drafted_by
  pub revision : v.revision ≡ row.revision

pub get_collection_draft-Shows :
    (db : Database) (t u : String) (v : CollectionDraft)
    → get_collection_draft db t u ≡ ok v
    → (row : DraftRow) × Shows db t u row v
unfolding get_collection_draft fetch_draft_row list_draft_artifacts
get_collection_draft-Shows db t u v h = elim (Option-cases (find_draft t u db.drafts)) [
  | inl n ↦ absurd (ground arith)
  | inr (row, f) ↦
      let shown : Shows db t u row v = record {
        found = f;
        artifacts = ground arith;
        update_reason = ground arith;
        drafted_by = ground arith;
        revision = ground arith;
      } in
      (row, shown)
]

module _ (clock : ℕ → ℕ) (t u : String) (db db' : Database) (a b : String)
    (other : same_key a b t u ≡ false) where
  draft_row-owned_by :
      (input : PutInput) (revision created_at now : ℕ)
      → owned_by t u (draft_row t u input revision created_at now) ≡ true
  unfolding draft_row
  draft_row-owned_by input revision created_at now = ground (arith, eq_iff t t, eq_iff u u)

  pub put_collection_draft-Untouched :
      (input : PutInput) {v : CollectionDraft}
      → put_collection_draft clock t u input db ≡ ok (v, db')
      → Untouched a b db db'
  unfolding upsert_draft
  put_collection_draft-Untouched input h =
      let (_, _, e) = put_collection_draft-drafts clock t u db db' input h in
      let refs = put_collection_draft-draft_artifacts clock t u db db' input h in
      record {
        row = ap (find_draft a b) e ∙ elim (Option-cases (find_draft t u db.drafts)) [
          | inl f ↦
              rw (f, upsert_draft)
                (find_draft-append_other a b t u other db.drafts _
                  (draft_row-owned_by input 1 (clock 2 / millisecond * millisecond) (clock 1)))
          | inr (old, f) ↦
              rw (f, upsert_draft)
                (find_draft-update_draft_other a b t u other _ db.drafts
                  (λ x o. draft_row-owned_by input (old.revision + 1) x.created_at (clock 1)))
        ];
        refs =
            ap (draft_refs a b) refs
            ∙ draft_refs-append_other a b t u other _ input.artifacts
            ∙ draft_refs-filter_other a b t u other db.draft_artifacts;
      }

  pub decide_collection_draft-Untouched :
      (d : Decide) {v : CollectionDraft}
      → decide_collection_draft clock t u d db ≡ ok (v, db')
      → Untouched a b db db'
  unfolding decided_row
  decide_collection_draft-Untouched d h =
      let (row, _, _, _, e) = decide_collection_draft-drafts clock t u db db' d h in
      record {
        row =
            ap (find_draft a b) e
            ∙ find_draft-update_draft_other a b t u other (decided_row d clock row.revision)
                db.drafts (λ x o. o);
        refs = ap (draft_refs a b) (decide_collection_draft-shown clock t u db db' d h).0;
      }

  pub prepare_collection_commit-Untouched :
      (lock_ttl : ℕ) {c : Collection}
      → prepare_collection_commit clock t u lock_ttl db ≡ ok (c, db')
      → Untouched a b db db'
  unfolding locked_row
  prepare_collection_commit-Untouched lock_ttl {c} h =
      let (_, e) = prepare_collection_commit-drafts clock t u db db' lock_ttl h in
      rw e (record {
        row =
            find_draft-update_draft_other a b t u other (locked_row clock lock_ttl c.created_date)
              db.drafts (λ x o. o);
        refs = refl;
      })

  pub cancel_prepare_collection_commit-Untouched :
      {x : Unit {0}}
      → cancel_prepare_collection_commit clock t u db ≡ ok (x, db')
      → Untouched a b db db'
  cancel_prepare_collection_commit-Untouched h = record {
    row =
        ap (find_draft a b) (cancel_prepare_collection_commit-drafts clock t u db db' h)
        ∙ find_draft-update_draft_other a b t u other unlocked_row db.drafts (λ x o. o);
    refs =
        ap (draft_refs a b) (cancel_prepare_collection_commit-draft_artifacts clock t u db db' h);
  }

  removed-Untouched :
      db'.drafts ≡ filter (λ row. not (owned_by t u row)) db.drafts
      → db'.draft_artifacts ≡ filter (λ row. not (artifact_owned_by t u row)) db.draft_artifacts
      → Untouched a b db db'
  removed-Untouched e refs = record {
    row = ap (find_draft a b) e ∙ find_draft-filter_other a b t u other db.drafts;
    refs = ap (draft_refs a b) refs ∙ draft_refs-filter_other a b t u other db.draft_artifacts;
  }

  pub delete_collection_draft-Untouched :
      {x : Unit {0}} → delete_collection_draft t u db ≡ ok (x, db') → Untouched a b db db'
  delete_collection_draft-Untouched h =
      removed-Untouched (delete_collection_draft-drafts clock t u db db' h)
        (delete_collection_draft-draft_artifacts clock t u db db' h)

  pub commit_collection_draft-Untouched :
      (fresh : String) (evidence : CommitEvidenceInput) {c : Collection}
      → commit_collection_draft clock fresh t u evidence db ≡ ok (c, db')
      → Untouched a b db db'
  commit_collection_draft-Untouched fresh evidence h =
      removed-Untouched (commit_collection_draft-drafts clock t u db db' fresh evidence h)
        (commit_collection_draft-draft_artifacts clock t u db db' fresh evidence h)
