-- ===== src/Draft/FourEyes.antt =====
-- Maker and checker over the life of a draft (internal/repo/collectiondraft.go): an approval is by
-- someone other than the drafter, and of the draft's present content.
use opentea.Prelude.{
  ℕ, ◌+◌, ◌*◌, ◌/◌, String, ◌≡◌, ◌≢◌, refl, sym, subst, Bool, true, false, some, Option-cases, List,
  [], ◌∷◌, arith, eq_iff, inl, inr, filter, All, All-append, All-mem, ok,
}
use opentea.Repo.{null_if_empty}
use opentea.Repo.Database.{DraftRow, Database, Collection}
use opentea.Draft.{CollectionDraft, owned_by, find_draft, update_draft}
use opentea.Draft.Rows.{
  IsKeyed, owned_by_eq, find_draft-owned_by, find_draft-none, update_draft-absent, All-update_draft,
  update_draft-IsKeyed, All-filter, filter-IsKeyed, append-IsKeyed,
}
use opentea.Draft.Operations.{
  PutInput, put_collection_draft, draft_row, upsert_draft, millisecond, Decide,
  decide_collection_draft, is_self_approval, decided_row, prepare_collection_commit, locked_row,
  unlocked_row, cancel_prepare_collection_commit, delete_collection_draft,
}
use opentea.Draft.Effects.{
  put_collection_draft-drafts, decide_collection_draft-drafts, prepare_collection_commit-drafts,
  cancel_prepare_collection_commit-drafts, delete_collection_draft-drafts,
}
use opentea.Draft.Publish.{CommitEvidenceInput, commit_collection_draft}
use opentea.Draft.Committed.{commit_collection_draft-drafts}

-- An approval on record names a decider who is not the drafter, is not of the drafting credential,
-- and decided on this revision.
pub record IsVetted (row : DraftRow) : Type 0 where
  pub decider :
      row.approval_status ≡ "approved"
      → (a : String) × (row.approval_decided_by ≡ some a) × (a ≢ row.drafted_by)
  pub credential :
      row.approval_status ≡ "approved"
      → (c : String) → row.approval_decided_by_credential_uuid ≡ some c
      → row.drafted_by_credential_uuid ≢ some c
  pub current :
      row.approval_status ≡ "approved" → row.approval_decided_at_revision ≡ some row.revision

none_not_approved : ◌≢◌ {A = String} "none" "approved"
none_not_approved = ground (arith, eq_iff "none" "approved")

draft_row-IsVetted :
    (t u : String) (input : PutInput) (revision created_at now : ℕ)
    → IsVetted (draft_row t u input revision created_at now)
unfolding draft_row
draft_row-IsVetted t u input revision created_at now = record {
  decider = λ e. absurd (none_not_approved e);
  credential = λ e. absurd (none_not_approved e);
  current = λ e. absurd (none_not_approved e);
}

decided_row-IsVetted :
    (d : Decide) (clock : ℕ → ℕ) (row : DraftRow)
    → is_self_approval d row ≡ false
    → IsVetted (decided_row d clock row.revision row)
unfolding decided_row is_self_approval null_if_empty
decided_row-IsVetted d clock row h = record {
  decider = λ e. (d.actor, refl, ground (arith, eq_iff d.actor row.drafted_by));
  credential = λ e c q p.
      ground (arith, eq_iff d.deciding_credential_uuid c, eq_iff d.deciding_credential_uuid "");
  current = λ e. refl;
}

locked_row-IsVetted :
    (clock : ℕ → ℕ) (lock_ttl date : ℕ) {row : DraftRow}
    → IsVetted row
    → IsVetted (locked_row clock lock_ttl date row)
unfolding locked_row
locked_row-IsVetted clock lock_ttl date v = record {
  decider = v.decider;
  credential = v.credential;
  current = v.current;
}

unlocked_row-IsVetted : {row : DraftRow} → IsVetted row → IsVetted (unlocked_row row)
unlocked_row-IsVetted v = record {
  decider = v.decider;
  credential = v.credential;
  current = v.current;
}

-- One row for each owner, each vetted.
pub record IsSound (rows : List DraftRow) : Type 0 where
  pub keyed : IsKeyed rows
  pub vetted : All IsVetted rows

-- The first row of an owner, in a sound table, is vetted.
pub IsVetted-found :
    (t u : String) (rows : List DraftRow) {row : DraftRow}
    → IsSound rows
    → find_draft t u rows ≡ some row
    → IsVetted row
IsVetted-found t u rows s f = All-mem IsVetted (find_draft-owned_by t u rows f).1 s.vetted

module _ (t u : String) (rows : List DraftRow) (sound : IsSound rows) where
  update_draft-IsSound :
      (set : DraftRow → DraftRow) (row : DraftRow)
      → find_draft t u rows ≡ some row
      → ((x : DraftRow)
          → owned_by t u x ≡ true
          → ((set x).owner_type ≡ x.owner_type) × ((set x).owner_uuid ≡ x.owner_uuid))
      → IsVetted (set row)
      → IsSound (update_draft t u set rows)
  update_draft-IsSound set row f same v = record {
    keyed = update_draft-IsKeyed t u set same rows sound.keyed;
    vetted = All-update_draft t u set IsVetted rows row sound.keyed f sound.vetted v;
  }

  upsert_draft-IsSound :
      (input : PutInput) (clock : ℕ → ℕ)
      → IsSound (upsert_draft t u input clock (find_draft t u rows) rows)
  unfolding upsert_draft
  upsert_draft-IsSound input clock = elim (Option-cases (find_draft t u rows)) [
    | inl f ↦
        let new = draft_row t u input 1 (clock 2 / millisecond * millisecond) (clock 1) in
        rw f (record {
          keyed =
              append-IsKeyed rows new (unfold draft_row in find_draft-none t u rows f) sound.keyed;
          vetted =
              All-append IsVetted rows (new ∷ []) sound.vetted (
                draft_row-IsVetted t u input 1 (clock 2 / millisecond * millisecond) (clock 1),
                tt,
              );
        })
    | inr (old, f) ↦ rw f (
        update_draft-IsSound
          (λ row. draft_row t u input (old.revision + 1) row.created_at (clock 1)) old f
          (λ x o. let (p, q) = owned_by_eq x o in unfold draft_row in (sym p, sym q))
          (draft_row-IsVetted t u input (old.revision + 1) old.created_at (clock 1)))
  ]

-- An update that changes the lock only.
touch-IsSound :
    (t u : String) (rows : List DraftRow) (set : DraftRow → DraftRow)
    → IsSound rows
    → ((x : DraftRow) → ((set x).owner_type ≡ x.owner_type) × ((set x).owner_uuid ≡ x.owner_uuid))
    → ((x : DraftRow) → IsVetted x → IsVetted (set x))
    → IsSound (update_draft t u set rows)
touch-IsSound t u rows set sound same keep = elim (Option-cases (find_draft t u rows)) [
  | inl f ↦
      subst IsSound (sym (update_draft-absent t u set rows (find_draft-none t u rows f))) sound
  | inr (row, f) ↦
      update_draft-IsSound t u rows sound set row f (λ x o. same x)
        (keep row (IsVetted-found t u rows sound f))
]

filter-IsSound :
    (p : DraftRow → Bool) (rows : List DraftRow) → IsSound rows → IsSound (filter p rows)
filter-IsSound p rows sound = record {
  keyed = filter-IsKeyed p rows sound.keyed;
  vetted = All-filter IsVetted p rows sound.vetted;
}

module _ (clock : ℕ → ℕ) (t u : String) (db db' : Database) (sound : IsSound db.drafts) where
  pub put_collection_draft-IsSound :
      (input : PutInput) {v : CollectionDraft}
      → put_collection_draft clock t u input db ≡ ok (v, db')
      → IsSound db'.drafts
  put_collection_draft-IsSound input h =
      let (_, _, e) = put_collection_draft-drafts clock t u db db' input h in
      subst IsSound (sym e) (upsert_draft-IsSound t u db.drafts sound input clock)

  pub decide_collection_draft-IsSound :
      (d : Decide) {v : CollectionDraft}
      → decide_collection_draft clock t u d db ≡ ok (v, db')
      → IsSound db'.drafts
  decide_collection_draft-IsSound d h =
      let (row, f, _, other, e) = decide_collection_draft-drafts clock t u db db' d h in
      subst IsSound (sym e) (
        update_draft-IsSound t u db.drafts sound (decided_row d clock row.revision) row f
          (λ x o. unfold decided_row in (refl, refl)) (decided_row-IsVetted d clock row other))

  pub prepare_collection_commit-IsSound :
      (lock_ttl : ℕ) {c : Collection}
      → prepare_collection_commit clock t u lock_ttl db ≡ ok (c, db')
      → IsSound db'.drafts
  prepare_collection_commit-IsSound lock_ttl {c} h =
      let (_, e) = prepare_collection_commit-drafts clock t u db db' lock_ttl h in
      rw e (
        touch-IsSound t u db.drafts (locked_row clock lock_ttl c.created_date) sound
          (λ x. unfold locked_row in (refl, refl))
          (λ x v. locked_row-IsVetted clock lock_ttl c.created_date v))

  pub cancel_prepare_collection_commit-IsSound :
      {x : Unit {0}}
      → cancel_prepare_collection_commit clock t u db ≡ ok (x, db')
      → IsSound db'.drafts
  cancel_prepare_collection_commit-IsSound h =
      subst IsSound (sym (cancel_prepare_collection_commit-drafts clock t u db db' h)) (
        touch-IsSound t u db.drafts unlocked_row sound (λ x. (refl, refl))
          (λ x v. unlocked_row-IsVetted v))

  pub delete_collection_draft-IsSound :
      {x : Unit {0}} → delete_collection_draft t u db ≡ ok (x, db') → IsSound db'.drafts
  delete_collection_draft-IsSound h =
      subst IsSound (sym (delete_collection_draft-drafts clock t u db db' h))
        (filter-IsSound _ db.drafts sound)

  pub commit_collection_draft-IsSound :
      (fresh : String) (evidence : CommitEvidenceInput) {c : Collection}
      → commit_collection_draft clock fresh t u evidence db ≡ ok (c, db')
      → IsSound db'.drafts
  commit_collection_draft-IsSound fresh evidence h =
      subst IsSound (sym (commit_collection_draft-drafts clock t u db db' fresh evidence h))
        (filter-IsSound _ db.drafts sound)
