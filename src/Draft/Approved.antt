-- ===== src/Draft/Approved.antt =====
-- What an approved draft of internal/repo/collectiondraft.go has to do with a log of decisions.
use opentea.Prelude.{
  ℕ, ◌+◌, ◌*◌, ◌/◌, String, Option-cases, ◌≡◌, ◌≢◌, refl, sym, ap, ◌∙◌, subst, true, false, none,
  some, List, ◌∷◌, arith, eq_iff, ok, Memᴰ, Bool-cases, inl, inr,
}
use mathlib.Core.Option.{some-injective}
use opentea.Repo.Database.{ArtifactRef, DraftRow, Database}
use opentea.Collections.{reason_of}
use opentea.Draft.{CollectionDraft, owned_by, find_draft, update_draft, draft_refs}
use opentea.Draft.Rows.{
  find_draft-update_draft, find_draft-append, find_draft-none, update_draft-absent, owned_by_eq,
}
use opentea.Draft.Effects.{put_collection_draft-drafts, decide_collection_draft-drafts}
use opentea.Draft.Operations.{
  PutInput, put_collection_draft, draft_row, upsert_draft, millisecond, Decide,
  decide_collection_draft, is_self_approval, decided_row,
}
use opentea.Draft.Shown.{Untouched, get_collection_draft-Shows, decide_collection_draft-shown}

-- A decision as it is recorded: of whom, on what draft, and the draft that was returned.
pub record Decision : Type 0 where
  pub owner_type : String
  pub owner_uuid : String
  pub decide : Decide
  pub shown : CollectionDraft

-- The log has an approval of this owner's draft that showed these references and this row's reason, at
-- its revision, by another than the drafter.
pub record IsSeen (log : List Decision) (t u : String) (row : DraftRow) (refs : List ArtifactRef)
    : Type 0 where
  pub decision : Decision
  pub logged : Memᴰ decision log
  pub owner : (decision.owner_type ≡ t) × (decision.owner_uuid ≡ u)
  pub approves : decision.decide.approve ≡ true
  pub by_other : decision.decide.actor ≢ decision.shown.drafted_by
  pub artifacts : decision.shown.artifacts ≡ refs
  pub update_reason :
      decision.shown.update_reason ≡ reason_of row.update_reason_type row.update_reason_comment
  pub revision : decision.shown.revision ≡ row.revision

-- The draft of an owner, if it is approved, was seen so.
pub record IsFaithful (log : List Decision) (t u : String) (db : Database) : Type 0 where
  pub seen :
      (row : DraftRow)
      → find_draft t u db.drafts ≡ some row
      → row.approval_status ≡ "approved"
      → IsSeen log t u row (draft_refs t u db.draft_artifacts)

-- More decisions take none away.
IsSeen-later :
    {log : List Decision} {t u : String} {row : DraftRow} {refs : List ArtifactRef} (d : Decision)
    → IsSeen log t u row refs
    → IsSeen (d ∷ log) t u row refs
IsSeen-later d s = record {
  decision = s.decision;
  logged = Memᴰ.tail s.logged;
  owner = s.owner;
  approves = s.approves;
  by_other = s.by_other;
  artifacts = s.artifacts;
  update_reason = s.update_reason;
  revision = s.revision;
}

pub IsFaithful-later :
    {log : List Decision} {t u : String} {db : Database} (d : Decision)
    → IsFaithful log t u db
    → IsFaithful (d ∷ log) t u db
IsFaithful-later d f = record { seen = λ row e h. IsSeen-later d (f.seen row e h) }

pub IsFaithful-Untouched :
    {log : List Decision} {t u : String} {db db' : Database}
    → Untouched t u db db'
    → IsFaithful log t u db
    → IsFaithful log t u db'
IsFaithful-Untouched {log} {t} {u} same f = record {
  seen = λ row e h. subst (IsSeen log t u row) (sym same.refs) (f.seen row (sym same.row ∙ e) h);
}

pub IsFaithful-absent :
    {log : List Decision} {t u : String} {db : Database}
    → find_draft t u db.drafts ≡ none
    → IsFaithful log t u db
IsFaithful-absent n = record { seen = λ row e h. absurd (let k = sym n ∙ e in cc) }

-- What an update of the lock keeps of a row.
pub record KeepsApproval (row row' : DraftRow) : Type 0 where
  pub status : row'.approval_status ≡ row.approval_status
  pub update_reason :
      reason_of row'.update_reason_type row'.update_reason_comment
      ≡ reason_of row.update_reason_type row.update_reason_comment
  pub revision : row'.revision ≡ row.revision

IsSeen-kept :
    {log : List Decision} {t u : String} {row row' : DraftRow} {refs : List ArtifactRef}
    → KeepsApproval row row'
    → IsSeen log t u row refs
    → IsSeen log t u row' refs
IsSeen-kept k s = record {
  decision = s.decision;
  logged = s.logged;
  owner = s.owner;
  approves = s.approves;
  by_other = s.by_other;
  artifacts = s.artifacts;
  update_reason = s.update_reason ∙ sym k.update_reason;
  revision = s.revision ∙ sym k.revision;
}

-- The row found after an update is the updated one.
updated_row :
    (t u : String) (set : DraftRow → DraftRow) (rows : List DraftRow) (row : DraftRow)
    → ((x : DraftRow)
        → owned_by t u x ≡ true
        → ((set x).owner_type ≡ x.owner_type) × ((set x).owner_uuid ≡ x.owner_uuid))
    → find_draft t u (update_draft t u set rows) ≡ some row
    → (old : DraftRow) × (find_draft t u rows ≡ some old) × (set old ≡ row)
updated_row t u set rows row same e = elim (Option-cases (find_draft t u rows)) [
  | inl n ↦
      let absent = update_draft-absent t u set rows (find_draft-none t u rows n) in
      absurd (let k = sym n ∙ sym (ap (find_draft t u) absent) ∙ e in cc)
  | inr (old, f) ↦
      (old, f, some-injective _ _ (sym (find_draft-update_draft t u set rows same f) ∙ e))
]

pub IsFaithful-touched :
    {log : List Decision} {t u : String} {db db' : Database} (set : DraftRow → DraftRow)
    → ((row : DraftRow) → KeepsApproval row (set row))
    → ((x : DraftRow)
        → owned_by t u x ≡ true
        → ((set x).owner_type ≡ x.owner_type) × ((set x).owner_uuid ≡ x.owner_uuid))
    → db'.drafts ≡ update_draft t u set db.drafts
    → db'.draft_artifacts ≡ db.draft_artifacts
    → IsFaithful log t u db
    → IsFaithful log t u db'
IsFaithful-touched {log} {t} {u} {db} {db'} set keeps same drafts refs f = record {
  seen = λ row e h.
      let (old, found, is) =
        updated_row t u set db.drafts row same (ap (find_draft t u) (sym drafts) ∙ e) in
      let before = f.seen old found (sym (keeps old).status ∙ ap (λ z. z.approval_status) is ∙ h) in
      subst (λ z. IsSeen log t u z (draft_refs t u db'.draft_artifacts)) is
        (IsSeen-kept (keeps old)
          (subst (IsSeen log t u old) (ap (draft_refs t u) (sym refs)) before));
}

not_approved : ◌≢◌ {A = String} "none" "approved"
not_approved = ground (arith, eq_iff "none" "approved")

rejected_not_approved : ◌≢◌ {A = String} "rejected" "approved"
rejected_not_approved = ground (arith, eq_iff "rejected" "approved")

decided_row-approves :
    (d : Decide) (clock : ℕ → ℕ) (revision : ℕ) (row : DraftRow)
    → (decided_row d clock revision row).approval_status ≡ "approved"
    → d.approve ≡ true
unfolding decided_row
decided_row-approves d clock revision row h = elim (Bool-cases d.approve) [
  | inl e ↦ e
  | inr e ↦ absurd (rejected_not_approved (rw (decided_row, e) at h))
]

is_self_approval-other :
    (d : Decide) (row : DraftRow) → is_self_approval d row ≡ false → d.actor ≢ row.drafted_by
unfolding is_self_approval
is_self_approval-other d row h = ground (arith, eq_iff d.actor row.drafted_by)

module _ (clock : ℕ → ℕ) (t u : String) (db db' : Database) (log : List Decision) where
  -- A draft that was put is not approved.
  pub put_collection_draft-IsFaithful :
      (input : PutInput) {v : CollectionDraft}
      → put_collection_draft clock t u input db ≡ ok (v, db')
      → IsFaithful log t u db'
  unfolding upsert_draft draft_row
  put_collection_draft-IsFaithful input h =
      let (_, _, drafts) = put_collection_draft-drafts clock t u db db' input h in
      record {
        seen = λ row e k. elim (Option-cases (find_draft t u db.drafts)) [
          | inl n ↦
              let new = draft_row t u input 1 (clock 2 / millisecond * millisecond) (clock 1) in
              let found : find_draft t u db'.drafts ≡ some new =
                ap (find_draft t u) drafts
                ∙ rw (n, upsert_draft)
                    (find_draft-append t u db.drafts new (ground (arith, eq_iff t t, eq_iff u u))
                      n) in
              let is = some-injective _ _ (sym e ∙ found) in
              absurd (not_approved (sym (ap (λ z. z.approval_status) is) ∙ k))
          | inr (old, f) ↦
              let set : DraftRow → DraftRow =
                λ row. draft_row t u input (old.revision + 1) row.created_at (clock 1) in
              let (was, _, is) =
                updated_row t u set db.drafts row
                  (λ x o. let (p, q) = owned_by_eq x o in (sym p, sym q))
                  (rw (f, upsert_draft) at (ap (find_draft t u) (sym drafts) ∙ e)) in
              absurd (not_approved (ap (λ z. z.approval_status) is ∙ k))
        ];
      }

  -- An approval is of what it returned.
  pub decide_collection_draft-IsFaithful :
      (d : Decide) {v : CollectionDraft}
      → decide_collection_draft clock t u d db ≡ ok (v, db')
      → IsFaithful (record { owner_type = t; owner_uuid = u; decide = d; shown = v } ∷ log) t u db'
  unfolding decided_row
  decide_collection_draft-IsFaithful d {v} h =
      let (old, found, _, other, drafts) = decide_collection_draft-drafts clock t u db db' d h in
      let (refs, got) = decide_collection_draft-shown clock t u db db' d h in
      let (shown_row, shows) = get_collection_draft-Shows db' t u v got in
      record {
        seen = λ row e k.
            let is = some-injective _ _ (sym shows.found ∙ e) in
            let (was, f, set) =
              updated_row t u (decided_row d clock old.revision) db.drafts row (λ x o. (refl, refl))
                (ap (find_draft t u) (sym drafts) ∙ e) in
            let same = some-injective _ _ (sym found ∙ f) in
            record {
              decision = record { owner_type = t; owner_uuid = u; decide = d; shown = v };
              logged = Memᴰ.head refl;
              owner = (refl, refl);
              approves =
                  decided_row-approves d clock old.revision was
                    (ap (λ z. z.approval_status) set ∙ k);
              by_other = λ q. is_self_approval-other d old other (
                  q
                  ∙ shows.drafted_by
                  ∙ ap (λ z. z.drafted_by) is
                  ∙ sym (ap (λ z. z.drafted_by) set)
                  ∙ sym (ap (λ z. z.drafted_by) same));
              artifacts = shows.artifacts;
              update_reason =
                  shows.update_reason
                  ∙ ap (λ (z : DraftRow). reason_of z.update_reason_type z.update_reason_comment)
                      is;
              revision = shows.revision ∙ ap (λ z. z.revision) is;
            };
      }
