-- ===== src/Draft/Committed.antt =====
-- What a successful `CommitCollectionDraft` (internal/repo/collectiondraft.go) did: the collection
-- and the evidence are stored, and only the draft of this owner is gone.
use opentea.Prelude.{
  ℕ, String, ◌≡◌, ◌∙◌, true, not, filter, arith, eqb, if◌then◌else◌, ok, err, >>=-eq-ok, subst,
}
use opentea.Repo.{commit_race, commit_date_mismatch}
use opentea.Repo.Database.{Collection, EvidenceBundle, Database}
use opentea.Collections.{
  CollectionInput, belongs_to_product_release, belongs_to_component_release, create_collection,
  create_collection_for_product_release, create_collection_for_component_release,
}
use opentea.Evidence.{EvidenceBundleInput, create_evidence_bundle, store_bundle}
use opentea.Draft.{owned_by}
use opentea.Draft.Operations.{build_would_be_collection, without_draft}
use opentea.Draft.Publish.{
  CommitEvidenceInput, input_of, evidence_of, create_for, commit_collection_draft,
}

store_bundle-drafts :
    (fresh : String) (input : EvidenceBundleInput) (db db' : Database) {b : EvidenceBundle}
    → store_bundle fresh input db ≡ ok (b, db')
    → db'.drafts ≡ db.drafts
unfolding store_bundle
store_bundle-drafts fresh input db db' h = ground arith

pub create_evidence_bundle-drafts :
    (fresh : String) (input : EvidenceBundleInput) (db db' : Database) {b : EvidenceBundle}
    → create_evidence_bundle fresh input db ≡ ok (b, db')
    → db'.drafts ≡ db.drafts
unfolding create_evidence_bundle
create_evidence_bundle-drafts fresh input db db' h =
    ground (arith, store_bundle-drafts fresh input db db')

create_collection-drafts :
    (db db' : Database) (now : ℕ) (owner belongs : String) (input : CollectionInput)
    {c : Collection}
    → create_collection db now owner belongs input ≡ ok (c, db')
    → db'.drafts ≡ db.drafts
unfolding create_collection
create_collection-drafts db db' now owner belongs input h = ground arith

pub create_for-drafts :
    (db db' : Database) (now : ℕ) (t u : String) (input : CollectionInput) {c : Collection}
    → create_for now t u input db ≡ ok (c, db')
    → db'.drafts ≡ db.drafts
unfolding create_for create_collection_for_product_release create_collection_for_component_release
create_for-drafts db db' now t u input {c} h = ground (
  arith,
  create_collection-drafts db db' now u belongs_to_product_release input {c = c},
  create_collection-drafts db db' now u belongs_to_component_release input {c = c},
)

module _ (clock : ℕ → ℕ) (t u : String) (db db' : Database) where
  pub commit_collection_draft-parts :
      (fresh : String) (evidence : CommitEvidenceInput) {c : Collection}
      → commit_collection_draft clock fresh t u evidence db ≡ ok (c, db')
      → (w : Collection) × (build_would_be_collection clock db t u true ≡ ok w)
        × (created : Database) × (create_for (clock 3) t u (input_of w) db ≡ ok (c, created))
        × ((c.version ≡ w.version) × (c.created_date ≡ w.created_date))
        × (b : EvidenceBundle) × (stored : Database) × (create_evidence_bundle fresh
              (evidence_of u c.version evidence)
              created
            ≡ ok (b, stored))
        × (db' ≡ without_draft t u stored)
  unfolding commit_collection_draft
  commit_collection_draft-parts fresh evidence {c} h =
      let (w, built, h1) = >>=-eq-ok (build_would_be_collection clock db t u true) _ h in
      let ((c1, created), made, h2) = >>=-eq-ok (create_for (clock 3) t u (input_of w) db) _ h1 in
      let (_, same_version, h3) =
        >>=-eq-ok (if eqb c1.version w.version then ok tt else err commit_race) _ h2 in
      let (_, same_date, h4) =
        >>=-eq-ok (if eqb c1.created_date w.created_date then ok tt else err commit_date_mismatch) _
          h3 in
      let ((b, stored), kept, h5) =
        >>=-eq-ok (create_evidence_bundle fresh (evidence_of u c1.version evidence) created) _ h4 in
      let same : c1 ≡ c = ground arith in
      (
        w,
        built,
        created,
        ground arith,
        (ground arith, ground arith),
        b,
        stored,
        subst
            (λ z.
              create_evidence_bundle fresh (evidence_of u z.version evidence) created
              ≡ ok (b, stored))
            same kept,
        ground arith,
      )

  pub commit_collection_draft-drafts :
      (fresh : String) (evidence : CommitEvidenceInput) {c : Collection}
      → commit_collection_draft clock fresh t u evidence db ≡ ok (c, db')
      → db'.drafts ≡ filter (λ row. not (owned_by t u row)) db.drafts
  commit_collection_draft-drafts fresh evidence h =
      let (w, _, created, made, _, b, stored, kept, e) =
        commit_collection_draft-parts fresh evidence h in
      let same : stored.drafts ≡ db.drafts =
        create_evidence_bundle-drafts fresh _ created stored kept
        ∙ create_for-drafts db created (clock 3) t u (input_of w) made in
      rw (e, same)
