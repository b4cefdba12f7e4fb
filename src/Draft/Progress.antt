-- ===== src/Draft/Progress.antt =====
-- When `CommitCollectionDraft` (internal/repo/collectiondraft.go) succeeds.
use opentea.Prelude.{
  ℕ, String, ◌≡◌, refl, sym, ◌∙◌, subst, true, false, Bool-cases, inl, inr, none, some, List, [],
  ◌∷◌, ◌++◌, arith, eq_iff, eqb_iff, ◌==◌, any, ok,
}
use opentea.Repo.Database.{Collection, CollectionRow, EvidenceBundle, Database}
use opentea.Collections.{
  CollectionInput, contains, reason_allowed, reason_type, create_collection, next_version,
  create_collection_for_product_release, create_collection_for_component_release,
}
use opentea.Collections.ReadBack.{IsConsistent, IsCreated, create_collection-IsCreated}
use opentea.Collections.References.{get_artifacts-map-ref_of}
use opentea.Collections.Progress.{IsDistinct, create_collection-ok}
use opentea.Evidence.{
  is_collection, owner_exists, find_fingerprint, bundle_of, store_bundle, create_evidence_bundle,
  signature_formats, certificate_formats,
}
use opentea.Draft.{list_draft_artifacts, require_release_owner_exists}
use opentea.Draft.Operations.{peek_collection_draft_commit, without_draft}
use opentea.Draft.Publish.{
  CommitEvidenceInput, input_of, evidence_of, create_for, commit_collection_draft,
}
use opentea.Draft.WouldBe.{build_would_be_collection-IsBuilt}
use opentea.Draft.Faithful.{create_for-same}

create_for-ok :
    (now : ℕ) (t u : String) (input : CollectionInput) (db db' : Database) (c : Collection)
    → require_release_owner_exists db t u ≡ ok tt
    → create_collection db now u t input ≡ ok (c, db')
    → create_for now t u input db ≡ ok (c, db')
unfolding create_for create_collection_for_product_release create_collection_for_component_release
    require_release_owner_exists
create_for-ok now t u input db db' c owner h = elim (Bool-cases (t == "PRODUCT_RELEASE")) [
  | inl e ↦
      let k =
        subst (λ z. create_collection db now u z input ≡ ok (c, db'))
          ((eq_iff t "PRODUCT_RELEASE").0 e) h in
      ground arith
  | inr e ↦ elim (Bool-cases (t == "COMPONENT_RELEASE")) [
    | inl f ↦
        let k =
          subst (λ z. create_collection db now u z input ≡ ok (c, db'))
            ((eq_iff t "COMPONENT_RELEASE").0 f) h in
        ground arith
    | inr f ↦ absurd (ground arith)
  ]
]

any-is_collection :
    (u : String) (version : ℕ) (rows : List CollectionRow) (row : CollectionRow)
    → row.uuid ≡ u
    → row.version ≡ version
    → any (is_collection u version) (rows ++ row ∷ []) ≡ true
any-is_collection u version [] row e f =
    ground (arith, eq_iff row.uuid u, eqb_iff row.version version)
any-is_collection u version (x ∷ rows) row e f =
    let ih = any-is_collection u version rows row e f in ground arith

-- Evidence that a fresh collection can take: the formats of the tables, a new fingerprint, a new uuid.
pub record IsAcceptable (db : Database) (fresh : String) (e : CommitEvidenceInput) : Type 0 where
  pub signature : contains signature_formats e.signature_format ≡ true
  pub certificate : contains certificate_formats e.certificate_format ≡ true
  pub fingerprint : find_fingerprint e.certificate_fingerprint db.used_fingerprints ≡ none
  pub unused : any (λ b. b.uuid == fresh) db.evidence_bundles ≡ false

module _ (clock : ℕ → ℕ) (t u fresh : String) (evidence : CommitEvidenceInput) (db : Database)
    (w : Collection) where
  stored_evidence :
      (created : Database)
      → IsAcceptable db fresh evidence
      → IsCreated db (clock 3) u t (input_of w) w created
      → w.version ≡ next_version u db.collections
      → (b : EvidenceBundle) × (stored : Database) × (create_evidence_bundle fresh
            (evidence_of u w.version evidence)
            created
          ≡ ok (b, stored))
  unfolding create_evidence_bundle store_bundle owner_exists
  stored_evidence created fit is version =
      let (row, rows, (named, versioned)) = is.kept in
      let (_, _, _, bundles, prints) = is.unchanged in
      let exists : any (is_collection u w.version) created.collections ≡ true =
        rw rows
          (any-is_collection u w.version db.collections row named (versioned ∙ sym version)) in
      let s = fit.signature in
      let c = fit.certificate in
      let f : find_fingerprint evidence.certificate_fingerprint created.used_fingerprints ≡ none =
        rw prints fit.fingerprint in
      let n : any (λ b. b.uuid == fresh) created.evidence_bundles ≡ false = rw bundles fit.unused in
      (
        bundle_of fresh (evidence_of u w.version evidence),
        record created {
          used_fingerprints =
              created.used_fingerprints
              ++ record {
                fingerprint = evidence.certificate_fingerprint;
                trust_domain = evidence.certificate_trust_domain;
                evidence_bundle_uuid = some fresh;
              }
                ∷ [];
          evidence_bundles =
              created.evidence_bundles ++ bundle_of fresh (evidence_of u w.version evidence) ∷ [];
        },
        rw (exists, f, s, c, n) refl,
      )

  -- A prepared commit goes through: where the references of `collection_artifact` are good, and peek shows
  -- a collection, of an existing owner, without an artifact version twice and with a reason that the
  -- table allows, and the evidence is acceptable, commit succeeds, and returns that collection. So the
  -- checks after the creation do not fail.
  pub commit_collection_draft-ok :
      IsConsistent db
      → peek_collection_draft_commit clock db t u ≡ ok w
      → require_release_owner_exists db t u ≡ ok tt
      → IsDistinct (list_draft_artifacts db t u)
      → reason_allowed (reason_type w.update_reason) ≡ true
      → IsAcceptable db fresh evidence
      → (db' : Database) × (commit_collection_draft clock fresh t u evidence db ≡ ok (w, db'))
  unfolding commit_collection_draft peek_collection_draft_commit
  commit_collection_draft-ok con built owner distinct allowed fit =
      let (row, is) = build_would_be_collection-IsBuilt clock db t u true built in
      let (refs, again) =
        get_artifacts-map-ref_of db.artifacts (list_draft_artifacts db t u) w.artifacts
          is.resolved in
      let (c, created, made) =
        create_collection-ok db (clock 3) u t (input_of w) w.artifacts con again
          (subst IsDistinct (sym refs) distinct) allowed in
      let made_for = create_for-ok (clock 3) t u (input_of w) db created c owner made in
      let same = create_for-same clock t u db con w (clock 3) c created built made_for in
      let made_w =
        subst (λ z. create_collection db (clock 3) u t (input_of w) ≡ ok (z, created)) same made in
      let for_w =
        subst (λ z. create_for (clock 3) t u (input_of w) db ≡ ok (z, created)) same made_for in
      let (_, _, version) = is.named in
      let (b, stored, kept) =
        stored_evidence created fit
          (create_collection-IsCreated db (clock 3) u t (input_of w) w created con made_w)
          version in
      (
        without_draft t u stored,
        rw
            (
              built,
              for_w,
              (eqb_iff w.version w.version).1 refl,
              (eqb_iff w.created_date w.created_date).1 refl,
              kept,
            )
            refl,
      )
