-- ===== src/Draft/Faithful.antt =====
-- `CommitCollectionDraft` (internal/repo/collectiondraft.go) publishes what was signed: the collection
-- that it stores is the one that peek and prepare showed.
use opentea.Prelude.{
  ℕ, ◌+◌, ◌<◌, String, ◌≡◌, refl, sym, ap, ◌∙◌, subst, true, Option, none, some, Bool-cases,
  Option-cases, inl, inr, arith, eq_iff, ltb→lt, ◌==◌, ok, ok-injective,
}
use mathlib.Core.Option.{some-injective}
use opentea.Repo.{parse_time, format_time, null_if_empty}
use opentea.Repo.Database.{Collection, DraftRow, Database}
use opentea.Collections.{
  CollectionInput, create_collection, create_collection_for_product_release,
  create_collection_for_component_release, reason_type, reason_comment, reason_of, or_empty,
}
use opentea.Collections.ReadBack.{IsConsistent, create_collection-IsCreated}
use opentea.Collections.References.{get_artifacts-map-ref_of}
use opentea.Draft.{list_draft_artifacts, lock_held}
use opentea.Draft.Operations.{
  build_would_be_collection, would_be_date, is_approved, locked_row, prepare_collection_commit,
  peek_collection_draft_commit,
}
use opentea.Draft.Publish.{CommitEvidenceInput, input_of, create_for, commit_collection_draft}
use opentea.Draft.Committed.{commit_collection_draft-parts}
use opentea.Draft.WouldBe.{build_would_be_collection-IsBuilt}
use opentea.Draft.Signing.{
  Undisturbed-refl, parse_time-format_time, prepare_collection_commit-find_draft, prepare-peek,
}
use opentea.Draft.Effects.{prepare_collection_commit-drafts}

create_for-create_collection :
    (now : ℕ) (t u : String) (input : CollectionInput) (db db' : Database) (c : Collection)
    → create_for now t u input db ≡ ok (c, db')
    → create_collection db now u t input ≡ ok (c, db')
unfolding create_for create_collection_for_product_release create_collection_for_component_release
create_for-create_collection now t u input db db' c h = elim (Bool-cases (t == "PRODUCT_RELEASE")) [
  | inl e ↦
      subst (λ z. create_collection db now u z input ≡ ok (c, db'))
        (sym ((eq_iff t "PRODUCT_RELEASE").0 e)) (ground arith)
  | inr e ↦ elim (Bool-cases (t == "COMPONENT_RELEASE")) [
    | inl f ↦
        subst (λ z. create_collection db now u z input ≡ ok (c, db'))
          (sym ((eq_iff t "COMPONENT_RELEASE").0 f)) (ground arith)
    | inr f ↦ absurd (ground arith)
  ]
]

reason_of-reason :
    (a b : Option String)
    → reason_of (reason_type (reason_of a b)) (reason_comment (reason_of a b)) ≡ reason_of a b
unfolding null_if_empty
reason_of-reason none b = refl
reason_of-reason (some t) b = ground (arith, eq_iff (or_empty b) "")

would_be_date-rounded :
    (row : DraftRow) (now date : ℕ)
    → would_be_date true row now ≡ ok date
    → parse_time (format_time date) ≡ date
unfolding would_be_date
would_be_date-rounded row now date h = elim (Option-cases row.lock_date) [
  | inl e ↦ absurd (ground arith)
  | inr (s, e) ↦
      let is : parse_time s ≡ date = ground arith in
      subst (λ d. parse_time (format_time d) ≡ d) is (parse_time-format_time s)
]

locked_row-held :
    (clock : ℕ → ℕ) (lock_ttl date : ℕ) (row : DraftRow) (now : ℕ)
    → lock_held (locked_row clock lock_ttl date row) now ≡ true
    → now < parse_time (format_time (clock 3 + lock_ttl))
unfolding lock_held locked_row
locked_row-held clock lock_ttl date row now h = ltb→lt _ _ h

module _ (clock : ℕ → ℕ) (t u : String) (db : Database) (con : IsConsistent db)
    (w : Collection) where
  -- The collection that is created from a built one is that one.
  pub create_for-same :
      (now : ℕ) (c : Collection) (created : Database)
      → build_would_be_collection clock db t u true ≡ ok w
      → create_for now t u (input_of w) db ≡ ok (c, created)
      → c ≡ w
  create_for-same now c created built made =
      let (row, b) = build_would_be_collection-IsBuilt clock db t u true built in
      let is =
        create_collection-IsCreated db now u t (input_of w) c created con
          (create_for-create_collection now t u (input_of w) db created c made) in
      let (_, again) =
        get_artifacts-map-ref_of db.artifacts (list_draft_artifacts db t u) w.artifacts
          b.resolved in
      let (cu, cb) = is.named in
      let (wu, wb, wv) = b.named in
      let artifacts : c.artifacts ≡ w.artifacts = ok-injective (sym is.resolved ∙ again) in
      let reason : c.update_reason ≡ w.update_reason =
        is.reasoned
        ∙ ap (λ r. reason_of (reason_type r) (reason_comment r)) b.reasoned
        ∙ reason_of-reason row.update_reason_type row.update_reason_comment
        ∙ sym b.reasoned in
      let date : c.created_date ≡ w.created_date =
        is.dated ∙ would_be_date-rounded row (clock 2) w.created_date b.dated in
      let version : c.version ≡ w.version = is.versioned ∙ sym wv in
      let uuid : c.uuid ≡ w.uuid = cu ∙ sym wu in
      let belongs : c.belongs_to ≡ w.belongs_to = cb ∙ sym wb in ground arith

module _ (clock : ℕ → ℕ) (t u fresh : String) (evidence : CommitEvidenceInput) (db : Database) where
  -- Where the references of `collection_artifact` are good, a collection that commit returns is the one
  -- that peek shows on the same tables: its version, date, artifacts and reason.
  pub commit-peek :
      (c : Collection) (db' : Database)
      → IsConsistent db
      → commit_collection_draft clock fresh t u evidence db ≡ ok (c, db')
      → peek_collection_draft_commit clock db t u ≡ ok c
  unfolding peek_collection_draft_commit
  commit-peek c db' con h =
      let (w, built, created, made, _, _, _, _, _) =
        commit_collection_draft-parts clock t u db db' fresh evidence h in
      subst (λ z. build_would_be_collection clock db t u true ≡ ok z)
        (sym (create_for-same clock t u db con w (clock 3) c created built made)) built

-- What is committed is what was prepared: where the references of `collection_artifact` are good, a
-- commit that succeeds after a prepare, at whatever times, returns the collection that the prepare
-- returned, the date to the nanosecond included.
pub prepare-commit :
    (clock later : ℕ → ℕ) (t u fresh : String) (lock_ttl : ℕ) (evidence : CommitEvidenceInput)
    (db db' db'' : Database) (w c : Collection)
    → IsConsistent db
    → prepare_collection_commit clock t u lock_ttl db ≡ ok (w, db')
    → commit_collection_draft later fresh t u evidence db' ≡ ok (c, db'')
    → c ≡ w
unfolding peek_collection_draft_commit
prepare-commit clock later t u fresh lock_ttl evidence db db' db'' w c con p h =
    let (_, e) = prepare_collection_commit-drafts clock t u db db' lock_ttl p in
    let (row, is, found) = prepare_collection_commit-find_draft clock t u lock_ttl db db' w p in
    let peeked =
      commit-peek later t u fresh evidence db' c db'' (subst IsConsistent (sym e) con) h in
    let (row', is') = build_would_be_collection-IsBuilt later db' t u true peeked in
    let same : row' ≡ locked_row clock lock_ttl w.created_date row =
      some-injective _ _ (sym is'.found ∙ found) in
    let held = subst (λ z. lock_held z (later 0) ≡ true) same (is'.locked refl) in
    let approved = subst (λ z. is_approved z (later 1) ≡ true) same is'.approved in
    ok-injective (
      sym peeked
      ∙ prepare-peek clock t u lock_ttl db db' w row later db' p is.found (Undisturbed-refl t u db')
          (locked_row-held clock lock_ttl w.created_date row (later 0) held)
          (unfold is_approved locked_row in approved))
