-- ===== src/Draft/WouldBe.antt =====
-- `buildWouldBeCollection` (internal/repo/collectiondraft.go) and what prepare and peek make of it.
use opentea.Prelude.{ℕ, String, ◌≡◌, Bool, true, some, Option-cases, arith, ok, inl, inr}
use opentea.Repo.Database.{Collection, DraftRow, Database}
use opentea.Collections.{get_artifacts, next_version, reason_of}
use opentea.Draft.{find_draft, fetch_draft_row, list_draft_artifacts, lock_held}
use opentea.Draft.Operations.{build_would_be_collection, is_approved, would_be_date}

-- What a collection that could be built says of the draft it was built from.
pub record IsBuilt (clock : ℕ → ℕ) (db : Database) (t u : String) (require_lock : Bool)
    (w : Collection) (row : DraftRow) : Type 0 where
  pub found : find_draft t u db.drafts ≡ some row
  pub locked : require_lock ≡ true → lock_held row (clock 0) ≡ true
  pub approved : is_approved row (clock 1) ≡ true
  pub resolved : get_artifacts db.artifacts (list_draft_artifacts db t u) ≡ ok w.artifacts
  pub dated : would_be_date require_lock row (clock 2) ≡ ok w.created_date
  pub named : (w.uuid ≡ u) × (w.belongs_to ≡ t) × (w.version ≡ next_version u db.collections)
  pub reasoned : w.update_reason ≡ reason_of row.update_reason_type row.update_reason_comment

module _ (clock : ℕ → ℕ) (db : Database) (t u : String) (require_lock : Bool) where
  pub build_would_be_collection-IsBuilt :
      {w : Collection}
      → build_would_be_collection clock db t u require_lock ≡ ok w
      → (row : DraftRow) × IsBuilt clock db t u require_lock w row
  unfolding build_would_be_collection fetch_draft_row
  build_would_be_collection-IsBuilt {w} h = elim (Option-cases (find_draft t u db.drafts)) [
    | inl f ↦ absurd (ground arith)
    | inr (row, f) ↦ (
      row,
      record {
        found = f;
        locked = λ e. ground arith;
        approved = ground arith;
        resolved = ground arith;
        dated = ground arith;
        named = (ground arith, ground arith, ground arith);
        reasoned = ground arith;
      },
    )
  ]

  pub IsBuilt-build_would_be_collection :
      {w : Collection} {row : DraftRow}
      → IsBuilt clock db t u require_lock w row
      → build_would_be_collection clock db t u require_lock ≡ ok w
  unfolding build_would_be_collection fetch_draft_row
  IsBuilt-build_would_be_collection {w} {row} is =
      let f = is.found in
      let l = is.locked in
      let a = is.approved in
      let r = is.resolved in
      let d = is.dated in let (n1, n2, n3) = is.named in let q = is.reasoned in ground arith
