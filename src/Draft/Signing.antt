-- ===== src/Draft/Signing.antt =====
-- What a client signs (internal/repo/collectiondraft.go): the lock that prepare puts on a draft, and
-- what peek shows under it.
use opentea.Prelude.{
  ℕ, ◌+◌, ◌<◌, String, ◌≡◌, refl, sym, ap, ◌∙◌, subst, true, false, some, arith, lt→ltb, ok, err,
  ok-injective,
}
use mathlib.Core.Option.{some-injective}
use opentea.Repo.{parse_time, format_time, draft_locked}
use opentea.Repo.Database.{Collection, DraftRow, Database}
use opentea.Collections.{get_artifacts, next_version}
use opentea.Draft.{
  find_draft, fetch_draft_row, list_draft_artifacts, lock_held, require_release_owner_exists,
  require_artifacts_exist,
}
use opentea.Draft.Rows.{find_draft-update_draft}
use opentea.Draft.Operations.{
  PutInput, Decide, is_approved, would_be_date, locked_row, prepare_collection_commit,
  peek_collection_draft_commit, put_collection_draft, decide_collection_draft,
}
use opentea.Draft.Effects.{prepare_collection_commit-drafts}
use opentea.Draft.WouldBe.{
  IsBuilt, build_would_be_collection-IsBuilt, IsBuilt-build_would_be_collection,
}

-- A time that was read back from a column is not changed by a second round.
pub parse_time-format_time : (n : ℕ) → parse_time (format_time (parse_time n)) ≡ parse_time n
parse_time-format_time n = omega arith

-- What peek reads of a draft and its owner is the same in two states: the row of the draft, the
-- artifacts that it lists, and the next version of the owner's collection.
pub record Undisturbed (t u : String) (db db' : Database) : Type 0 where
  pub draft : find_draft t u db'.drafts ≡ find_draft t u db.drafts
  pub resolved :
      get_artifacts db'.artifacts (list_draft_artifacts db' t u)
      ≡ get_artifacts db.artifacts (list_draft_artifacts db t u)
  pub numbered : next_version u db'.collections ≡ next_version u db.collections

pub Undisturbed-refl : (t u : String) (db : Database) → Undisturbed t u db db
Undisturbed-refl t u db = record { draft = refl; resolved = refl; numbered = refl }

module _ (clock : ℕ → ℕ) (t u : String) (lock_ttl : ℕ) (db db' : Database) (w : Collection) where
  -- The owner's row after prepare.
  pub prepare_collection_commit-find_draft :
      prepare_collection_commit clock t u lock_ttl db ≡ ok (w, db')
      → (row : DraftRow) × IsBuilt clock db t u false w row
        × (find_draft t u db'.drafts ≡ some (locked_row clock lock_ttl w.created_date row))
  prepare_collection_commit-find_draft h =
      let (built, e) = prepare_collection_commit-drafts clock t u db db' lock_ttl h in
      let (row, is) = build_would_be_collection-IsBuilt clock db t u false built in
      (
        row,
        is,
        rw e (
            find_draft-update_draft t u (locked_row clock lock_ttl w.created_date) db.drafts
              (λ x o. unfold locked_row in (refl, refl)) is.found),
      )

  pub lock_held-locked_row :
      (row : DraftRow) (now : ℕ)
      → now < parse_time (format_time (clock 3 + lock_ttl))
      → lock_held (locked_row clock lock_ttl w.created_date row) now ≡ true
  unfolding lock_held locked_row
  lock_held-locked_row row now before = lt→ltb _ _ before

  -- The date of the lock is the date of the collection, bit for bit.
  would_be_date-locked_row :
      (row : DraftRow) (now later date : ℕ)
      → would_be_date false row now ≡ ok date
      → would_be_date true (locked_row clock lock_ttl date row) later ≡ ok date
  unfolding would_be_date locked_row
  would_be_date-locked_row row now later date h = ap ok (
      subst (λ d. parse_time (format_time d) ≡ d) (ok-injective h)
        (parse_time-format_time (format_time now)))

  -- Until the lock or the approval is over, peek returns the collection that prepare returned, on every
  -- state in which the draft, its artifacts and the owner's next version are as prepare left them.
  pub prepare-peek :
      (row : DraftRow) (later : ℕ → ℕ) (db'' : Database)
      → prepare_collection_commit clock t u lock_ttl db ≡ ok (w, db')
      → find_draft t u db.drafts ≡ some row
      → Undisturbed t u db' db''
      → later 0 < parse_time (format_time (clock 3 + lock_ttl))
      → is_approved row (later 1) ≡ true
      → peek_collection_draft_commit later db'' t u ≡ ok w
  unfolding peek_collection_draft_commit list_draft_artifacts
  prepare-peek row later db'' h found still before approved =
      let (_, e) = prepare_collection_commit-drafts clock t u db db' lock_ttl h in
      let (old, is, now) = prepare_collection_commit-find_draft h in
      let same : old ≡ row = some-injective _ _ (sym is.found ∙ found) in
      let (of_owner, of_type, version) = is.named in
      IsBuilt-build_would_be_collection later db'' t u true (record {
        found = still.draft ∙ now;
        locked = λ _. lock_held-locked_row old (later 0) before;
        approved =
            unfold locked_row is_approved in
            subst (λ z. is_approved z (later 1) ≡ true) (sym same) approved;
        resolved =
            still.resolved
            ∙ ap (λ z. get_artifacts z.artifacts (list_draft_artifacts z t u)) e
            ∙ is.resolved;
        dated = would_be_date-locked_row old (clock 2) (later 2) w.created_date is.dated;
        named = (
          of_owner,
          of_type,
          version ∙ sym (still.numbered ∙ ap (λ z. next_version u z.collections) e),
        );
        reasoned = unfold locked_row in is.reasoned;
      })

  -- While the lock holds, the draft can be neither changed nor decided: putting a draft whose owner
  -- and artifacts exist, and deciding, answer that it is locked.
  pub prepare-draft_locked :
      (later : ℕ → ℕ) (input : PutInput) (d : Decide)
      → prepare_collection_commit clock t u lock_ttl db ≡ ok (w, db')
      → later 0 < parse_time (format_time (clock 3 + lock_ttl))
      → require_release_owner_exists db' t u ≡ ok tt
      → require_artifacts_exist db' input.artifacts ≡ ok tt
      → (put_collection_draft later t u input db' ≡ err draft_locked)
        × (decide_collection_draft later t u d db' ≡ err draft_locked)
  unfolding put_collection_draft decide_collection_draft fetch_draft_row
  prepare-draft_locked later input d h before owner artifacts =
      let (old, is, now) = prepare_collection_commit-find_draft h in
      let held = lock_held-locked_row old (later 0) before in (ground arith, ground arith)
