-- ===== src/Draft/Tests.antt =====
-- The properties of internal/repo/collectiondraft.go at the publication of `Draft.Example`.
use opentea.Prelude.{
  List, map, Memᴰ, ◌≢◌, ◌*◌, ◌≡◌, refl, sym, subst, true, none, some, [], ◌∷◌, arith, ok, err,
}
use opentea.Repo.{second, draft_locked, approval_required, draft_revision_conflict}
use opentea.Repo.Database.{Collection, DraftRow, Database}
use opentea.Collections.{ref_of, get_artifacts, find_artifact, reason_allowed}
use opentea.Collections.Progress.{IsDistinct}
use opentea.Evidence.{find_fingerprint}
use opentea.Draft.Publish.{commit_collection_draft}
use opentea.Draft.Progress.{IsAcceptable, commit_collection_draft-ok}
use opentea.Draft.{
  find_draft, draft_refs, list_draft_artifacts, require_release_owner_exists,
  require_artifacts_exist,
}
use opentea.Draft.Operations.{
  put_collection_draft, decide_collection_draft, prepare_collection_commit,
  peek_collection_draft_commit, is_approved, draft_artifact,
}
use opentea.Draft.FourEyes.{IsSound}
use opentea.Draft.History.{
  Reach, start, next, put, decide, prepare, reach-IsSound, IsApprovedByOther,
  commit_collection_draft-IsApprovedByOther,
}
use opentea.Draft.Signing.{Undisturbed, Undisturbed-refl, prepare-peek, prepare-draft_locked}
use opentea.Draft.Editing.{put-approval_required, put-draft_revision_conflict}
use opentea.Draft.Faithful.{prepare-commit}
use opentea.Draft.Approved.{Decision}
use opentea.Draft.Log.{History, Logged, commit_collection_draft-approved}
use opentea.Draft.Example.{
  release, clock_at, sbom_ref, before, input, drafted, approval, approved_row, approved, prepared,
  published, evidence, put_ok, decide_ok, prepare_ok, commit_ok,
}

abbrev reach_approved : Reach approved
reach_approved =
    next (clock_at 200) (next (clock_at 100) (start before refl) (put release "r1" input put_ok.1))
      (decide release "r1" approval decide_ok.1)

abbrev reach_prepared : Reach prepared
reach_prepared = next (clock_at 300) reach_approved (prepare release "r1" (60 * second) prepare_ok)

commit_collection_draft-IsApprovedByOther_example :
    (row : DraftRow) × IsApprovedByOther prepared release "r1" (330 * second) row
    × (w : Collection) × (get_artifacts prepared.artifacts
          (list_draft_artifacts prepared release "r1")
        ≡ ok w.artifacts)
    × ((published.version ≡ w.version) × (published.created_date ≡ w.created_date))
commit_collection_draft-IsApprovedByOther_example =
    commit_collection_draft-IsApprovedByOther prepared commit_ok.0 (clock_at 330) release "r1" "b1"
      evidence published reach_prepared commit_ok.1

reach-IsSound_example : IsSound prepared.drafts
reach-IsSound_example = reach-IsSound prepared reach_prepared

abbrev decisions : List Decision
decisions =
    record { owner_type = release; owner_uuid = "r1"; decide = approval; shown = decide_ok.0 } ∷ []

prepared-History : History decisions prepared
prepared-History =
    History.next (clock_at 300)
      (History.next (clock_at 200)
        (History.next (clock_at 100) (History.begin before refl)
          (Logged.put release "r1" input put_ok.1))
        (Logged.decide release "r1" approval decide_ok.1))
      (Logged.prepare release "r1" (60 * second) prepare_ok)

commit_collection_draft-approved_example :
    (x : Decision) × Memᴰ x decisions
    × ((x.owner_type ≡ release) × (x.owner_uuid ≡ "r1"))
    × ((x.decide.approve ≡ true) × (x.decide.actor ≢ x.shown.drafted_by))
    × ((map ref_of published.artifacts ≡ x.shown.artifacts)
        × (published.update_reason ≡ x.shown.update_reason))
commit_collection_draft-approved_example =
    commit_collection_draft-approved decisions prepared commit_ok.0 (clock_at 330) release "r1" "b1"
      evidence published tt prepared-History commit_ok.1

prepare-commit_example : published ≡ published
prepare-commit_example =
    prepare-commit (clock_at 300) (clock_at 330) release "r1" "b1" (60 * second) evidence approved
      prepared commit_ok.0 published published tt prepare_ok commit_ok.1

found_approved : find_draft release "r1" approved.drafts ≡ some approved_row
unfolding find_draft
found_approved = refl

approved_at_330 : is_approved approved_row (330 * second) ≡ true
unfolding is_approved
approved_at_330 = refl

-- The tables of `prepared`, after somebody drafted a collection of another release.
abbrev beside : Database
beside = record prepared {
  drafts = record approved_row { owner_uuid = "r2" } ∷ prepared.drafts;
  draft_artifacts = draft_artifact release "r2" sbom_ref ∷ prepared.draft_artifacts;
}

beside-Undisturbed : Undisturbed release "r1" prepared beside
unfolding find_draft list_draft_artifacts draft_refs
beside-Undisturbed = record { draft = refl; resolved = refl; numbered = refl }

prepare-peek_example :
    peek_collection_draft_commit (clock_at 330) beside release "r1" ≡ ok published
prepare-peek_example =
    prepare-peek (clock_at 300) release "r1" (60 * second) approved prepared published approved_row
      (clock_at 330) beside prepare_ok found_approved beside-Undisturbed (omega arith)
      approved_at_330

owner_ok :
    (require_release_owner_exists prepared release "r1" ≡ ok tt)
    × (require_artifacts_exist prepared input.artifacts ≡ ok tt)
unfolding require_release_owner_exists require_artifacts_exist find_artifact
owner_ok = (refl, refl)

prepare-draft_locked_example :
    (put_collection_draft (clock_at 330) release "r1" input prepared ≡ err draft_locked)
    × (decide_collection_draft (clock_at 330) release "r1" approval prepared ≡ err draft_locked)
prepare-draft_locked_example =
    prepare-draft_locked (clock_at 300) release "r1" (60 * second) approved prepared published
      (clock_at 330) input approval prepare_ok (omega arith) owner_ok.0 owner_ok.1

put-approval_required_example :
    prepare_collection_commit (clock_at 110) release "r1" (60 * second) drafted
    ≡ err approval_required
put-approval_required_example =
    put-approval_required (clock_at 100) release "r1" input before drafted put_ok.0 (clock_at 110)
      (60 * second) put_ok.1

owner_drafted :
    (require_release_owner_exists drafted release "r1" ≡ ok tt)
    × (require_artifacts_exist drafted input.artifacts ≡ ok tt)
unfolding require_release_owner_exists require_artifacts_exist find_artifact
owner_drafted = (refl, refl)

put-draft_revision_conflict_example :
    put_collection_draft (clock_at 110) release "r1" input drafted ≡ err draft_revision_conflict
put-draft_revision_conflict_example =
    put-draft_revision_conflict (clock_at 100) release "r1" input before drafted put_ok.0
      (clock_at 110) input 0 put_ok.1 refl refl owner_drafted.0 owner_drafted.1

peek_ok : peek_collection_draft_commit (clock_at 330) prepared release "r1" ≡ ok published
peek_ok =
    prepare-peek (clock_at 300) release "r1" (60 * second) approved prepared published approved_row
      (clock_at 330) prepared prepare_ok found_approved (Undisturbed-refl release "r1" prepared)
      (omega arith) approved_at_330

refs_ok : list_draft_artifacts prepared release "r1" ≡ sbom_ref ∷ []
unfolding list_draft_artifacts draft_refs
refs_ok = refl

acceptable : IsAcceptable prepared "b1" evidence
unfolding find_fingerprint
acceptable = record { signature = refl; certificate = refl; fingerprint = refl; unused = refl }

allowed : reason_allowed none ≡ true
unfolding reason_allowed
allowed = refl

commit_collection_draft-ok_example :
    (db' : Database) × (commit_collection_draft (clock_at 330) "b1" release "r1" evidence prepared
      ≡ ok (published, db'))
commit_collection_draft-ok_example =
    commit_collection_draft-ok (clock_at 330) release "r1" "b1" evidence prepared published tt
      peek_ok owner_ok.0 (subst IsDistinct (sym refs_ok) (tt, tt)) allowed acceptable
