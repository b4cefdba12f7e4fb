-- ===== src/Draft/Frames.antt =====
-- What the operations of internal/repo/collectiondraft.go on one owner's draft leave of the others'.
use opentea.Prelude.{
  String, ◌≡◌, refl, ap, Bool, true, false, not, ◌&&◌, none, List, [], ◌∷◌, ◌++◌, map, arith,
  eq_iff, ◌==◌, Bool-cases, inl, inr, filter,
}
use opentea.Repo.Database.{ArtifactRef, DraftRow, DraftArtifact}
use opentea.Draft.{owned_by, find_draft, update_draft, artifact_owned_by, draft_refs}
use opentea.Draft.Operations.{draft_artifact}

-- The owners `a b` and `t u` are one.
abbrev pub same_key : String → String → String → String → Bool
same_key a b t u = (a == t) && (b == u)

module _ (a b t u : String) (other : same_key a b t u ≡ false) where
  -- What belongs to `t u` does not belong to `a b`.
  not_owned : (x : DraftRow) → owned_by t u x ≡ true → owned_by a b x ≡ false
  not_owned x h = ground (
    arith,
    eq_iff x.owner_type t,
    eq_iff x.owner_uuid u,
    eq_iff x.owner_type a,
    eq_iff x.owner_uuid b,
    eq_iff a t,
    eq_iff b u,
  )

  pub find_draft-update_draft_other :
      (set : DraftRow → DraftRow) (rows : List DraftRow)
      → ((x : DraftRow) → owned_by t u x ≡ true → owned_by t u (set x) ≡ true)
      → find_draft a b (update_draft t u set rows) ≡ find_draft a b rows
  unfolding find_draft update_draft
  find_draft-update_draft_other set [] keep = refl
  find_draft-update_draft_other set (x ∷ rows) keep = elim (Bool-cases (owned_by t u x)) [
    | inl e ↦
        rw (update_draft, e, find_draft, not_owned x e, not_owned (set x) (keep x e))
          (find_draft-update_draft_other set rows keep)
    | inr e ↦ elim (Bool-cases (owned_by a b x)) [
      | inl o ↦ rw (update_draft, e, find_draft, o) refl
      | inr o ↦ rw (update_draft, e, find_draft, o) (find_draft-update_draft_other set rows keep)
    ]
  ]

  pub find_draft-filter_other :
      (rows : List DraftRow)
      → find_draft a b (filter (λ row. not (owned_by t u row)) rows) ≡ find_draft a b rows
  unfolding find_draft
  find_draft-filter_other [] = refl
  find_draft-filter_other (x ∷ rows) = elim (Bool-cases (owned_by t u x)) [
    | inl e ↦ rw (e, find_draft, not_owned x e) (find_draft-filter_other rows)
    | inr e ↦ elim (Bool-cases (owned_by a b x)) [
      | inl o ↦ rw (e, find_draft, o) refl
      | inr o ↦ rw (e, find_draft, o) (find_draft-filter_other rows)
    ]
  ]

  pub find_draft-append_other :
      (rows : List DraftRow) (row : DraftRow)
      → owned_by t u row ≡ true
      → find_draft a b (rows ++ row ∷ []) ≡ find_draft a b rows
  unfolding find_draft
  find_draft-append_other [] row h = rw (not_owned row h) refl
  find_draft-append_other (x ∷ rows) row h = elim (Bool-cases (owned_by a b x)) [
    | inl o ↦ rw (find_draft, o) refl
    | inr o ↦ rw (find_draft, o) (find_draft-append_other rows row h)
  ]

  artifact_not_owned :
      (x : DraftArtifact) → artifact_owned_by t u x ≡ true → artifact_owned_by a b x ≡ false
  artifact_not_owned x h = ground (
    arith,
    eq_iff x.owner_type t,
    eq_iff x.owner_uuid u,
    eq_iff x.owner_type a,
    eq_iff x.owner_uuid b,
    eq_iff a t,
    eq_iff b u,
  )

  pub draft_refs-filter_other :
      (rows : List DraftArtifact)
      → draft_refs a b (filter (λ row. not (artifact_owned_by t u row)) rows) ≡ draft_refs a b rows
  unfolding draft_refs
  draft_refs-filter_other [] = refl
  draft_refs-filter_other (x ∷ rows) = elim (Bool-cases (artifact_owned_by t u x)) [
    | inl e ↦ rw (e, draft_refs, artifact_not_owned x e) (draft_refs-filter_other rows)
    | inr e ↦ elim (Bool-cases (artifact_owned_by a b x)) [
      | inl o ↦ rw (e, draft_refs, o) (ap (λ z. x.artifact ∷ z) (draft_refs-filter_other rows))
      | inr o ↦ rw (e, draft_refs, o) (draft_refs-filter_other rows)
    ]
  ]

  pub draft_refs-append_other :
      (rows : List DraftArtifact) (refs : List ArtifactRef)
      → draft_refs a b (rows ++ map (draft_artifact t u) refs) ≡ draft_refs a b rows
  unfolding draft_refs
  draft_refs-append_other [] [] = refl
  draft_refs-append_other [] (ref ∷ refs) =
      rw
        (
          draft_refs,
          artifact_not_owned (draft_artifact t u ref) (ground (arith, eq_iff t t, eq_iff u u)),
        )
        (draft_refs-append_other [] refs)
  draft_refs-append_other (x ∷ rows) refs = elim (Bool-cases (artifact_owned_by a b x)) [
    | inl o ↦ rw (draft_refs, o) (ap (λ z. x.artifact ∷ z) (draft_refs-append_other rows refs))
    | inr o ↦ rw (draft_refs, o) (draft_refs-append_other rows refs)
  ]

-- No draft is left for the owner whose rows are deleted.
pub find_draft-filter :
    (t u : String) (rows : List DraftRow)
    → find_draft t u (filter (λ row. not (owned_by t u row)) rows) ≡ none
unfolding find_draft
find_draft-filter t u [] = refl
find_draft-filter t u (x ∷ rows) = elim (Bool-cases (owned_by t u x)) [
  | inl e ↦ rw e (find_draft-filter t u rows)
  | inr e ↦ rw (e, find_draft, e) (find_draft-filter t u rows)
]

pub same_key_eq : (a b t u : String) → same_key a b t u ≡ true → (a ≡ t) × (b ≡ u)
same_key_eq a b t u h = ground (arith, eq_iff a t, eq_iff b u)
