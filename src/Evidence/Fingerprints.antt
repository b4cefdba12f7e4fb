-- ===== src/Evidence/Fingerprints.antt =====
-- `CreateEvidenceBundle` (internal/repo/evidencebundle.go) over repeated calls: a certificate
-- fingerprint serves one signature.
use opentea.Prelude.{
  String, ◌≡◌, ◌≢◌, refl, subst, true, false, none, some, Option-cases, Bool-cases, inl, inr, List,
  [], ◌∷◌, ◌++◌, arith, eq_iff, eqb_iff, ◌==◌, any, ok, err,
}
use opentea.Repo.{fingerprint_used}
use opentea.Repo.Database.{EvidenceBundle, UsedFingerprint, Database}
use opentea.Evidence.{
  EvidenceBundleInput, owner_exists, find_fingerprint, find_bundle, is_identical, identical_bundle,
  bundle_of, store_bundle, create_evidence_bundle,
}

abbrev fingerprint_row : String → EvidenceBundleInput → UsedFingerprint
fingerprint_row fresh input = record {
  fingerprint = input.certificate_fingerprint;
  trust_domain = input.certificate_trust_domain;
  evidence_bundle_uuid = some fresh;
}

find_fingerprint-append :
    (f : String) (rows : List UsedFingerprint) (row : UsedFingerprint)
    → find_fingerprint f rows ≡ none
    → row.fingerprint ≡ f
    → find_fingerprint f (rows ++ row ∷ []) ≡ some row.evidence_bundle_uuid
unfolding find_fingerprint
find_fingerprint-append f [] row h e = ground (arith, eq_iff row.fingerprint f)
find_fingerprint-append f (x ∷ rows) row h e = elim (Bool-cases (x.fingerprint == f)) [
  | inl q ↦ absurd (let k = rw (q, find_fingerprint) at h in cc)
  | inr q ↦ rw q (find_fingerprint-append f rows row (rw (q, find_fingerprint) at h) e)
]

find_bundle-append :
    (uuid : String) (rows : List EvidenceBundle) (b : EvidenceBundle)
    → any (λ x. x.uuid == uuid) rows ≡ false
    → b.uuid ≡ uuid
    → find_bundle uuid (rows ++ b ∷ []) ≡ some b
unfolding find_bundle
find_bundle-append uuid [] b h e = ground (arith, eq_iff b.uuid uuid)
find_bundle-append uuid (x ∷ rows) b h e = elim (Bool-cases (x.uuid == uuid)) [
  | inl q ↦ absurd (ground arith)
  | inr q ↦ rw q (find_bundle-append uuid rows b (ground arith) e)
]

is_identical-bundle_of :
    (fresh : String) (input : EvidenceBundleInput)
    → is_identical input (bundle_of fresh input) ≡ true
is_identical-bundle_of fresh input = ground (
  arith,
  eq_iff input.owner_type input.owner_type,
  eq_iff input.owner_uuid input.owner_uuid,
  eqb_iff input.owner_version input.owner_version,
  eq_iff input.object_digest_value input.object_digest_value,
  eq_iff input.signature_format input.signature_format,
  eq_iff input.signature_value input.signature_value,
  eq_iff input.certificate_value input.certificate_value,
)

-- What a call that succeeds leaves: the fingerprint is registered for the bundle that it returned,
-- and the bundle holds what was sent.
pub record IsRegistered (input : EvidenceBundleInput) (b : EvidenceBundle) (db : Database)
    : Type 0 where
  pub uuid : String
  pub registered :
      find_fingerprint input.certificate_fingerprint db.used_fingerprints ≡ some (some uuid)
  pub stored : find_bundle uuid db.evidence_bundles ≡ some b
  pub identical : is_identical input b ≡ true
  pub owned : owner_exists db input.owner_type input.owner_uuid input.owner_version ≡ ok true

store_bundle-IsRegistered :
    (fresh : String) (input : EvidenceBundleInput) (db db' : Database) (b : EvidenceBundle)
    → find_fingerprint input.certificate_fingerprint db.used_fingerprints ≡ none
    → owner_exists db input.owner_type input.owner_uuid input.owner_version ≡ ok true
    → store_bundle fresh input db ≡ ok (b, db')
    → IsRegistered input b db'
unfolding store_bundle owner_exists
store_bundle-IsRegistered fresh input db db' b f o h =
    let is : b ≡ bundle_of fresh input = ground arith in
    let new : any (λ x. x.uuid == fresh) db.evidence_bundles ≡ false = ground arith in
    let eu : db'.used_fingerprints ≡ db.used_fingerprints ++ fingerprint_row fresh input ∷ [] =
      ground arith in
    let eb : db'.evidence_bundles ≡ db.evidence_bundles ++ bundle_of fresh input ∷ [] =
      ground arith in
    record {
      uuid = fresh;
      registered = rw eu (
          find_fingerprint-append input.certificate_fingerprint db.used_fingerprints
            (fingerprint_row fresh input) f refl);
      stored =
          rw (eb, is)
            (find_bundle-append fresh db.evidence_bundles (bundle_of fresh input) new refl);
      identical = rw is (is_identical-bundle_of fresh input);
      owned = ground arith;
    }

module _ (fresh : String) (input : EvidenceBundleInput) (db db' : Database)
    (b : EvidenceBundle) where
  pub create_evidence_bundle-IsRegistered :
      create_evidence_bundle fresh input db ≡ ok (b, db') → IsRegistered input b db'
  unfolding create_evidence_bundle identical_bundle
  create_evidence_bundle-IsRegistered h =
      let owned : owner_exists db input.owner_type input.owner_uuid input.owner_version ≡ ok true =
        ground arith in
      elim (Option-cases (find_fingerprint input.certificate_fingerprint db.used_fingerprints)) [
        | inl f ↦ store_bundle-IsRegistered fresh input db db' b f owned (ground arith)
        | inr (none, f) ↦ absurd (ground arith)
        | inr (some uuid, f) ↦ elim (Option-cases (find_bundle uuid db.evidence_bundles)) [
          | inl g ↦ absurd (ground arith)
          | inr (old, g) ↦
              let same : db ≡ db' = ground arith in
              subst (IsRegistered input b) same (record {
                uuid = uuid;
                registered = f;
                stored = ground arith;
                identical = ground arith;
                owned = owned;
              })
        ]
      ]

  -- A call that is sent again, whatever its fresh uuid, returns the bundle of the first and stores
  -- nothing.
  pub create_evidence_bundle-retry :
      (fresh' : String)
      → create_evidence_bundle fresh input db ≡ ok (b, db')
      → create_evidence_bundle fresh' input db' ≡ ok (b, db')
  unfolding create_evidence_bundle identical_bundle
  create_evidence_bundle-retry fresh' h =
      let is = create_evidence_bundle-IsRegistered h in
      let r = is.registered in
      let s = is.stored in let i = is.identical in let o = is.owned in ground arith

  -- A fingerprint that was used is refused for another signature: a call with the same fingerprint
  -- and another signature value, whose owner exists, answers that it is used.
  pub create_evidence_bundle-fingerprint_used :
      (fresh' : String) (other : EvidenceBundleInput)
      → create_evidence_bundle fresh input db ≡ ok (b, db')
      → other.certificate_fingerprint ≡ input.certificate_fingerprint
      → other.signature_value ≢ input.signature_value
      → owner_exists db' other.owner_type other.owner_uuid other.owner_version ≡ ok true
      → create_evidence_bundle fresh' other db' ≡ err fingerprint_used
  unfolding create_evidence_bundle identical_bundle
  create_evidence_bundle-fingerprint_used fresh' other h e n o' =
      let is = create_evidence_bundle-IsRegistered h in
      let r = is.registered in
      let s = is.stored in
      let i = is.identical in
      ground (
        arith,
        eq_iff b.signature_value input.signature_value,
        eq_iff b.signature_value other.signature_value,
      )
