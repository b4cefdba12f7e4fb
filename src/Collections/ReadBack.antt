-- ===== src/Collections/ReadBack.antt =====
-- `createCollection` (internal/repo/collection.go) as a whole: what it returns, reads back as what it
-- was given, and what it leaves of the tables.
use opentea.Prelude.{
  ℕ, String, ◌≡◌, refl, ap, ◌∙◌, false, ◌&&◌, inl, inr, Bool-cases, List, [], ◌∷◌, ◌++◌, map, arith,
  eq_iff, eqb, eqb_iff, ◌==◌, ok, Result-cases, All, All-mem, All-of_mem, Memᴰ,
}
use opentea.Repo.{parse_time, format_time}
use opentea.Repo.Database.{Collection, CollectionRow, CollectionArtifact, Database}
use opentea.Collections.{
  CollectionInput, next_version, insert_collection_artifacts, find_collection, collection_refs,
  get_artifacts, list_collection_artifacts, get_collection_by_version, create_collection, or_now,
  reason_type, reason_comment, reason_of,
}
use opentea.Collections.Versions.{
  next_version-lt, next_version-absent, find_collection-append, collection_artifact,
  insert_collection_artifacts-append, collection_refs-append, collection_refs-map,
}

-- The reference of `collection_artifact` to `collection`: the version exists.
pub record HasCollection (rows : List CollectionRow) (r : CollectionArtifact) : Type 0 where
  pub row : CollectionRow
  pub stored : Memᴰ row rows
  pub named : row.uuid ≡ r.collection_uuid
  pub versioned : row.version ≡ r.collection_version

abbrev pub IsConsistent : Database → Type 0
IsConsistent db = All (HasCollection db.collections) db.collection_artifacts

pub next_version-collection_refs-absent :
    (uuid : String) (db : Database)
    → IsConsistent db
    → All
        (λ r.
          (r.collection_uuid == uuid) && eqb r.collection_version (next_version uuid db.collections)
          ≡ false)
        db.collection_artifacts
next_version-collection_refs-absent uuid db c =
    All-of_mem
      (λ r.
        (r.collection_uuid == uuid) && eqb r.collection_version (next_version uuid db.collections)
        ≡ false)
      db.collection_artifacts
      (λ r m.
        let has = All-mem (HasCollection db.collections) m c in
        elim (Bool-cases (r.collection_uuid == uuid)) [
          | inl e ↦
              let lt =
                next_version-lt uuid db.collections has.row has.stored
                  (has.named ∙ (eq_iff r.collection_uuid uuid).0 e) in
              let v = has.versioned in
              ground (arith, eqb_iff r.collection_version (next_version uuid db.collections))
          | inr e ↦ ground arith
        ])

-- What `createCollection` returns and leaves.
pub record IsCreated (db : Database) (now : ℕ) (uuid belongs_to : String) (input : CollectionInput)
    (c : Collection) (db' : Database) : Type 0 where
  pub named : (c.uuid ≡ uuid) × (c.belongs_to ≡ belongs_to)
  pub versioned : c.version ≡ next_version uuid db.collections
  pub dated : c.created_date ≡ parse_time (format_time (or_now now input.created_date))
  pub resolved : get_artifacts db.artifacts input.artifacts ≡ ok c.artifacts
  pub reasoned :
      c.update_reason
      ≡ reason_of (reason_type input.update_reason) (reason_comment input.update_reason)
  pub kept :
      (row : CollectionRow) × (db'.collections ≡ db.collections ++ row ∷ [])
      × ((row.uuid ≡ uuid) × (row.version ≡ next_version uuid db.collections))
  pub linked :
      db'.collection_artifacts
      ≡ db.collection_artifacts
        ++ map (collection_artifact uuid (next_version uuid db.collections)) input.artifacts
  pub unchanged :
      (db'.artifacts ≡ db.artifacts)
      × (db'.drafts ≡ db.drafts)
      × (db'.draft_artifacts ≡ db.draft_artifacts)
      × (db'.evidence_bundles ≡ db.evidence_bundles)
      × (db'.used_fingerprints ≡ db.used_fingerprints)

module _ (db : Database) (now : ℕ) (uuid belongs_to : String) (input : CollectionInput) where
  -- The row of the new version.
  abbrev pub created_row : CollectionRow
  created_row = record {
    uuid = uuid;
    version = next_version uuid db.collections;
    date = format_time (or_now now input.created_date);
    belongs_to = belongs_to;
    update_reason_type = reason_type input.update_reason;
    update_reason_comment = reason_comment input.update_reason;
  }

  read_back :
      {c : Collection} (db' : Database)
      → IsConsistent db
      → db'.collections ≡ db.collections ++ created_row ∷ []
      → db'.artifacts ≡ db.artifacts
      → db'.collection_artifacts
        ≡ db.collection_artifacts
          ++ map (collection_artifact uuid (next_version uuid db.collections)) input.artifacts
      → get_collection_by_version db' uuid (next_version uuid db.collections) belongs_to ≡ ok c
      → (get_artifacts db.artifacts input.artifacts ≡ ok c.artifacts)
        × (c ≡ record {
          uuid = uuid;
          version = next_version uuid db.collections;
          created_date = parse_time (format_time (or_now now input.created_date));
          belongs_to = belongs_to;
          artifacts = c.artifacts;
          update_reason =
              reason_of (reason_type input.update_reason) (reason_comment input.update_reason);
        })
  unfolding get_collection_by_version list_collection_artifacts
  read_back {c} db' con ec ea er h =
      let v = next_version uuid db.collections in
      let found : find_collection uuid v belongs_to db'.collections ≡ ok created_row = rw ec (
        find_collection-append uuid v db.collections created_row
          (next_version-absent uuid db.collections) refl refl) in
      let refs : collection_refs uuid v db'.collection_artifacts ≡ input.artifacts = rw er (
        collection_refs-append uuid v db.collection_artifacts _
          (next_version-collection_refs-absent uuid db con)
        ∙ collection_refs-map uuid v input.artifacts) in
      (ground arith, ground arith)

  -- A collection that `createCollection` returns has the next version, the date and the reason that
  -- were given, and the artifacts that the refs resolve to; the tables gain its rows and lose none.
  pub create_collection-IsCreated :
      (c : Collection) (db' : Database)
      → IsConsistent db
      → create_collection db now uuid belongs_to input ≡ ok (c, db')
      → IsCreated db now uuid belongs_to input c db'
  unfolding create_collection
  create_collection-IsCreated c db' con h =
      let v = next_version uuid db.collections in
      elim (Result-cases
        (insert_collection_artifacts db.artifacts uuid v input.artifacts db.collection_artifacts)) [
          | inr (e, f) ↦ absurd (ground arith)
          | inl (rows, f) ↦
              let ec : db'.collections ≡ db.collections ++ created_row ∷ [] = ground arith in
              let ea : db'.artifacts ≡ db.artifacts = ground arith in
              let el : db'.collection_artifacts ≡ rows = ground arith in
              let read : get_collection_by_version db' uuid v belongs_to ≡ ok c = ground arith in
              let linked =
                el
                ∙ insert_collection_artifacts-append db.artifacts uuid v input.artifacts
                    db.collection_artifacts rows f in
              let (resolved, is) = read_back db' con ec ea linked read in
              record {
                named = (ap (λ z. z.uuid) is, ap (λ z. z.belongs_to) is);
                versioned = ap (λ z. z.version) is;
                dated = ap (λ z. z.created_date) is;
                resolved = resolved;
                reasoned = ap (λ z. z.update_reason) is;
                kept = (created_row, ec, (refl, refl));
                linked = linked;
                unchanged = (ea, ground arith, ground arith, ground arith, ground arith);
              }
        ]
