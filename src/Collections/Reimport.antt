-- ===== src/Collections/Reimport.antt =====
-- `ImportCollection` (internal/repo/collection.go) twice with the same input.
use opentea.Prelude.{
  ℕ, String, ◌≡◌, refl, ap, ◌∙◌, subst, true, false, ◌&&◌, Bool-cases, inl, inr, List, [], ◌∷◌,
  ◌++◌, arith, eq_iff, eqb, eqb_iff, ◌==◌, ok, Result-cases, All, All-mem, All-of_mem, Memᴰ,
}
use opentea.Repo.{parse_time, format_time}
use opentea.Repo.Identity.{set_equal_self}
use opentea.Repo.Database.{Collection, CollectionRow, CollectionArtifact, Database}
use opentea.Collections.{
  same_ref, is_ok, get_artifacts, reason_type, reason_comment, reason_of, list_collection_artifacts,
  collection_refs, insert_collection_artifacts,
}
use opentea.Collections.Versions.{
  insert_collection_artifacts-append, collection_refs-append, collection_refs-map,
}
use opentea.Collections.ReadBack.{HasCollection, IsConsistent}
use opentea.Collections.References.{get_artifacts-map-ref_of}
use opentea.Collections.Import.{
  ImportCollectionInput, find_collection_unfiltered, get_collection_by_version_unfiltered,
  collection_conflicts, import_row, store_import, import_collection,
  find_collection_unfiltered-append, insert_collection_artifacts-get_artifacts, ptr_equal-reason_of,
  same_ref_self,
}

find_collection_unfiltered-mem :
    (uuid : String) (version : ℕ) (rows : List CollectionRow) (row : CollectionRow)
    → Memᴰ row rows
    → row.uuid ≡ uuid
    → row.version ≡ version
    → is_ok (find_collection_unfiltered uuid version rows) ≡ true
unfolding find_collection_unfiltered
find_collection_unfiltered-mem uuid version [] row m e f = elim m [ ]
find_collection_unfiltered-mem uuid version (x ∷ rows) row (Memᴰ.head q) e f =
    let e' = subst (λ z. z.uuid ≡ uuid) q e in
    let f' = subst (λ z. z.version ≡ version) q f in
    ground (arith, eq_iff x.uuid uuid, eqb_iff x.version version)
find_collection_unfiltered-mem uuid version (x ∷ rows) row (Memᴰ.tail m) e f =
    let ih = find_collection_unfiltered-mem uuid version rows row m e f in ground arith

-- A version that is not stored has no references.
absent-collection_refs :
    (uuid : String) (version : ℕ) (db : Database)
    → IsConsistent db
    → is_ok (find_collection_unfiltered uuid version db.collections) ≡ false
    → All
        (λ r. (r.collection_uuid == uuid) && eqb r.collection_version version ≡ false)
        db.collection_artifacts
absent-collection_refs uuid version db con h =
    All-of_mem (λ r. (r.collection_uuid == uuid) && eqb r.collection_version version ≡ false)
      db.collection_artifacts
      (λ r m.
        let has = All-mem (HasCollection db.collections) m con in
        elim (Bool-cases ((r.collection_uuid == uuid) && eqb r.collection_version version)) [
          | inr e ↦ e
          | inl e ↦
              let u : r.collection_uuid ≡ uuid = ground (arith, eq_iff r.collection_uuid uuid) in
              let v : r.collection_version ≡ version =
                ground (arith, eqb_iff r.collection_version version) in
              let there =
                find_collection_unfiltered-mem uuid version db.collections has.row has.stored
                  (has.named ∙ u) (has.versioned ∙ v) in
              absurd (ground arith)
        ])

module _ (input : ImportCollectionInput) (db db' : Database) where
  created_by : import_collection input db ≡ ok (true, db') → store_import input db ≡ ok (true, db')
  unfolding import_collection
  created_by h =
      elim (Result-cases (get_collection_by_version_unfiltered db input.uuid input.version)) [
        | inl (c, e) ↦ absurd (ground arith)
        | inr (x, e) ↦ ground arith
      ]

  store_import-parts :
      store_import input db ≡ ok (true, db')
      → (rows : List CollectionArtifact) × (insert_collection_artifacts db.artifacts input.uuid
            input.version input.artifacts db.collection_artifacts
          ≡ ok rows)
        × (is_ok (find_collection_unfiltered input.uuid input.version db.collections) ≡ false)
        × (db'.collections ≡ db.collections ++ import_row input ∷ [])
        × (db'.artifacts ≡ db.artifacts)
        × (db'.collection_artifacts ≡ rows)
  unfolding store_import
  store_import-parts h =
      elim (Result-cases (
        insert_collection_artifacts db.artifacts input.uuid input.version input.artifacts
          db.collection_artifacts)) [
            | inl (rows, f) ↦ (rows, f, ground arith, ground arith, ground arith, ground arith)
            | inr (x, f) ↦ absurd (ground arith)
          ]

  reimport :
      (c : Collection)
      → get_collection_by_version_unfiltered db' input.uuid input.version ≡ ok c
      → collection_conflicts c input ≡ false
      → import_collection input db' ≡ ok (false, db')
  unfolding import_collection
  reimport c got agrees = ground arith

  -- An import is idempotent: where the references of `collection_artifact` are good, and the date has no
  -- part of a second, importing again what was created finds it, reports no conflict, and changes nothing.
  pub import_collection-again :
      IsConsistent db
      → parse_time (format_time input.created_date) ≡ input.created_date
      → import_collection input db ≡ ok (true, db')
      → import_collection input db' ≡ ok (false, db')
  unfolding get_collection_by_version_unfiltered list_collection_artifacts collection_conflicts
  import_collection-again con whole h =
      let (rows, inserted, absent, ec, ea, el) = store_import-parts (created_by h) in
      let (found, g) =
        insert_collection_artifacts-get_artifacts db.artifacts input.uuid input.version
          input.artifacts db.collection_artifacts rows inserted in
      let row : find_collection_unfiltered input.uuid input.version db'.collections
          ≡ ok (import_row input) =
        rw ec (
          find_collection_unfiltered-append input.uuid input.version db.collections
            (import_row input) absent refl refl) in
      let refs : collection_refs input.uuid input.version db'.collection_artifacts
          ≡ input.artifacts =
        ap (collection_refs input.uuid input.version) (
          el
          ∙ insert_collection_artifacts-append db.artifacts input.uuid input.version input.artifacts
              db.collection_artifacts rows inserted)
        ∙ collection_refs-append input.uuid input.version db.collection_artifacts _
            (absent-collection_refs input.uuid input.version db con absent)
        ∙ collection_refs-map input.uuid input.version input.artifacts in
      let resolved : get_artifacts db'.artifacts input.artifacts ≡ ok found = rw ea g in
      let (same, _) = get_artifacts-map-ref_of db.artifacts input.artifacts found g in
      let c : Collection = record {
        uuid = input.uuid;
        version = input.version;
        created_date = parse_time (format_time input.created_date);
        belongs_to = input.belongs_to;
        artifacts = found;
        update_reason =
            reason_of (reason_type input.update_reason) (reason_comment input.update_reason);
      } in
      let got : get_collection_by_version_unfiltered db' input.uuid input.version ≡ ok c =
        rw (row, refs, resolved) refl in
      let agrees : collection_conflicts c input ≡ false =
        rw
          (
            (eq_iff input.belongs_to input.belongs_to).1 refl,
            (eqb_iff (parse_time (format_time input.created_date)) input.created_date).1 whole,
            ptr_equal-reason_of input.update_reason,
            same,
            set_equal_self same_ref same_ref_self input.artifacts,
          )
          refl in
      reimport c got agrees
