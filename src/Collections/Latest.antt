-- ===== src/Collections/Latest.antt =====
-- `GetLatestCollection` (internal/repo/collection.go) after a creation.
use opentea.Prelude.{
  ℕ, ◌<◌, String, ◌≡◌, refl, Bool, true, ◌&&◌, Bool-cases, inl, inr, some, List, [], ◌∷◌, ◌++◌,
  arith, eq_iff, ◌==◌, ok, Result-cases, Memᴰ,
}
use opentea.Repo.Database.{Collection, CollectionRow, Database}
use opentea.Collections.{
  CollectionInput, max_version, next_version, latest_collection_version,
  insert_collection_artifacts, get_collection_by_version, get_latest_collection, create_collection,
}
use opentea.Collections.Versions.{next_version-lt}
use opentea.Collections.ReadBack.{created_row}

max_version-append :
    (test : CollectionRow → Bool) (rows : List CollectionRow) (row : CollectionRow)
    → test row ≡ true
    → ((r : CollectionRow) → Memᴰ r rows → test r ≡ true → r.version < row.version)
    → max_version test (rows ++ row ∷ []) ≡ some row.version
unfolding max_version
max_version-append test [] row t h = rw t refl
max_version-append test (x ∷ rows) row t h =
    let ih = max_version-append test rows row t (λ r m k. h r (Memᴰ.tail m) k) in
    elim (Bool-cases (test x)) [
      | inr e ↦ rw e ih
      | inl e ↦ let lt = h x (Memᴰ.head refl) e in rw (e, ih) (ground arith)
    ]

module _ (db db' : Database) (now : ℕ) (uuid belongs_to : String) (input : CollectionInput)
    (c : Collection) where
  create_collection-read :
      create_collection db now uuid belongs_to input ≡ ok (c, db')
      → (db'.collections ≡ db.collections ++ created_row db now uuid belongs_to input ∷ [])
        × (get_collection_by_version db' uuid (next_version uuid db.collections) belongs_to ≡ ok c)
  unfolding create_collection
  create_collection-read h =
      elim (Result-cases (
        insert_collection_artifacts db.artifacts uuid (next_version uuid db.collections)
          input.artifacts db.collection_artifacts)) [
            | inl (rows, f) ↦ (ground arith, ground arith)
            | inr (e, f) ↦ absurd (ground arith)
          ]

  -- Right after a collection is created for an owner and a type of release, it is the latest one.
  pub create_collection-get_latest :
      create_collection db now uuid belongs_to input ≡ ok (c, db')
      → get_latest_collection db' uuid belongs_to ≡ ok c
  unfolding get_latest_collection latest_collection_version
  create_collection-get_latest h =
      let (stored, read) = create_collection-read h in
      let row = created_row db now uuid belongs_to input in
      let test : CollectionRow → Bool = λ r. (r.uuid == uuid) && (r.belongs_to == belongs_to) in
      let newest : max_version test db'.collections ≡ some row.version = rw stored (
        max_version-append test db.collections row
          (ground (arith, eq_iff uuid uuid, eq_iff belongs_to belongs_to))
          (λ r m k.
            next_version-lt uuid db.collections r m (ground (arith, eq_iff r.uuid uuid)))) in
      rw (get_latest_collection, newest) read
