-- ===== src/Collections/Tests.antt =====
-- The properties of internal/repo/collection.go at a first and a second version.
use opentea.Prelude.{◌+◌, ◌*◌, ◌≡◌, refl, true, false, none, some, [], ◌∷◌, ok, err}
use opentea.Repo.{second, null_if_empty, import_identity_conflict}
use opentea.Repo.Identity.{to_set, set_equal}
use opentea.Repo.Database.{Collection, Database}
use opentea.Collections.{
  CollectionInput, find_artifact, get_artifacts, max_version, next_version, collection_refs,
  get_latest_collection, list_collection_artifacts, find_collection, get_collection_by_version,
  reason_allowed, insert_collection_artifact, insert_collection_artifacts, create_collection,
}
use opentea.Collections.Import.{
  ImportCollectionInput, find_collection_unfiltered, get_collection_by_version_unfiltered,
  collection_conflicts, store_import, import_collection,
}
use opentea.Collections.Latest.{create_collection-get_latest}
use opentea.Collections.Reimport.{import_collection-again}
use opentea.Collections.ReadBack.{IsConsistent, IsCreated, create_collection-IsCreated}
use opentea.Collections.References.{create_collection-IsConsistent}

abbrev empty : Database
empty = record {
  product_releases = "r1" ∷ [];
  component_releases = [];
  artifacts =
      record { uuid = "a1"; version = 1; content = "sbom" }
      ∷ record { uuid = "a2"; version = 3; content = "vex" }
      ∷ [];
  collections = [];
  collection_artifacts = [];
  collections_watermark = 0;
  drafts = [];
  draft_artifacts = [];
  used_fingerprints = [];
  evidence_bundles = [];
}

abbrev first : CollectionInput
first = record {
  update_reason = none;
  artifacts = record { uuid = "a1"; version = 1 } ∷ [];
  created_date = none;
}

abbrev again : CollectionInput
again = record {
  update_reason = some (record { type = "ARTIFACT_ADDED"; comment = "vex" });
  artifacts = record { uuid = "a2"; version = 3 } ∷ record { uuid = "a1"; version = 1 } ∷ [];
  created_date = some (70 * second);
}

first_ok :
    (c : Collection) × (db' : Database) × (create_collection empty
        (50 * second)
        "r1"
        "PRODUCT_RELEASE"
        first
      ≡ ok (c, db'))
unfolding create_collection next_version max_version reason_allowed insert_collection_artifacts
    insert_collection_artifact find_artifact get_collection_by_version find_collection
    list_collection_artifacts collection_refs get_artifacts null_if_empty
first_ok = (_, _, refl)

first_IsConsistent : IsConsistent first_ok.1
first_IsConsistent =
    create_collection-IsConsistent empty first_ok.1 (50 * second) "r1" "PRODUCT_RELEASE" first
      first_ok.0 tt first_ok.2

again_ok :
    (c : Collection) × (db' : Database) × (create_collection first_ok.1
        (60 * second)
        "r1"
        "PRODUCT_RELEASE"
        again
      ≡ ok (c, db'))
unfolding first_ok create_collection next_version max_version reason_allowed
    insert_collection_artifacts insert_collection_artifact find_artifact get_collection_by_version
    find_collection list_collection_artifacts collection_refs get_artifacts null_if_empty
again_ok = (_, _, refl)

create_collection-IsCreated_example :
    IsCreated first_ok.1 (60 * second) "r1" "PRODUCT_RELEASE" again again_ok.0 again_ok.1
create_collection-IsCreated_example =
    create_collection-IsCreated first_ok.1 (60 * second) "r1" "PRODUCT_RELEASE" again again_ok.0
      again_ok.1 first_IsConsistent again_ok.2

create_collection-IsConsistent_example : IsConsistent again_ok.1
create_collection-IsConsistent_example =
    create_collection-IsConsistent first_ok.1 again_ok.1 (60 * second) "r1" "PRODUCT_RELEASE" again
      again_ok.0 first_IsConsistent again_ok.2

abbrev bundled : ImportCollectionInput
bundled = record {
  uuid = "r1";
  version = 4;
  created_date = 70 * second;
  belongs_to = "PRODUCT_RELEASE";
  update_reason = some (record { type = "VEX_UPDATED"; comment = "" });
  artifacts = record { uuid = "a2"; version = 3 } ∷ record { uuid = "a1"; version = 1 } ∷ [];
}

import_ok : (db' : Database) × (import_collection bundled empty ≡ ok (true, db'))
unfolding import_collection get_collection_by_version_unfiltered find_collection_unfiltered
    store_import reason_allowed insert_collection_artifacts insert_collection_artifact find_artifact
    null_if_empty
import_ok = (_, refl)

import_collection-again_example : import_collection bundled import_ok.0 ≡ ok (false, import_ok.0)
import_collection-again_example =
    import_collection-again bundled empty import_ok.0 tt refl import_ok.1

-- With a part of a second in the date, the second import is a conflict.
abbrev fractional : ImportCollectionInput
fractional = record bundled { created_date = 70 * second + 1 }

fractional_ok : (db' : Database) × (import_collection fractional empty ≡ ok (true, db'))
unfolding import_collection get_collection_by_version_unfiltered find_collection_unfiltered
    store_import reason_allowed insert_collection_artifacts insert_collection_artifact find_artifact
    null_if_empty
fractional_ok = (_, refl)

fractional_conflict : import_collection fractional fractional_ok.0 ≡ err import_identity_conflict
unfolding fractional_ok import_collection get_collection_by_version_unfiltered
    find_collection_unfiltered list_collection_artifacts collection_refs get_artifacts find_artifact
    collection_conflicts set_equal to_set null_if_empty
fractional_conflict = refl

create_collection-get_latest_example :
    get_latest_collection again_ok.1 "r1" "PRODUCT_RELEASE" ≡ ok again_ok.0
create_collection-get_latest_example =
    create_collection-get_latest first_ok.1 again_ok.1 (60 * second) "r1" "PRODUCT_RELEASE" again
      again_ok.0 again_ok.2
