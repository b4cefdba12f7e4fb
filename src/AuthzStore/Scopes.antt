-- ===== src/AuthzStore/Scopes.antt =====
-- The scopes that contain a resource, as relations over the tables of internal/repo/authzstore.go.
use opentea.Prelude.{
  ℕ, String, ◌≡◌, ◌≢◌, List, [], ◌∷◌, some, Memᴰ, eq_iff, ◌==◌, Bool-cases, inl, inr,
}
use opentea.Repo.{lookup}
use opentea.Authz.{Resource}
use opentea.AuthzStore.{Tables, Scope, owners_of, distinct, contains}

abbrev pub scope : ℕ → String → String → Scope
scope level type id = record { level = level; resource_type = type; resource_id = id }

pub data ComponentScope (uuid : String) (sc : Scope) : Type 0 where
  everywhere : sc ≡ scope 0 "all_products" "" → ComponentScope uuid sc
  itself : sc ≡ scope 2 "component" uuid → ComponentScope uuid sc

pub data ComponentReleaseScope (db : Tables) (uuid : String) (sc : Scope) : Type 0 where
  of_component :
      (c : String)
      → lookup uuid db.component_releases ≡ some c
      → ComponentScope c sc
      → ComponentReleaseScope db uuid sc
  itself : sc ≡ scope 4 "component_release" uuid → ComponentReleaseScope db uuid sc

pub data ProductScope (db : Tables) (uuid : String) (sc : Scope) : Type 0 where
  everywhere : sc ≡ scope 0 "all_products" "" → ProductScope db uuid sc
  in_group :
      (g : String)
      → Memᴰ (g, uuid) db.product_group_members
      → sc ≡ scope 1 "product_group" g
      → ProductScope db uuid sc
  itself : sc ≡ scope 2 "product" uuid → ProductScope db uuid sc

pub data ReleaseScope (db : Tables) (uuid : String) (sc : Scope) : Type 0 where
  of_product :
      (p : String)
      → lookup uuid db.product_releases ≡ some p
      → ProductScope db p sc
      → ReleaseScope db uuid sc
  in_group :
      (g : String)
      → Memᴰ (g, uuid) db.release_group_members
      → sc ≡ scope 3 "release_group" g
      → ReleaseScope db uuid sc
  itself : sc ≡ scope 4 "product_release" uuid → ReleaseScope db uuid sc

-- A collection has the uuid of the release that owns it.
pub data CollectionScope (db : Tables) (uuid : String) (sc : Scope) : Type 0 where
  of_product_release :
      lookup uuid db.collections ≡ some "PRODUCT_RELEASE"
      → ReleaseScope db uuid sc
      → CollectionScope db uuid sc
  of_component_release :
      (b : String)
      → lookup uuid db.collections ≡ some b
      → b ≢ "PRODUCT_RELEASE"
      → ComponentReleaseScope db uuid sc
      → CollectionScope db uuid sc
  itself : sc ≡ scope 5 "collection" uuid → CollectionScope db uuid sc

-- The collection through which an artifact is reached: the one that the caller names, and if it
-- names none, each that lists the artifact.
pub data Reaches (db : Tables) (r : Resource) (uuid : String) : Type 0 where
  named : r.collection_uuid ≢ "" → uuid ≡ r.collection_uuid → Reaches db r uuid
  lists :
      r.collection_uuid ≡ ""
      → Memᴰ (uuid, r.artifact_uuid) db.collection_artifacts
      → Reaches db r uuid

pub data ArtifactScope (db : Tables) (r : Resource) (sc : Scope) : Type 0 where
  everywhere : sc ≡ scope 0 "all_products" "" → ArtifactScope db r sc
  itself : sc ≡ scope 6 "artifact" r.artifact_uuid → ArtifactScope db r sc
  through : (uuid : String) → Reaches db r uuid → CollectionScope db uuid sc → ArtifactScope db r sc

-- The most specific field that the caller sets names the resource.
pub data Covers (db : Tables) (r : Resource) (sc : Scope) : Type 0 where
  artifact : r.artifact_uuid ≢ "" → ArtifactScope db r sc → Covers db r sc
  collection :
      r.artifact_uuid ≡ ""
      → r.collection_uuid ≢ ""
      → CollectionScope db r.collection_uuid sc
      → Covers db r sc
  release :
      r.artifact_uuid ≡ ""
      → r.collection_uuid ≡ ""
      → r.product_release_uuid ≢ ""
      → ReleaseScope db r.product_release_uuid sc
      → Covers db r sc
  product :
      r.artifact_uuid ≡ ""
      → r.collection_uuid ≡ ""
      → r.product_release_uuid ≡ ""
      → r.product_uuid ≢ ""
      → ProductScope db r.product_uuid sc
      → Covers db r sc
  component_release :
      r.artifact_uuid ≡ ""
      → r.collection_uuid ≡ ""
      → r.product_release_uuid ≡ ""
      → r.product_uuid ≡ ""
      → r.component_release_uuid ≢ ""
      → ComponentReleaseScope db r.component_release_uuid sc
      → Covers db r sc
  component :
      r.artifact_uuid ≡ ""
      → r.collection_uuid ≡ ""
      → r.product_release_uuid ≡ ""
      → r.product_uuid ≡ ""
      → r.component_release_uuid ≡ ""
      → r.component_uuid ≢ ""
      → ComponentScope r.component_uuid sc
      → Covers db r sc

pub mem-owners_of :
    (id : String) {g : String} (rows : List (String × String))
    → Memᴰ g (owners_of id rows)
    → Memᴰ (g, id) rows
unfolding owners_of
mem-owners_of id [] m = elim m [ ]
mem-owners_of id ((o, i) ∷ rows) m = elim (Bool-cases (i == id)) [
  | inl e ↦ go ((eq_iff i id).0 e) (rw e at m) (mem-owners_of id rows)
  | inr e ↦ Memᴰ.tail (mem-owners_of id rows (rw e at m))
]
  where
    go :
        {g : String}
        → i ≡ id
        → Memᴰ g (o ∷ owners_of id rows)
        → (Memᴰ g (owners_of id rows) → Memᴰ (g, id) rows)
        → Memᴰ (g, id) ((o, i) ∷ rows)
    go e (Memᴰ.head q) ih = Memᴰ.head (cc)
    go e (Memᴰ.tail k) ih = Memᴰ.tail (ih k)

pub mem-distinct : {x : String} (xs : List String) → Memᴰ x (distinct xs) → Memᴰ x xs
unfolding distinct
mem-distinct [] m = elim m [ ]
mem-distinct (y ∷ ys) m = elim (Bool-cases (contains (distinct ys) y)) [
  | inl e ↦ Memᴰ.tail (mem-distinct ys (rw e at m))
  | inr e ↦ go (rw e at m) (mem-distinct ys)
]
  where
    go :
        {x : String}
        → Memᴰ x (y ∷ distinct ys)
        → (Memᴰ x (distinct ys) → Memᴰ x ys)
        → Memᴰ x (y ∷ ys)
    go (Memᴰ.head q) ih = Memᴰ.head q
    go (Memᴰ.tail k) ih = Memᴰ.tail (ih k)
