-- ===== src/AuthzStore.antt =====
-- internal/repo/authzstore.go: the rules that entitlements give a subject on a resource, gathered
-- from the scopes that contain the resource.
pub mod Matching
pub mod Scopes
pub mod Sound
pub mod Grants
mod Tests
use opentea.Prelude.{
  ℕ, String, Bool, true, false, not, ◌&&◌, ◌||◌, List, [], ◌∷◌, ◌++◌, map, Option, none, some, ◌==◌,
  eqb, leb, if◌then◌else◌, filter, any, Result, ok, err, ◌>>=◌,
}
use opentea.Repo.{Error, not_found, no_identifying_field, null_if_empty, sql_eq, lookup}
use opentea.Authz.{
  Principal, is_authenticated, Capability, ArtifactType, Resource, ResourceScopeType, CandidateRule,
  Store, subject_everyone, subject_authenticated, subject_principal, scope_all_products,
  scope_product_group, scope_product, scope_release_group, scope_product_release, scope_collection,
  scope_artifact,
}

-- Rows of `entitlement`; the validity columns are seconds.
pub record Entitlement : Type 0 where
  pub uuid : String
  pub template_uuid : String
  pub template_revision : ℕ
  pub subject_type : String
  pub subject_id : Option String
  pub resource_type : String
  pub resource_id : Option String
  pub status : String
  pub valid_from : Option ℕ
  pub valid_until : Option ℕ

-- Rows of `template_capability_rule`.
pub record TemplateRule : Type 0 where
  pub template_uuid : String
  pub revision : ℕ
  pub capability : String
  pub artifact_type : Option String
  pub decision : String

-- The tables that the queries read. Pairs are (uuid, owner), (group, member), (collection, artifact)
-- and (collection, belongs_to).
pub record Tables : Type 0 where
  pub entitlements : List Entitlement
  pub template_rules : List TemplateRule
  pub product_releases : List (String × String)
  pub component_releases : List (String × String)
  pub product_group_members : List (String × String)
  pub release_group_members : List (String × String)
  pub collections : List (String × String)
  pub collection_artifacts : List (String × String)

pub subject_type_args : Principal → List String
unfolding is_authenticated
subject_type_args p =
    if is_authenticated p
    then subject_everyone ∷ subject_authenticated ∷ subject_principal ∷ []
    else subject_everyone ∷ []

-- What a candidate is sought for: the subject, the capability, the artifact type, and the second at
-- which the query runs.
pub record Query : Type 0 where
  pub subject : Principal
  pub capability : Capability
  pub artifact_type : ArtifactType
  pub now : ℕ

-- One scope that contains the resource: its rank, and the row's resource type and id.
pub record Scope : Type 0 where
  pub level : ResourceScopeType
  pub resource_type : String
  pub resource_id : String

-- `column IS NULL OR column <= now`, `column IS NULL OR column >= now`
pub started : Option ℕ → ℕ → Bool
started none now = true
started (some t) now = leb t now

pub not_ended : Option ℕ → ℕ → Bool
not_ended none now = true
not_ended (some t) now = leb now t

pub on_resource : Scope → Entitlement → Bool
on_resource sc e =
    (e.resource_type == sc.resource_type)
    && ((e.resource_type == "all_products") || sql_eq e.resource_id (some sc.resource_id))

pub for_subject : Principal → Entitlement → Bool
unfolding subject_type_args
for_subject p e =
    any (λ s. s == e.subject_type) (subject_type_args p)
    && (not (e.subject_type == "principal") || sql_eq e.subject_id (some p.user_uuid))

-- The part of the WHERE clause that reads `e`.
pub entitlement_applies : Query → Scope → Entitlement → Bool
unfolding on_resource for_subject started not_ended
entitlement_applies q sc e =
    on_resource sc e
    && ((e.status == "active")
        && (started e.valid_from q.now
            && (not_ended e.valid_until q.now && for_subject q.subject e)))

-- The join condition, and the part of the WHERE clause that reads `r`.
pub rule_applies : Query → Entitlement → TemplateRule → Bool
unfolding null_if_empty
rule_applies q e r =
    (r.template_uuid == e.template_uuid)
    && (eqb r.revision e.template_revision
        && ((r.capability == q.capability) && elim r.artifact_type [
          | none ↦ true
          | some t ↦ sql_eq (some t) (null_if_empty q.artifact_type)
        ]))

abbrev pub candidate : Scope → Entitlement → TemplateRule → CandidateRule
candidate sc e r = record {
  entitlement_uuid = e.uuid;
  template_uuid = e.template_uuid;
  template_revision = e.template_revision;
  resource_scope = sc.level;
  subject_type = e.subject_type;
  decision = r.decision;
}

abbrev pub flat_map {ℓ κ} : {A : Type ℓ} {B : Type κ} → (A → List B) → List A → List B
flat_map f [] = []
flat_map f (x ∷ xs) = f x ++ flat_map f xs

module _ (db : Tables) (q : Query) where
  pub candidate_rules_at_scope : Scope → List CandidateRule
  candidate_rules_at_scope sc =
      flat_map (λ e. map (candidate sc e) (filter (rule_applies q e) db.template_rules))
        (filter (entitlement_applies q sc) db.entitlements)

  abbrev at_scope : ResourceScopeType → String → String → List CandidateRule
  at_scope level type id =
      candidate_rules_at_scope (record { level = level; resource_type = type; resource_id = id })

  pub candidate_rules_for_component : String → List CandidateRule
  candidate_rules_for_component uuid =
      at_scope scope_all_products "all_products" "" ++ at_scope scope_product "component" uuid

  pub candidate_rules_for_component_release : String → Result Error (List CandidateRule)
  candidate_rules_for_component_release uuid = elim (lookup uuid db.component_releases) [
    | none ↦ err not_found
    | some component_uuid ↦ ok (
        candidate_rules_for_component component_uuid
        ++ at_scope scope_product_release "component_release" uuid)
  ]

-- The first column of the rows whose second is `id`.
pub owners_of : String → List (String × String) → List String
owners_of id [] = []
owners_of id ((owner, member) ∷ rows) =
    let rest = owners_of id rows in if member == id then owner ∷ rest else rest

abbrev pub contains : List String → String → Bool
contains xs a = any (λ x. x == a) xs

-- `SELECT DISTINCT`
pub distinct : List String → List String
distinct [] = []
distinct (x ∷ xs) = let rest = distinct xs in if contains rest x then rest else x ∷ rest

module _ (db : Tables) where
  pub list_product_groups_containing : String → List String
  list_product_groups_containing uuid = owners_of uuid db.product_group_members

  pub list_release_groups_containing : String → List String
  list_release_groups_containing uuid = owners_of uuid db.release_group_members

  pub list_collections_containing_artifact : String → List String
  list_collections_containing_artifact uuid = distinct (owners_of uuid db.collection_artifacts)

-- One round of the loop over collections: one that is not found is passed over, and any other error
-- ends the loop.
pub append_found :
    Result Error (List CandidateRule)
    → Result Error (List CandidateRule)
    → Result Error (List CandidateRule)
append_found (ok candidates) rest = do more ← rest; ok (candidates ++ more)
append_found (err not_found) rest = rest
append_found (err e) rest = err e

module _ (db : Tables) (q : Query) where
  pub candidate_rules_for_product : String → List CandidateRule
  candidate_rules_for_product uuid =
      at_scope db q scope_all_products "all_products" ""
      ++ (flat_map (λ g. at_scope db q scope_product_group "product_group" g)
            (list_product_groups_containing db uuid)
          ++ at_scope db q scope_product "product" uuid)

  pub candidate_rules_for_release : String → Result Error (List CandidateRule)
  candidate_rules_for_release uuid = elim (lookup uuid db.product_releases) [
    | none ↦ err not_found
    | some product_uuid ↦ ok (
        candidate_rules_for_product product_uuid
        ++ (flat_map (λ g. at_scope db q scope_release_group "release_group" g)
              (list_release_groups_containing db uuid)
            ++ at_scope db q scope_product_release "product_release" uuid))
  ]

  -- The owner of a collection, found under the collection's own uuid.
  pub candidate_rules_for_owner : String → String → Result Error (List CandidateRule)
  candidate_rules_for_owner belongs_to uuid =
      if belongs_to == "PRODUCT_RELEASE"
      then candidate_rules_for_release uuid
      else candidate_rules_for_component_release db q uuid

  pub candidate_rules_for_collection : String → Result Error (List CandidateRule)
  candidate_rules_for_collection uuid = elim (lookup uuid db.collections) [
    | none ↦ err not_found
    | some belongs_to ↦ do
      release_candidates ← candidate_rules_for_owner belongs_to uuid
      ok (release_candidates ++ at_scope db q scope_collection "collection" uuid)
  ]

  -- The loop over the artifact's collections.
  pub candidates_of_collections : List String → Result Error (List CandidateRule)
  candidates_of_collections [] = ok []
  candidates_of_collections (uuid ∷ uuids) =
      append_found (candidate_rules_for_collection uuid) (candidates_of_collections uuids)

  pub candidate_rules_for_artifact : Resource → Result Error (List CandidateRule)
  candidate_rules_for_artifact r =
      let uuids =
        if r.collection_uuid == ""
        then list_collections_containing_artifact db r.artifact_uuid
        else r.collection_uuid ∷ [] in
      do
        more ← candidates_of_collections uuids
        ok (
            at_scope db q scope_all_products "all_products" ""
            ++ (at_scope db q scope_artifact "artifact" r.artifact_uuid ++ more))

abbrev pub query : ℕ → Principal → Capability → Resource → Query
query now subject capability r = record {
  subject = subject;
  capability = capability;
  artifact_type = r.artifact_type;
  now = now;
}

-- `CandidateRules`, at the second `now`: the first field that is set chooses the query.
pub candidate_rules :
    Tables → ℕ → Principal → Capability → Resource → Result Error (List CandidateRule)
candidate_rules db now subject capability r =
    let q = query now subject capability r in
    if not (r.artifact_uuid == "")
    then candidate_rules_for_artifact db q r
    else if not (r.collection_uuid == "")
    then candidate_rules_for_collection db q r.collection_uuid
    else if not (r.product_release_uuid == "")
    then candidate_rules_for_release db q r.product_release_uuid
    else if not (r.product_uuid == "")
    then ok (candidate_rules_for_product db q r.product_uuid)
    else if not (r.component_release_uuid == "")
    then candidate_rules_for_component_release db q r.component_release_uuid
    else if not (r.component_uuid == "")
    then ok (candidate_rules_for_component db q r.component_uuid)
    else err no_identifying_field

-- `*Repo` as the `authz.Store`.
pub store_at : Tables → ℕ → Store Error
store_at db now = record { candidate_rules = candidate_rules db now }
