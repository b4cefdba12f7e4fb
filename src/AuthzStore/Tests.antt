-- ===== src/AuthzStore/Tests.antt =====
-- The rule queries of internal/repo/authzstore.go over a small database: one artifact in the
-- collection of a product release, a public entitlement, and a restricted one.
use opentea.Prelude.{◌≡◌, refl, true, [], ◌∷◌, none, some, Memᴰ, ok, err}
use opentea.Repo.{lookup, not_found}
use opentea.Authz.{
  Principal, Resource, CandidateRule, Decision, decide, decide_candidates, is_authenticated,
}
use opentea.AuthzStore.{
  Entitlement, TemplateRule, Tables, query, candidate_rules, candidate_rules_for_artifact,
  candidates_of_collections, append_found, candidate_rules_for_collection,
  candidate_rules_for_owner, candidate_rules_for_release, candidate_rules_for_product,
  candidate_rules_at_scope, store_at, list_product_groups_containing,
  list_release_groups_containing, list_collections_containing_artifact, entitlement_applies,
  rule_applies, owners_of, distinct, candidate_rules_for_component_release,
}
use opentea.AuthzStore.Scopes.{Covers}
use opentea.AuthzStore.Sound.{candidate_rules-Covers}
use opentea.AuthzStore.Sound.Releases.{Backed}
use opentea.AuthzStore.Grants.{LiveGrant, decide-LiveGrant}

abbrev public_read : Entitlement
public_read = record {
  uuid = "e1";
  template_uuid = "t1";
  template_revision = 1;
  subject_type = "everyone";
  subject_id = none;
  resource_type = "all_products";
  resource_id = none;
  status = "active";
  valid_from = some 10;
  valid_until = none;
}

abbrev suspended : Entitlement
suspended = record {
  uuid = "e2";
  template_uuid = "t1";
  template_revision = 1;
  subject_type = "everyone";
  subject_id = none;
  resource_type = "artifact";
  resource_id = some "a1";
  status = "suspended";
  valid_from = none;
  valid_until = none;
}

abbrev allow_download : TemplateRule
allow_download = record {
  template_uuid = "t1";
  revision = 1;
  capability = "artifact.download";
  artifact_type = none;
  decision = "allow";
}

abbrev tables : Tables
tables = record {
  entitlements = public_read ∷ suspended ∷ [];
  template_rules = allow_download ∷ [];
  product_releases = ("r1", "p1") ∷ [];
  component_releases = [];
  product_group_members = [];
  release_group_members = [];
  collections = ("r1", "PRODUCT_RELEASE") ∷ [];
  collection_artifacts = ("r1", "a1") ∷ [];
}

abbrev anonymous : Principal
anonymous = record { user_uuid = "" }

abbrev artifact_a1 : Resource
artifact_a1 = record {
  product_uuid = "";
  product_release_uuid = "";
  component_uuid = "";
  component_release_uuid = "";
  collection_uuid = "";
  artifact_uuid = "a1";
  artifact_type = "BOM";
}

abbrev by_public_read : CandidateRule
by_public_read = record {
  entitlement_uuid = "e1";
  template_uuid = "t1";
  template_revision = 1;
  resource_scope = 0;
  subject_type = "everyone";
  decision = "allow";
}

-- Once for the artifact itself, and once through its collection's release.
rules_of_a1 :
    candidate_rules tables 20 anonymous "artifact.download" artifact_a1
    ≡ ok (by_public_read ∷ by_public_read ∷ [])
unfolding candidate_rules candidate_rules_for_artifact candidates_of_collections append_found
    candidate_rules_for_collection candidate_rules_for_owner candidate_rules_for_release
    candidate_rules_for_product candidate_rules_at_scope list_product_groups_containing
    list_release_groups_containing list_collections_containing_artifact entitlement_applies
    rule_applies owners_of distinct lookup is_authenticated
rules_of_a1 = refl

-- An unknown release is an error, not an empty answer.
unknown_release :
    candidate_rules_for_component_release tables (query 20 anonymous "release.read" artifact_a1) "x"
    ≡ err not_found
unfolding candidate_rules_for_component_release lookup
unknown_release = refl

candidate_rules-Covers_example :
    Backed tables
      (query 20 anonymous "artifact.download" artifact_a1)
      (Covers tables artifact_a1)
      by_public_read
candidate_rules-Covers_example =
    candidate_rules-Covers tables 20 anonymous "artifact.download" artifact_a1
      (by_public_read ∷ by_public_read ∷ []) by_public_read rules_of_a1 (Memᴰ.head refl)

abbrev grant : Decision
grant = decide_candidates (by_public_read ∷ by_public_read ∷ [])

granted_a1 : decide (store_at tables 20) anonymous "artifact.download" artifact_a1 ≡ ok grant
unfolding decide store_at
granted_a1 = rw rules_of_a1

allowed_a1 : grant.allowed ≡ true
unfolding decide_candidates
allowed_a1 = refl

decide-LiveGrant_example : LiveGrant tables 20 anonymous "artifact.download" artifact_a1
decide-LiveGrant_example =
    decide-LiveGrant tables 20 anonymous "artifact.download" artifact_a1 grant granted_a1 allowed_a1
