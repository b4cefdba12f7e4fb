-- ===== src/AuthzStore/Sound.antt =====
-- The queries of internal/repo/authzstore.go gather no rule but those of entitlements on a scope that
-- contains the resource.
pub mod Releases
pub mod Collections
use opentea.Prelude.{
  ℕ, String, ◌≡◌, ◌≢◌, refl, sym, subst, ap, ◌∙◌, Bool, true, false, not, List, [], ◌∷◌, ◌++◌,
  Option, none, some, Option-cases, Memᴰ, arith, eq_iff, ◌==◌, Bool-cases, ◌⊎◌, inl, inr,
  mem-append_cases, Result, ok, err, ok-injective, Result-cases, ◌>>=◌, if◌then◌else◌,
}
use opentea.Repo.{Error, not_found, lookup}
use opentea.Authz.{CandidateRule, Principal, Capability, Resource}
use opentea.AuthzStore.{
  Tables, Query, Scope, flat_map, at_scope, candidate_rules_for_component,
  candidate_rules_for_component_release, candidate_rules_for_product, candidate_rules_for_release,
  candidate_rules_for_owner, candidate_rules_for_collection, candidates_of_collections,
  append_found, candidate_rules_for_artifact, candidate_rules, query,
  list_product_groups_containing, list_release_groups_containing,
  list_collections_containing_artifact, owners_of,
}
use opentea.AuthzStore.Matching.{Match, at_scope-Match, mem-flat_map}
use opentea.AuthzStore.Scopes.{
  scope, ComponentScope, ComponentReleaseScope, ProductScope, ReleaseScope, CollectionScope,
  Reaches, ArtifactScope, Covers, mem-owners_of, mem-distinct,
}
use opentea.AuthzStore.Sound.Releases.{
  Backed, weaken, component-Backed, component_release-Backed, product-Backed, release-Backed,
}
use opentea.AuthzStore.Sound.Collections.{collection-Backed, artifact-Backed}

text_cases : (s : String) → ((s == "") ≡ true) ⊎ ((s == "") ≡ false)
text_cases s = Bool-cases (s == "")

empty : {s : String} → (s == "") ≡ true → s ≡ ""
empty {s} h = (eq_iff s "").0 h

nonempty : {s : String} → (s == "") ≡ false → s ≢ ""
nonempty {s} h p = cc ((eq_iff s "").1 p)

-- Every rule that `CandidateRules` returns comes from an entitlement on a scope that contains the
-- resource and a rule of that entitlement's template revision; both speak of the query: the
-- entitlement is active, in its validity window and applies to the subject, and the rule is for the
-- capability and for the artifact type.
pub candidate_rules-Covers :
    (db : Tables) (now : ℕ) (p : Principal) (capability : Capability) (r : Resource)
    (cs : List CandidateRule) (c : CandidateRule)
    → candidate_rules db now p capability r ≡ ok cs
    → Memᴰ c cs
    → Backed db (query now p capability r) (Covers db r) c
unfolding candidate_rules
candidate_rules-Covers db now p capability r cs c e m =
    let q = query now p capability r in
    elim (text_cases r.artifact_uuid) [
      | inr a ↦
          weaken db q (λ sc s. Covers.artifact (nonempty a) s)
            (artifact-Backed db q r (rw a at e) m)
      | inl a ↦ elim (text_cases r.collection_uuid) [
        | inr b ↦
            weaken db q (λ sc s. Covers.collection (empty a) (nonempty b) s)
              (collection-Backed db q r.collection_uuid (rw (a, b) at e) m)
        | inl b ↦ elim (text_cases r.product_release_uuid) [
          | inr d ↦
              weaken db q (λ sc s. Covers.release (empty a) (empty b) (nonempty d) s)
                (release-Backed db q r.product_release_uuid (rw (a, b, d) at e) m)
          | inl d ↦ elim (text_cases r.product_uuid) [
            | inr f ↦
                weaken db q (λ sc s. Covers.product (empty a) (empty b) (empty d) (nonempty f) s)
                  (product-Backed db q r.product_uuid
                    (subst (λ z. Memᴰ c z) (sym (ok-injective (rw (a, b, d, f) at e))) m))
            | inl f ↦ elim (text_cases r.component_release_uuid) [
              | inr g ↦
                  weaken db q
                    (λ sc s.
                      Covers.component_release (empty a) (empty b) (empty d) (empty f) (nonempty g)
                        s)
                    (component_release-Backed db q r.component_release_uuid
                      (rw (a, b, d, f, g) at e) m)
              | inl g ↦ elim (text_cases r.component_uuid) [
                | inr h ↦
                    weaken db q
                      (λ sc s.
                        Covers.component (empty a) (empty b) (empty d) (empty f) (empty g)
                          (nonempty h) s)
                      (component-Backed db q r.component_uuid
                        (subst (λ z. Memᴰ c z) (sym (ok-injective (rw (a, b, d, f, g, h) at e))) m))
                | inl h ↦ absurd (let k = rw (a, b, d, f, g, h) at e in cc)
              ]
            ]
          ]
        ]
      ]
    ]
