-- ===== src/AuthzStore/Sound/Releases.antt =====
-- Products, releases and components: the scopes behind `candidateRulesForRelease` and its kin.
use opentea.Prelude.{
  ℕ, String, ◌≡◌, refl, sym, subst, List, Option-cases, Memᴰ, inl, inr, mem-append_cases, ok,
  ok-injective,
}
use opentea.Repo.{lookup}
use opentea.Authz.{CandidateRule}
use opentea.AuthzStore.{
  Tables, Query, Scope, flat_map, at_scope, candidate_rules_for_component,
  candidate_rules_for_component_release, candidate_rules_for_product, candidate_rules_for_release,
  list_product_groups_containing, list_release_groups_containing,
}
use opentea.AuthzStore.Matching.{Match, at_scope-Match, mem-flat_map}
use opentea.AuthzStore.Scopes.{
  scope, ComponentScope, ComponentReleaseScope, ProductScope, ReleaseScope, mem-owners_of,
}

-- A candidate with the scope, of a given kind, at which an entitlement and a rule give it.
pub record Backed (db : Tables) (q : Query) (P : Scope → Type 0) (c : CandidateRule) : Type 0 where
  pub place : Scope
  pub covers : P place
  pub match : Match db q place c

module _ (db : Tables) (q : Query) {c : CandidateRule} where
  pub weaken :
      {P Q : Scope → Type 0} → ((sc : Scope) → P sc → Q sc) → Backed db q P c → Backed db q Q c
  weaken f b = record { place = b.place; covers = f b.place b.covers; match = b.match }

  pub at_place :
      {P : Scope → Type 0} (level : ℕ) (type id : String)
      → P (scope level type id)
      → Memᴰ c (at_scope db q level type id)
      → Backed db q P c
  at_place level type id p m = record {
    place = scope level type id;
    covers = p;
    match = at_scope-Match db q _ m;
  }

  pub component-Backed :
      (uuid : String)
      → Memᴰ c (candidate_rules_for_component db q uuid)
      → Backed db q (ComponentScope uuid) c
  unfolding candidate_rules_for_component
  component-Backed uuid m = elim (mem-append_cases (at_scope db q 0 "all_products" "") m) [
    | inl k ↦ at_place 0 "all_products" "" (ComponentScope.everywhere refl) k
    | inr k ↦ at_place 2 "component" uuid (ComponentScope.itself refl) k
  ]

  pub component_release-Backed :
      (uuid : String) {cs : List CandidateRule}
      → candidate_rules_for_component_release db q uuid ≡ ok cs
      → Memᴰ c cs
      → Backed db q (ComponentReleaseScope db uuid) c
  unfolding candidate_rules_for_component_release
  component_release-Backed uuid e m = elim (Option-cases (lookup uuid db.component_releases)) [
    | inl h ↦ absurd (let k = rw (h, candidate_rules_for_component_release) at e in cc)
    | inr (p, h) ↦
        let k = ok-injective (rw (h, candidate_rules_for_component_release) at e) in
        elim (mem-append_cases (candidate_rules_for_component db q p)
          (subst (λ z. Memᴰ c z) (sym k) m)) [
            | inl l ↦
                weaken (λ sc s. ComponentReleaseScope.of_component p h s) (component-Backed p l)
            | inr l ↦ at_place 4 "component_release" uuid (ComponentReleaseScope.itself refl) l
          ]
  ]

  pub product-Backed :
      (uuid : String)
      → Memᴰ c (candidate_rules_for_product db q uuid)
      → Backed db q (ProductScope db uuid) c
  unfolding candidate_rules_for_product list_product_groups_containing
  product-Backed uuid m = elim (mem-append_cases (at_scope db q 0 "all_products" "") m) [
    | inl k ↦ at_place 0 "all_products" "" (ProductScope.everywhere refl) k
    | inr k ↦
        elim (mem-append_cases
          (flat_map (λ g. at_scope db q 1 "product_group" g)
            (list_product_groups_containing db uuid))
          k) [
            | inl l ↦
                let (g, n, h) = mem-flat_map (λ g. at_scope db q 1 "product_group" g) _ l in
                at_place 1 "product_group" g
                  (ProductScope.in_group g (mem-owners_of uuid db.product_group_members n) refl) h
            | inr l ↦ at_place 2 "product" uuid (ProductScope.itself refl) l
          ]
  ]

  pub release-Backed :
      (uuid : String) {cs : List CandidateRule}
      → candidate_rules_for_release db q uuid ≡ ok cs
      → Memᴰ c cs
      → Backed db q (ReleaseScope db uuid) c
  unfolding candidate_rules_for_release list_release_groups_containing
  release-Backed uuid e m = elim (Option-cases (lookup uuid db.product_releases)) [
    | inl h ↦ absurd (let k = rw (h, candidate_rules_for_release) at e in cc)
    | inr (p, h) ↦
        let k = ok-injective (rw (h, candidate_rules_for_release) at e) in
        elim (mem-append_cases (candidate_rules_for_product db q p)
          (subst (λ z. Memᴰ c z) (sym k) m)) [
            | inl l ↦ weaken (λ sc s. ReleaseScope.of_product p h s) (product-Backed p l)
            | inr l ↦
                elim (mem-append_cases
                  (flat_map (λ g. at_scope db q 3 "release_group" g)
                    (list_release_groups_containing db uuid))
                  l) [
                    | inl n ↦
                        let (g, o, w) = mem-flat_map (λ g. at_scope db q 3 "release_group" g) _ n in
                        at_place 3 "release_group" g
                          (ReleaseScope.in_group g (mem-owners_of uuid db.release_group_members o)
                            refl)
                          w
                    | inr n ↦ at_place 4 "product_release" uuid (ReleaseScope.itself refl) n
                  ]
          ]
  ]
