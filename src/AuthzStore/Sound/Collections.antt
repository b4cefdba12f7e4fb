-- ===== src/AuthzStore/Sound/Collections.antt =====
-- Collections and artifacts: the scopes behind `candidateRulesForCollection` and
-- `candidateRulesForArtifact`.
use opentea.Prelude.{
  String, ◌≡◌, refl, sym, subst, ap, ◌∙◌, List, [], ◌∷◌, some, Option-cases, Memᴰ, eq_iff, ◌==◌,
  Bool-cases, ◌⊎◌, inl, inr, mem-append_cases, Result, ok, err, ok-injective, Result-cases,
  if◌then◌else◌,
}
use opentea.Repo.{Error, not_found, lookup}
use opentea.Authz.{CandidateRule, Resource}
use opentea.AuthzStore.{
  Tables, Query, at_scope, candidate_rules_for_owner, candidate_rules_for_collection,
  candidates_of_collections, append_found, candidate_rules_for_artifact,
  list_collections_containing_artifact,
}
use opentea.AuthzStore.Scopes.{CollectionScope, Reaches, ArtifactScope, mem-owners_of, mem-distinct}
use opentea.AuthzStore.Sound.Releases.{
  Backed, weaken, at_place, component_release-Backed, release-Backed,
}

mem-append_found :
    {c : CandidateRule} (here later : Result Error (List CandidateRule)) {cs : List CandidateRule}
    → append_found here later ≡ ok cs
    → Memᴰ c cs
    → ((found : List CandidateRule) × (here ≡ ok found) × Memᴰ c found)
      ⊎ ((bs : List CandidateRule) × (later ≡ ok bs) × Memᴰ c bs)
unfolding append_found
mem-append_found {c} (ok found) (ok bs) e m =
    elim (mem-append_cases found (subst (λ z. Memᴰ c z) (sym (ok-injective e)) m)) [
      | inl k ↦ inl (found, refl, k)
      | inr k ↦ inr (bs, refl, k)
    ]
mem-append_found (ok found) (err x) e m = absurd (cc)
mem-append_found (err not_found) later {cs} e m = inr (cs, e, m)
mem-append_found (err x) later e m = absurd (cc)

reached :
    (db : Tables) (r : Resource) {uuid : String}
    → Memᴰ uuid (
        if r.collection_uuid == ""
        then list_collections_containing_artifact db r.artifact_uuid
        else r.collection_uuid ∷ [])
    → Reaches db r uuid
unfolding list_collections_containing_artifact
reached db r {uuid} m = elim (Bool-cases (r.collection_uuid == "")) [
  | inl h ↦
      Reaches.lists ((eq_iff r.collection_uuid "").0 h)
        (mem-owners_of r.artifact_uuid db.collection_artifacts (mem-distinct _ (rw h at m)))
  | inr h ↦ Reaches.named (λ p. cc ((eq_iff r.collection_uuid "").1 p)) (only (rw h at m))
]
  where
    only : Memᴰ uuid (r.collection_uuid ∷ []) → uuid ≡ r.collection_uuid
    only (Memᴰ.head e) = e
    only (Memᴰ.tail k) = elim k [ ]

module _ (db : Tables) (q : Query) {c : CandidateRule} where
  owner-Backed :
      (uuid b : String) {cs : List CandidateRule}
      → lookup uuid db.collections ≡ some b
      → candidate_rules_for_owner db q b uuid ≡ ok cs
      → Memᴰ c cs
      → Backed db q (CollectionScope db uuid) c
  unfolding candidate_rules_for_owner
  owner-Backed uuid b found e m = elim (Bool-cases (b == "PRODUCT_RELEASE")) [
    | inl h ↦
        weaken db q
          (λ sc s.
            CollectionScope.of_product_release (found ∙ ap some ((eq_iff b "PRODUCT_RELEASE").0 h))
              s)
          (release-Backed db q uuid (rw h at e) m)
    | inr h ↦
        weaken db q
          (λ sc s.
            CollectionScope.of_component_release b found
              (λ p. cc ((eq_iff b "PRODUCT_RELEASE").1 p)) s)
          (component_release-Backed db q uuid (rw h at e) m)
  ]

  pub collection-Backed :
      (uuid : String) {cs : List CandidateRule}
      → candidate_rules_for_collection db q uuid ≡ ok cs
      → Memᴰ c cs
      → Backed db q (CollectionScope db uuid) c
  unfolding candidate_rules_for_collection
  collection-Backed uuid e m = elim (Option-cases (lookup uuid db.collections)) [
    | inl h ↦ absurd (let k = rw (h, candidate_rules_for_collection) at e in cc)
    | inr (b, h) ↦ elim (Result-cases (candidate_rules_for_owner db q b uuid)) [
      | inl (os, o) ↦
          let k = ok-injective (rw (h, candidate_rules_for_collection, o) at e) in
          elim (mem-append_cases os (subst (λ z. Memᴰ c z) (sym k) m)) [
            | inl l ↦ owner-Backed uuid b h o l
            | inr l ↦ at_place db q 5 "collection" uuid (CollectionScope.itself refl) l
          ]
      | inr (x, o) ↦ absurd (let k = rw (h, candidate_rules_for_collection, o) at e in cc)
    ]
  ]

  collections-Backed :
      (uuids : List String) {cs : List CandidateRule}
      → candidates_of_collections db q uuids ≡ ok cs
      → Memᴰ c cs
      → (uuid : String) × Memᴰ uuid uuids × Backed db q (CollectionScope db uuid) c
  unfolding candidates_of_collections
  collections-Backed [] e m = elim (subst (λ z. Memᴰ c z) (sym (ok-injective e)) m) [ ]
  collections-Backed (u ∷ us) e m =
      elim (mem-append_found (candidate_rules_for_collection db q u)
        (candidates_of_collections db q us) e m) [
          | inl (here, h, k) ↦ (u, Memᴰ.head refl, collection-Backed u h k)
          | inr (later, h, k) ↦ let (v, n, b) = collections-Backed us h k in (v, Memᴰ.tail n, b)
        ]

  pub artifact-Backed :
      (r : Resource) {cs : List CandidateRule}
      → candidate_rules_for_artifact db q r ≡ ok cs
      → Memᴰ c cs
      → Backed db q (ArtifactScope db r) c
  unfolding candidate_rules_for_artifact
  artifact-Backed r e m =
      let uuids =
        if r.collection_uuid == ""
        then list_collections_containing_artifact db r.artifact_uuid
        else r.collection_uuid ∷ [] in
      elim (Result-cases (candidates_of_collections db q uuids)) [
        | inl (more, h) ↦
            let k = ok-injective (rw (h, candidate_rules_for_artifact) at e) in
            elim (mem-append_cases (at_scope db q 0 "all_products" "")
              (subst (λ z. Memᴰ c z) (sym k) m)) [
                | inl l ↦ at_place db q 0 "all_products" "" (ArtifactScope.everywhere refl) l
                | inr l ↦ elim (mem-append_cases (at_scope db q 6 "artifact" r.artifact_uuid) l) [
                  | inl n ↦ at_place db q 6 "artifact" r.artifact_uuid (ArtifactScope.itself refl) n
                  | inr n ↦
                      let (u, o, b) = collections-Backed uuids h n in
                      weaken db q (λ sc s. ArtifactScope.through u (reached db r o) s) b
                ]
              ]
        | inr (x, h) ↦ absurd (let k = rw (h, candidate_rules_for_artifact) at e in cc)
      ]
