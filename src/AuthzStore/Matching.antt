-- ===== src/AuthzStore/Matching.antt =====
-- Which rows one query of internal/repo/authzstore.go (`candidateRulesAtScope`) joins.
use opentea.Prelude.{
  ◌≡◌, refl, sym, inl, inr, true, List, [], ◌∷◌, map, Memᴰ, filter, mem-filter, filter-mem,
  mem-append_left, mem-append_right, mem-append_cases, subst, ap,
}
use opentea.Authz.{CandidateRule}
use opentea.AuthzStore.{
  Entitlement, TemplateRule, Tables, Query, Scope, entitlement_applies, rule_applies, candidate,
  flat_map, candidate_rules_at_scope,
}

module _ {ℓ κ} {A : Type ℓ} {B : Type κ} where
  mem-map : (f : A → B) {b : B} (xs : List A) → Memᴰ b (map f xs) → (a : A) × Memᴰ a xs × (b ≡ f a)
  mem-map f [] m = elim m [ ]
  mem-map f (x ∷ xs) (Memᴰ.head e) = (x, Memᴰ.head refl, e)
  mem-map f (x ∷ xs) (Memᴰ.tail m) = let (a, k, e) = mem-map f xs m in (a, Memᴰ.tail k, e)

  map-mem : (f : A → B) {a : A} {xs : List A} → Memᴰ a xs → Memᴰ (f a) (map f xs)
  map-mem f (Memᴰ.head e) = Memᴰ.head (ap f e)
  map-mem f (Memᴰ.tail m) = Memᴰ.tail (map-mem f m)

  pub mem-flat_map :
      (f : A → List B) {b : B} (xs : List A)
      → Memᴰ b (flat_map f xs)
      → (a : A) × Memᴰ a xs × Memᴰ b (f a)
  mem-flat_map f [] m = elim m [ ]
  mem-flat_map f (x ∷ xs) m = elim (mem-append_cases (f x) m) [
    | inl k ↦ (x, Memᴰ.head refl, k)
    | inr k ↦ let (a, l, h) = mem-flat_map f xs k in (a, Memᴰ.tail l, h)
  ]

  pub flat_map-mem :
      (f : A → List B) {a : A} {xs : List A} {b : B}
      → Memᴰ a xs
      → Memᴰ b (f a)
      → Memᴰ b (flat_map f xs)
  flat_map-mem f {xs = []} m h = elim m [ ]
  flat_map-mem f {xs = x ∷ xs} {b} (Memᴰ.head e) h =
      mem-append_left (flat_map f xs) (subst (λ z. Memᴰ b (f z)) e h)
  flat_map-mem f {xs = x ∷ xs} (Memᴰ.tail m) h = mem-append_right (f x) (flat_map-mem f m h)

-- A candidate that an entitlement and a rule of its template's revision give at a scope.
pub record Match (db : Tables) (q : Query) (sc : Scope) (c : CandidateRule) : Type 0 where
  pub entitlement : Entitlement
  pub rule : TemplateRule
  pub granted : Memᴰ entitlement db.entitlements
  pub ruled : Memᴰ rule db.template_rules
  pub applies : entitlement_applies q sc entitlement ≡ true
  pub speaks : rule_applies q entitlement rule ≡ true
  pub same : c ≡ candidate sc entitlement rule

pub at_scope-Match :
    (db : Tables) (q : Query) (sc : Scope) {c : CandidateRule}
    → Memᴰ c (candidate_rules_at_scope db q sc)
    → Match db q sc c
unfolding candidate_rules_at_scope
at_scope-Match db q sc m =
    let (e, l, k) =
      mem-flat_map (λ e. map (candidate sc e) (filter (rule_applies q e) db.template_rules))
        (filter (entitlement_applies q sc) db.entitlements) m in
    let (granted, applies) = mem-filter (entitlement_applies q sc) db.entitlements l in
    let (r, n, same) = mem-map (candidate sc e) (filter (rule_applies q e) db.template_rules) k in
    let (ruled, speaks) = mem-filter (rule_applies q e) db.template_rules n in
    record {
      entitlement = e;
      rule = r;
      granted = granted;
      ruled = ruled;
      applies = applies;
      speaks = speaks;
      same = same;
    }

pub Match-at_scope :
    (db : Tables) (q : Query) (sc : Scope) {c : CandidateRule}
    → Match db q sc c
    → Memᴰ c (candidate_rules_at_scope db q sc)
unfolding candidate_rules_at_scope
Match-at_scope db q sc h =
    flat_map-mem (λ e. map (candidate sc e) (filter (rule_applies q e) db.template_rules))
      (filter-mem (entitlement_applies q sc) db.entitlements h.granted h.applies)
      (subst
        (λ z. Memᴰ z (
          map (candidate sc h.entitlement)
            (filter (rule_applies q h.entitlement) db.template_rules)))
        (sym h.same)
        (map-mem (candidate sc h.entitlement)
          (filter-mem (rule_applies q h.entitlement) db.template_rules h.ruled h.speaks)))
