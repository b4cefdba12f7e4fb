-- ===== src/AuthzStore/Grants.antt =====
-- What a grant of `authz.Decide` over the database (internal/repo/authzstore.go) rests on.
use opentea.Prelude.{
  ℕ, ◌≤◌, String, ◌≡◌, ◌≢◌, ◌⊎◌, ap, ◌∙◌, true, false, Option, none, some, Memᴰ, arith, eq_iff, ok,
  Option-cases, inl, inr,
}
use opentea.Repo.{sql_eq, null_if_empty}
use opentea.Authz.{
  Principal, is_authenticated, ArtifactType, Capability, Resource, CandidateRule, Decision, decide,
  is_deny,
}
use opentea.Authz.Ranking.{decide-granted_iff, IsNarrowest-exists}
use opentea.AuthzStore.{
  Tables, Entitlement, TemplateRule, Query, Scope, query, store_at, entitlement_applies,
  rule_applies, on_resource, for_subject, started, not_ended, subject_type_args,
}
use opentea.AuthzStore.Matching.{Match}
use opentea.AuthzStore.Scopes.{Covers}
use opentea.AuthzStore.Sound.{candidate_rules-Covers}

-- The entitlement speaks for the caller: for everyone, or for a caller who has an account, and if
-- for one principal, for this one.
abbrev pub SpeaksFor : Principal → Entitlement → Type 0
SpeaksFor p e =
    (e.subject_type ≡ "everyone")
    ⊎ ((p.user_uuid ≢ "")
        × ((e.subject_type ≡ "authenticated")
            ⊎ ((e.subject_type ≡ "principal") × (e.subject_id ≡ some p.user_uuid))))

-- The entitlement is on the place: on all products, or on the object that the place names.
abbrev pub LiesOn : Scope → Entitlement → Type 0
LiesOn sc e =
    (e.resource_type ≡ sc.resource_type)
    × ((e.resource_type ≡ "all_products") ⊎ (e.resource_id ≡ some sc.resource_id))

-- The rule is of the revision of the template that the entitlement names.
abbrev pub BelongsTo : Entitlement → TemplateRule → Type 0
BelongsTo e rule = (rule.template_uuid ≡ e.template_uuid) × (rule.revision ≡ e.template_revision)

-- The rule is for artifacts of every type, or for the type that is asked for.
abbrev pub IsForType : ArtifactType → TemplateRule → Type 0
IsForType type rule = (rule.artifact_type ≡ none) ⊎ ((type ≢ "") × (rule.artifact_type ≡ some type))

-- An entitlement in force on a scope of the resource, with a rule of its template that is no denial.
pub record LiveGrant (db : Tables) (now : ℕ) (p : Principal) (capability : Capability)
    (r : Resource) : Type 0 where
  pub entitlement : Entitlement
  pub rule : TemplateRule
  pub place : Scope
  pub granted : Memᴰ entitlement db.entitlements
  pub ruled : Memᴰ rule db.template_rules
  pub covers : Covers db r place
  pub active : entitlement.status ≡ "active"
  pub begun : (t : ℕ) → entitlement.valid_from ≡ some t → t ≤ now
  pub unexpired : (t : ℕ) → entitlement.valid_until ≡ some t → now ≤ t
  pub subject : SpeaksFor p entitlement
  pub on_place : LiesOn place entitlement
  pub of_template : BelongsTo entitlement rule
  pub of_type : IsForType r.artifact_type rule
  pub of_capability : rule.capability ≡ capability
  pub no_denial : rule.decision ≢ "deny"

module _ (q : Query) (sc : Scope) (e : Entitlement) (h : entitlement_applies q sc e ≡ true) where
  applies_active : e.status ≡ "active"
  unfolding entitlement_applies
  applies_active = ground (arith, eq_iff e.status "active")

  applies_begun : (t : ℕ) → e.valid_from ≡ some t → t ≤ q.now
  unfolding entitlement_applies started
  applies_begun t p = ground arith

  applies_unexpired : (t : ℕ) → e.valid_until ≡ some t → q.now ≤ t
  unfolding entitlement_applies not_ended
  applies_unexpired t p = ground arith

  applies_subject : for_subject q.subject e ≡ true
  unfolding entitlement_applies
  applies_subject = ground arith

sql_eq-some : (o : Option String) (s : String) → sql_eq o (some s) ≡ true → o ≡ some s
sql_eq-some none s h = cc
sql_eq-some (some t) s h = ground (arith, eq_iff t s)

for_subject-SpeaksFor : (p : Principal) (e : Entitlement) → for_subject p e ≡ true → SpeaksFor p e
unfolding for_subject subject_type_args is_authenticated
for_subject-SpeaksFor p e h = ground (
  arith,
  eq_iff p.user_uuid "",
  eq_iff "everyone" e.subject_type,
  eq_iff "authenticated" e.subject_type,
  eq_iff "principal" e.subject_type,
  eq_iff e.subject_type "principal",
  sql_eq-some e.subject_id p.user_uuid,
)

rule_applies_capability :
    (q : Query) (e : Entitlement) (r : TemplateRule)
    → rule_applies q e r ≡ true
    → r.capability ≡ q.capability
unfolding rule_applies
rule_applies_capability q e r h = ground (arith, eq_iff r.capability q.capability)

applies-LiesOn :
    (q : Query) (sc : Scope) (e : Entitlement) → entitlement_applies q sc e ≡ true → LiesOn sc e
unfolding entitlement_applies on_resource
applies-LiesOn q sc e h = (
  ground (arith, eq_iff e.resource_type sc.resource_type),
  ground (arith, eq_iff e.resource_type "all_products", sql_eq-some e.resource_id sc.resource_id),
)

rule_applies-BelongsTo :
    (q : Query) (e : Entitlement) (r : TemplateRule) → rule_applies q e r ≡ true → BelongsTo e r
unfolding rule_applies
rule_applies-BelongsTo q e r h =
    (ground (arith, eq_iff r.template_uuid e.template_uuid), ground arith)

rule_applies-IsForType :
    (q : Query) (e : Entitlement) (r : TemplateRule)
    → rule_applies q e r ≡ true
    → IsForType q.artifact_type r
unfolding rule_applies null_if_empty
rule_applies-IsForType q e r h = elim (Option-cases r.artifact_type) [
  | inl f ↦ inl f
  | inr (t, f) ↦ inr (ground (arith, eq_iff q.artifact_type "", eq_iff t q.artifact_type))
]

no_deny :
    {db : Tables} {q : Query} {sc : Scope} {c : CandidateRule} (m : Match db q sc c)
    → is_deny c ≡ false
    → m.rule.decision ≢ "deny"
no_deny {c} m clear e = cc ((eq_iff c.decision "deny").1 (ap (λ x. x.decision) m.same ∙ e))

-- Access is granted only on the strength of an entitlement that is active, within its validity
-- window, speaks for the caller (for an anonymous one: for everyone) and is on all products or names a
-- scope that contains the resource, by a rule of its template's revision for that capability and
-- artifact type that is not a denial.
pub decide-LiveGrant :
    (db : Tables) (now : ℕ) (p : Principal) (capability : Capability) (r : Resource) (d : Decision)
    → decide (store_at db now) p capability r ≡ ok d
    → d.allowed ≡ true
    → LiveGrant db now p capability r
unfolding store_at
decide-LiveGrant db now p capability r d e a =
    let (cs, found, some_rule, clear) =
      (decide-granted_iff (store_at db now) p capability r).0 (d, e, a) in
    let (c, n) = IsNarrowest-exists cs some_rule in
    let b = candidate_rules-Covers db now p capability r cs c found n.listed in
    let m = b.match in
    let q = query now p capability r in
    record {
      entitlement = m.entitlement;
      rule = m.rule;
      place = b.place;
      granted = m.granted;
      ruled = m.ruled;
      covers = b.covers;
      active = applies_active q b.place m.entitlement m.applies;
      begun = applies_begun q b.place m.entitlement m.applies;
      unexpired = applies_unexpired q b.place m.entitlement m.applies;
      subject =
          for_subject-SpeaksFor p m.entitlement (applies_subject q b.place m.entitlement m.applies);
      on_place = applies-LiesOn q b.place m.entitlement m.applies;
      of_template = rule_applies-BelongsTo q m.entitlement m.rule m.speaks;
      of_type = rule_applies-IsForType q m.entitlement m.rule m.speaks;
      of_capability = rule_applies_capability q m.entitlement m.rule m.speaks;
      no_denial = no_deny m (clear c n);
    }
