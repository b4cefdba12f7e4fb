-- ===== src/Authz.antt =====
-- internal/authz/types.go and internal/authz/engine.go: the capability, subject and resource
-- vocabulary, the interface to the rule store, and the evaluation algorithm `Decide`.
pub mod Order
pub mod Ranking
pub mod Permutation
pub mod Outranked
mod Tests
use opentea.Prelude.{
  ℕ, String, Bool, true, false, not, List, [], ◌∷◌, ◌==◌, eqb, ltb, if◌then◌else◌, filter, Result,
  ok, err, ◌>>=◌,
}

-- Go strings with a set of constants; any other text can occur.
abbrev pub Capability : Type 0
Capability = String

abbrev pub ArtifactType : Type 0
ArtifactType = String

abbrev pub SubjectType : Type 0
SubjectType = String

abbrev pub subject_everyone : SubjectType
subject_everyone = "everyone"

abbrev pub subject_authenticated : SubjectType
subject_authenticated = "authenticated"

abbrev pub subject_principal : SubjectType
subject_principal = "principal"

pub record Principal : Type 0 where
  pub user_uuid : String

unfoldable pub is_authenticated : Principal → Bool
is_authenticated p = not (p.user_uuid == "")

-- A Go `int`, the constants in declaration order.
abbrev pub ResourceScopeType : Type 0
ResourceScopeType = ℕ

abbrev pub scope_all_products : ResourceScopeType
scope_all_products = 0

abbrev pub scope_product_group : ResourceScopeType
scope_product_group = 1

abbrev pub scope_product : ResourceScopeType
scope_product = 2

abbrev pub scope_release_group : ResourceScopeType
scope_release_group = 3

abbrev pub scope_product_release : ResourceScopeType
scope_product_release = 4

abbrev pub scope_collection : ResourceScopeType
scope_collection = 5

abbrev pub scope_artifact : ResourceScopeType
scope_artifact = 6

-- An empty text is a field that the caller did not set.
pub record Resource : Type 0 where
  pub product_uuid : String
  pub product_release_uuid : String
  pub component_uuid : String
  pub component_release_uuid : String
  pub collection_uuid : String
  pub artifact_uuid : String
  pub artifact_type : ArtifactType

pub data ReasonCode : Type 0 where
  unset no_applicable_rule explicit_deny explicit_allow : ReasonCode

pub record Decision : Type 0 where
  pub allowed : Bool
  pub reason : ReasonCode
  pub matched_entitlement_uuid : String
  pub matched_template_uuid : String
  pub matched_template_revision : ℕ
  pub resource_scope : ResourceScopeType
  pub subject_type : SubjectType

pub record CandidateRule : Type 0 where
  pub entitlement_uuid : String
  pub template_uuid : String
  pub template_revision : ℕ
  pub resource_scope : ResourceScopeType
  pub subject_type : SubjectType
  pub decision : String

-- The interface `Store`: an error of the store is a value of the caller's own type.
pub record Store {ℓ} (E : Type ℓ) : Type ℓ where
  pub candidate_rules : Principal → Capability → Resource → Result E (List CandidateRule)

pub subject_rank : SubjectType → ℕ
subject_rank s = if s == "principal" then 2 else if s == "authenticated" then 1 else 0

-- The loop that finds the greatest key, from the first candidate's key on.
pub max_key {ℓ} : {A : Type ℓ} → (A → ℕ) → ℕ → List A → ℕ
max_key key m [] = m
max_key key m (c ∷ cs) = max_key key (if ltb m (key c) then key c else m) cs

-- The two loops of each narrowing; Go indexes `candidates[0]`, and is called on no empty list.
pub narrowest_by {ℓ} : {A : Type ℓ} → (A → ℕ) → List A → List A
unfolding max_key
narrowest_by key [] = []
narrowest_by key (c ∷ cs) =
    let top = max_key key (key c) cs in filter (λ x. eqb (key x) top) (c ∷ cs)

abbrev pub scope_of : CandidateRule → ℕ
scope_of c = c.resource_scope

abbrev pub rank_of : CandidateRule → ℕ
rank_of c = subject_rank c.subject_type

pub narrowest_by_resource_scope : List CandidateRule → List CandidateRule
unfolding narrowest_by
narrowest_by_resource_scope = narrowest_by scope_of

pub narrowest_by_subject : List CandidateRule → List CandidateRule
unfolding narrowest_by subject_rank
narrowest_by_subject = narrowest_by rank_of

pub decision_from : CandidateRule → Bool → ReasonCode → Decision
decision_from c allowed reason = record {
  allowed = allowed;
  reason = reason;
  matched_entitlement_uuid = c.entitlement_uuid;
  matched_template_uuid = c.template_uuid;
  matched_template_revision = c.template_revision;
  resource_scope = c.resource_scope;
  subject_type = c.subject_type;
}

-- `Decision{Allowed: false, Reason: reason}`
pub no_match : ReasonCode → Decision
no_match reason = record {
  allowed = false;
  reason = reason;
  matched_entitlement_uuid = "";
  matched_template_uuid = "";
  matched_template_revision = 0;
  resource_scope = scope_all_products;
  subject_type = "";
}

abbrev pub is_deny : CandidateRule → Bool
is_deny c = c.decision == "deny"

-- The loop over `final`, then `final[0]`.
pub first_deny : CandidateRule → List CandidateRule → Decision
unfolding decision_from
first_deny first [] = decision_from first true explicit_allow
first_deny first (c ∷ cs) =
    if is_deny c then decision_from c false explicit_deny else first_deny first cs

pub decide_final : List CandidateRule → Decision
unfolding first_deny no_match
decide_final [] = no_match unset
decide_final (c ∷ cs) = first_deny c (c ∷ cs)

-- `Decide` behind the call of the store.
unfoldable pub decide_candidates : List CandidateRule → Decision
unfolding decide_final narrowest_by_subject narrowest_by_resource_scope no_match
decide_candidates [] = no_match no_applicable_rule
decide_candidates (c ∷ cs) =
    decide_final (narrowest_by_subject (narrowest_by_resource_scope (c ∷ cs)))

unfoldable pub decide {ℓ} :
    {E : Type ℓ} → Store E → Principal → Capability → Resource → Result E Decision
decide store subject capability resource = do
  candidates ← store.candidate_rules subject capability resource
  ok (decide_candidates candidates)
