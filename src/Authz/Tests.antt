-- ===== src/Authz/Tests.antt =====
-- `Decide` (internal/authz/engine.go) at concrete candidates, as in internal/authz/engine_test.go.
use opentea.Prelude.{
  ℕ, ◌≡◌, ◌≢◌, ◌↔◌, refl, true, false, List, [], ◌∷◌, Memᴰ, arith, inl, ok, mem-ne-nil,
}
use opentea.Authz.{
  CandidateRule, Decision, Principal, Resource, Store, is_deny, decide, decide_candidates,
  decision_from, explicit_deny,
}
use opentea.Authz.Ranking.{IsNarrowest, Outcome, decide-granted_iff, decide_candidates-Outcome}
use opentea.Authz.Permutation.{SameRules, IsAlike, decide_candidates-SameRules}
use opentea.Authz.Outranked.{decide_candidates-outranked}

abbrev broad_allow : CandidateRule
broad_allow = record {
  entitlement_uuid = "e1";
  template_uuid = "t";
  template_revision = 1;
  resource_scope = 0;
  subject_type = "principal";
  decision = "allow";
}

abbrev narrow_deny : CandidateRule
narrow_deny = record {
  entitlement_uuid = "e2";
  template_uuid = "t";
  template_revision = 1;
  resource_scope = 2;
  subject_type = "everyone";
  decision = "deny";
}

abbrev fixed : Store ℕ
fixed = record { candidate_rules = λ p c r. ok (broad_allow ∷ narrow_deny ∷ []) }

abbrev someone : Principal
someone = record { user_uuid = "u1" }

abbrev product_p1 : Resource
product_p1 = record {
  product_uuid = "p1";
  product_release_uuid = "";
  component_uuid = "";
  component_release_uuid = "";
  collection_uuid = "";
  artifact_uuid = "";
  artifact_type = "";
}

narrow_defeats_broad :
    decide fixed someone "product.read" product_p1
    ≡ ok (decision_from narrow_deny false explicit_deny)
unfolding decide decide_candidates decision_from
narrow_defeats_broad = refl

decide-granted_iff_example :
    ((d : Decision) × (decide fixed someone "product.read" product_p1 ≡ ok d) × (d.allowed ≡ true))
    ↔ ((cs : List CandidateRule) × (fixed.candidate_rules someone "product.read" product_p1 ≡ ok cs)
        × (cs ≢ [])
        × ((c : CandidateRule) → IsNarrowest cs c → is_deny c ≡ false))
decide-granted_iff_example = decide-granted_iff fixed someone "product.read" product_p1

decide_candidates-Outcome_example :
    Outcome (broad_allow ∷ narrow_deny ∷ []) (decide_candidates (broad_allow ∷ narrow_deny ∷ []))
decide_candidates-Outcome_example =
    decide_candidates-Outcome (broad_allow ∷ narrow_deny ∷ []) (mem-ne-nil (Memᴰ.head refl))

swapped : SameRules (broad_allow ∷ narrow_deny ∷ []) (narrow_deny ∷ broad_allow ∷ [])
swapped c = (to, from)
  where
    to : Memᴰ c (broad_allow ∷ narrow_deny ∷ []) → Memᴰ c (narrow_deny ∷ broad_allow ∷ [])
    to (Memᴰ.head e) = Memᴰ.tail (Memᴰ.head e)
    to (Memᴰ.tail (Memᴰ.head e)) = Memᴰ.head e
    to (Memᴰ.tail (Memᴰ.tail m)) = elim m [ ]

    from : Memᴰ c (narrow_deny ∷ broad_allow ∷ []) → Memᴰ c (broad_allow ∷ narrow_deny ∷ [])
    from (Memᴰ.head e) = Memᴰ.tail (Memᴰ.head e)
    from (Memᴰ.tail (Memᴰ.head e)) = Memᴰ.head e
    from (Memᴰ.tail (Memᴰ.tail m)) = elim m [ ]

decide_candidates-SameRules_example :
    IsAlike
      (decide_candidates (broad_allow ∷ narrow_deny ∷ []))
      (decide_candidates (narrow_deny ∷ broad_allow ∷ []))
decide_candidates-SameRules_example =
    decide_candidates-SameRules (broad_allow ∷ narrow_deny ∷ []) (narrow_deny ∷ broad_allow ∷ [])
      swapped

decide_candidates-outranked_example :
    decide_candidates (narrow_deny ∷ broad_allow ∷ []) ≡ decide_candidates (narrow_deny ∷ [])
decide_candidates-outranked_example =
    decide_candidates-outranked broad_allow narrow_deny (narrow_deny ∷ []) [] (Memᴰ.head refl)
      (inl (omega arith))
