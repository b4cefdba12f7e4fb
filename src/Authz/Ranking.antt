-- ===== src/Authz/Ranking.antt =====
-- What `Decide` (internal/authz/engine.go) answers, against a description of the ranking that does
-- not mention its loops.
use opentea.Prelude.{
  ◌≤◌, ◌<◌, ◌≡◌, ◌≢◌, refl, sym, ap, subst, ◌∙◌, ◌↔◌, ◌⊎◌, inl, inr, true, false, List, [], ◌∷◌,
  Memᴰ, arith, Bool-cases, All-mem, All-of_mem, mem-ne-nil, ok, Result-cases, ok-injective,
}
use opentea.Authz.{
  CandidateRule, Decision, Principal, Capability, Resource, Store, scope_of, rank_of, is_deny,
  narrowest_by_resource_scope, narrowest_by_subject, decision_from, first_deny, decide_final,
  decide_candidates, decide, explicit_allow, explicit_deny, no_match,
}
use opentea.Authz.Order.{mem-narrowest_by, narrowest_by-mem, narrowest_by_inhabited}

-- `d` is no more specific than `c`: by resource scope first, by subject within one scope.
abbrev pub AtMost : CandidateRule → CandidateRule → Type 0
AtMost d c = (scope_of d < scope_of c) ⊎ ((scope_of d ≡ scope_of c) × (rank_of d ≤ rank_of c))

-- `c` is a candidate, and none is more specific.
pub record IsNarrowest (cs : List CandidateRule) (c : CandidateRule) : Type 0 where
  pub listed : Memᴰ c cs
  pub top : (d : CandidateRule) → Memᴰ d cs → AtMost d c

abbrev final : List CandidateRule → List CandidateRule
final cs = narrowest_by_subject (narrowest_by_resource_scope cs)

AtMost-intro :
    (c d : CandidateRule)
    → scope_of d ≤ scope_of c
    → (scope_of c ≤ scope_of d → rank_of d ≤ rank_of c)
    → AtMost d c
AtMost-intro c d h k = grind arith

mem-final : {c : CandidateRule} (cs : List CandidateRule) → Memᴰ c (final cs) → IsNarrowest cs c
unfolding narrowest_by_subject narrowest_by_resource_scope
mem-final {c} cs m =
    let (inner, ranks) = mem-narrowest_by rank_of (narrowest_by_resource_scope cs) m in
    let (listed, scopes) = mem-narrowest_by scope_of cs inner in
    record {
      listed = listed;
      top = λ d k.
          let below = All-mem (λ y. scope_of y ≤ scope_of c) k scopes in
          AtMost-intro c d below (λ e.
            All-mem (λ y. rank_of y ≤ rank_of c)
              (narrowest_by-mem scope_of cs k (
                All-of_mem (λ y. scope_of y ≤ scope_of d) cs
                  (λ y l. let q = All-mem (λ z. scope_of z ≤ scope_of c) l scopes in omega arith)))
              ranks);
    }

final-mem : {c : CandidateRule} (cs : List CandidateRule) → IsNarrowest cs c → Memᴰ c (final cs)
unfolding narrowest_by_subject narrowest_by_resource_scope
final-mem {c} cs h =
    narrowest_by-mem rank_of (narrowest_by_resource_scope cs)
      (narrowest_by-mem scope_of cs h.listed
        (All-of_mem (λ y. scope_of y ≤ scope_of c) cs (λ y l. scope_le y (h.top y l))))
      (All-of_mem (λ y. rank_of y ≤ rank_of c) (narrowest_by_resource_scope cs)
        (λ y l.
          let (k, s) = mem-narrowest_by scope_of cs l in
          rank_le y (h.top y k) (All-mem (λ z. scope_of z ≤ scope_of y) h.listed s)))
  where
    scope_le : (y : CandidateRule) → AtMost y c → scope_of y ≤ scope_of c
    scope_le y (inl a) = omega arith
    scope_le y (inr (e, a)) = omega arith

    rank_le : (y : CandidateRule) → AtMost y c → scope_of c ≤ scope_of y → rank_of y ≤ rank_of c
    rank_le y (inl a) b = absurd (omega arith)
    rank_le y (inr (e, a)) b = a

-- What the scan for a denial, and `final[0]` behind it, make of a list.
data Scan (first : CandidateRule) (cs : List CandidateRule) (d : Decision) : Type 0 where
  denied :
      (c : CandidateRule)
      → Memᴰ c cs
      → is_deny c ≡ true
      → d ≡ decision_from c false explicit_deny
      → Scan first cs d
  granted :
      ((x : CandidateRule) → Memᴰ x cs → is_deny x ≡ false)
      → d ≡ decision_from first true explicit_allow
      → Scan first cs d

Scan-cons :
    {first : CandidateRule} {c : CandidateRule} {cs : List CandidateRule} {d : Decision}
    → is_deny c ≡ false
    → Scan first cs d
    → Scan first (c ∷ cs) d
Scan-cons h (denied x m k e) = denied x (Memᴰ.tail m) k e
Scan-cons {c} {cs} h (granted clear e) = granted go e
  where
    go : (x : CandidateRule) → Memᴰ x (c ∷ cs) → is_deny x ≡ false
    go x (Memᴰ.head q) = rw q h
    go x (Memᴰ.tail m) = clear x m

first_deny-Scan :
    (first : CandidateRule) (cs : List CandidateRule) → Scan first cs (first_deny first cs)
unfolding first_deny
first_deny-Scan first [] = granted (λ x m. elim m [ ]) refl
first_deny-Scan first (c ∷ cs) = elim (Bool-cases (is_deny c)) [
  | inl h ↦ rw h (denied c (Memᴰ.head refl) h refl)
  | inr h ↦ rw h (Scan-cons h (first_deny-Scan first cs))
]

-- The outcome of a non-empty list of candidates: a narrowest denial if there is one, and otherwise
-- a grant by a narrowest candidate.
pub data Outcome (cs : List CandidateRule) (d : Decision) : Type 0 where
  deny_by :
      (c : CandidateRule)
      → IsNarrowest cs c
      → is_deny c ≡ true
      → d ≡ decision_from c false explicit_deny
      → Outcome cs d
  allow_by :
      (c : CandidateRule)
      → IsNarrowest cs c
      → ((x : CandidateRule) → IsNarrowest cs x → is_deny x ≡ false)
      → d ≡ decision_from c true explicit_allow
      → Outcome cs d

decide_final-Outcome :
    (cs kept : List CandidateRule)
    → ((x : CandidateRule) → Memᴰ x kept → IsNarrowest cs x)
    → ((x : CandidateRule) → IsNarrowest cs x → Memᴰ x kept)
    → (x : CandidateRule) → IsNarrowest cs x
    → Outcome cs (decide_final kept)
unfolding decide_final
decide_final-Outcome cs [] sound complete x n = elim (complete x n) [ ]
decide_final-Outcome cs (c ∷ kept) sound complete x n = go (first_deny-Scan c (c ∷ kept))
  where
    go : {d : Decision} → Scan c (c ∷ kept) d → Outcome cs d
    go (denied y m h e) = deny_by y (sound y m) h e
    go (granted clear e) = allow_by c (sound c (Memᴰ.head refl)) (λ y k. clear y (complete y k)) e

pub IsNarrowest-exists :
    (cs : List CandidateRule) → cs ≢ [] → (c : CandidateRule) × IsNarrowest cs c
unfolding narrowest_by_subject narrowest_by_resource_scope
IsNarrowest-exists cs h =
    let (a, k) = narrowest_by_inhabited scope_of cs h in
    let (b, l) = narrowest_by_inhabited rank_of (narrowest_by_resource_scope cs) (mem-ne-nil k) in
    (b, mem-final cs l)

-- With at least one candidate, the decision carries a narrowest candidate: a denial if some
-- narrowest candidate denies, and a grant only if none does.
pub decide_candidates-Outcome :
    (cs : List CandidateRule) → cs ≢ [] → Outcome cs (decide_candidates cs)
unfolding decide_candidates
decide_candidates-Outcome [] h = absurd (h refl)
decide_candidates-Outcome (c ∷ cs) h =
    let (x, n) = IsNarrowest-exists (c ∷ cs) h in
    decide_final-Outcome (c ∷ cs) (final (c ∷ cs)) (λ y m. mem-final (c ∷ cs) m)
      (λ y k. final-mem (c ∷ cs) k) x n

Outcome-allowed_iff :
    {cs : List CandidateRule} {d : Decision}
    → Outcome cs d
    → (d.allowed ≡ true) ↔ ((c : CandidateRule) → IsNarrowest cs c → is_deny c ≡ false)
unfolding decision_from
Outcome-allowed_iff (deny_by c n h e) = (λ q. cc, λ clear. let k = clear c n in cc)
Outcome-allowed_iff (allow_by c n clear e) = (λ q. clear, λ _. rw e)

nil_denied : (decide_candidates []).allowed ≡ false
unfolding decide_candidates no_match
nil_denied = refl

pub decide_candidates-allowed_iff :
    (cs : List CandidateRule)
    → ((decide_candidates cs).allowed ≡ true)
      ↔ ((cs ≢ []) × ((c : CandidateRule) → IsNarrowest cs c → is_deny c ≡ false))
decide_candidates-allowed_iff [] = (λ e. cc nil_denied, λ h. absurd (h.0 refl))
decide_candidates-allowed_iff (c ∷ cs) =
    let some_rule : c ∷ cs ≢ [] = λ e. cc in
    let (to, from) = Outcome-allowed_iff (decide_candidates-Outcome (c ∷ cs) some_rule) in
    (λ e. (some_rule, to e), λ h. from h.1)

-- `Decide` grants access exactly when the store answers with at least one candidate rule and no
-- candidate of the greatest specificity (by resource scope, then by subject) denies. So an error of
-- the store and an empty answer never grant, and one denial outweighs any number of equally
-- specific grants.
pub decide-granted_iff {ℓ} :
    {E : Type ℓ} (store : Store E) (p : Principal) (capability : Capability) (r : Resource)
    → ((d : Decision) × (decide store p capability r ≡ ok d) × (d.allowed ≡ true)) ↔ (
        (cs : List CandidateRule) × (store.candidate_rules p capability r ≡ ok cs)
        × (cs ≢ [])
        × ((c : CandidateRule) → IsNarrowest cs c → is_deny c ≡ false))
unfolding decide
decide-granted_iff store p capability r =
    elim (Result-cases (store.candidate_rules p capability r)) [
      | inl (cs, e) ↦
          let (to, from) = decide_candidates-allowed_iff cs in
          rw e (
            (λ (d, q, a).
                let h = to (ap (λ x. x.allowed) (ok-injective q) ∙ a) in (cs, refl, h.0, h.1)),
            (λ (cs', q, some_rule, clear). (
              decide_candidates cs,
              refl,
              from (
                  subst
                    (λ z. (z ≢ []) × ((c : CandidateRule) → IsNarrowest z c → is_deny c ≡ false))
                    (sym (ok-injective q)) (some_rule, clear)),
            )),
          )
      | inr (x, e) ↦ rw e ((λ (d, q, a). cc), (λ (cs, q, some_rule, clear). cc))
    ]
