-- ===== src/Authz/Permutation.antt =====
-- What the order and the repetition of the rules that a store returns can change in a decision of
-- internal/authz/engine.go, and what they cannot.
use opentea.Prelude.{◌≡◌, ◌≢◌, refl, ◌↔◌, Bool, true, false, List, [], ◌∷◌, Memᴰ, arith, mem-ne-nil}
use opentea.Authz.{
  CandidateRule, Decision, ReasonCode, scope_of, rank_of, subject_rank, decision_from,
  explicit_allow, explicit_deny, decide_candidates,
}
use opentea.Authz.Ranking.{IsNarrowest, Outcome, decide_candidates-Outcome}

-- The same candidates, in any order and any number.
abbrev pub SameRules : List CandidateRule → List CandidateRule → Type 0
SameRules cs ds = (c : CandidateRule) → Memᴰ c cs ↔ Memᴰ c ds

IsNarrowest-SameRules :
    {cs ds : List CandidateRule} {c : CandidateRule}
    → SameRules cs ds
    → IsNarrowest cs c
    → IsNarrowest ds c
IsNarrowest-SameRules {c} s n = record {
  listed = (s c).0 n.listed;
  top = λ d m. n.top d ((s d).1 m);
}

SameRules-sym : {cs ds : List CandidateRule} → SameRules cs ds → SameRules ds cs
SameRules-sym s = λ c. ((s c).1, (s c).0)

SameRules-inhabited : {cs ds : List CandidateRule} → SameRules cs ds → cs ≢ [] → ds ≢ []
SameRules-inhabited {cs = []} s h = absurd (h refl)
SameRules-inhabited {cs = c ∷ cs} s h = mem-ne-nil ((s c).0 (Memᴰ.head refl))

-- Two rules that are both narrowest are equally specific.
narrowest-equal :
    (cs : List CandidateRule) (c d : CandidateRule)
    → IsNarrowest cs c
    → IsNarrowest cs d
    → (scope_of c ≡ scope_of d) × (rank_of c ≡ rank_of d)
narrowest-equal cs c d n m =
    let up = m.top c n.listed in let down = n.top d m.listed in (grind arith, grind arith)

-- The same answer for the same reason, by equally specific rules.
pub record IsAlike (d e : Decision) : Type 0 where
  pub allowed : d.allowed ≡ e.allowed
  pub reason : d.reason ≡ e.reason
  pub scope : d.resource_scope ≡ e.resource_scope
  pub rank : subject_rank d.subject_type ≡ subject_rank e.subject_type

decision_from-IsAlike :
    (c d : CandidateRule) (allowed : Bool) (reason : ReasonCode)
    → (scope_of c ≡ scope_of d) × (rank_of c ≡ rank_of d)
    → IsAlike (decision_from c allowed reason) (decision_from d allowed reason)
unfolding decision_from
decision_from-IsAlike c d allowed reason h = record {
  allowed = refl;
  reason = refl;
  scope = h.0;
  rank = h.1;
}

Outcome-IsAlike :
    (cs ds : List CandidateRule) (d e : Decision)
    → SameRules cs ds
    → Outcome cs d
    → Outcome ds e
    → IsAlike d e
Outcome-IsAlike cs ds d e s (Outcome.deny_by c n h q) (Outcome.deny_by c' n' h' q') =
    rw (q, q')
      (decision_from-IsAlike c c' false explicit_deny
        (narrowest-equal ds c c' (IsNarrowest-SameRules s n) n'))
Outcome-IsAlike cs ds d e s (Outcome.deny_by c n h q) (Outcome.allow_by c' n' clear q') =
    absurd (let k = clear c (IsNarrowest-SameRules s n) in cc)
Outcome-IsAlike cs ds d e s (Outcome.allow_by c n clear q) (Outcome.deny_by c' n' h' q') =
    absurd (let k = clear c' (IsNarrowest-SameRules (SameRules-sym s) n') in cc)
Outcome-IsAlike cs ds d e s (Outcome.allow_by c n clear q) (Outcome.allow_by c' n' clear' q') =
    rw (q, q')
      (decision_from-IsAlike c c' true explicit_allow
        (narrowest-equal ds c c' (IsNarrowest-SameRules s n) n'))

-- Two lists of the same rules, whatever their order and repetitions, are decided alike: with the same
-- answer, reason and scope, and subject types of one rank. The rule that the decision names may be
-- another one, equally specific.
pub decide_candidates-SameRules :
    (cs ds : List CandidateRule)
    → SameRules cs ds
    → IsAlike (decide_candidates cs) (decide_candidates ds)
decide_candidates-SameRules [] [] s = record {
  allowed = refl;
  reason = refl;
  scope = refl;
  rank = refl;
}
decide_candidates-SameRules [] (d ∷ ds) s = elim ((s d).1 (Memᴰ.head refl)) [ ]
decide_candidates-SameRules (c ∷ cs) ds s =
    let some_rule : c ∷ cs ≢ [] = λ e. cc in
    Outcome-IsAlike (c ∷ cs) ds (decide_candidates (c ∷ cs)) (decide_candidates ds) s
      (decide_candidates-Outcome (c ∷ cs) some_rule)
      (decide_candidates-Outcome ds (SameRules-inhabited s some_rule))
