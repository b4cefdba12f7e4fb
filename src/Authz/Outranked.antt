-- ===== src/Authz/Outranked.antt =====
-- A rule that a more specific one outranks plays no part in a decision of internal/authz/engine.go.
use opentea.Prelude.{
  ℕ, ◌≤◌, ◌<◌, ◌≡◌, ◌≢◌, refl, sym, ap, ◌∙◌, subst, ◌⊎◌, inl, inr, Bool, List, [], ◌∷◌, ◌++◌, Memᴰ,
  mem-append_cases, mem-append_left, mem-append_right, arith, eqb, eqb_iff, filter, filter-append,
  Bool-cases, All, All-mem, mem-ne-nil,
}
use opentea.Authz.{
  CandidateRule, scope_of, rank_of, narrowest_by, narrowest_by_resource_scope, narrowest_by_subject,
  decide_final, decide_candidates,
}
use opentea.Authz.Order.{narrowest_by-eq_filter, narrowest_by-mem, greatest}

-- `b` is less specific than `c`.
abbrev pub Outranks : CandidateRule → CandidateRule → Type 0
Outranks c b = (scope_of b < scope_of c) ⊎ ((scope_of b ≡ scope_of c) × (rank_of b < rank_of c))

module _ {A : Type 0} where
  mem-insert : {x : A} (b : A) (xs ys : List A) → Memᴰ x (xs ++ ys) → Memᴰ x (xs ++ b ∷ ys)
  mem-insert b xs ys m = elim (mem-append_cases xs m) [
    | inl k ↦ mem-append_left (b ∷ ys) k
    | inr k ↦ mem-append_right xs (Memᴰ.tail k)
  ]

  All-insert :
      (P : A → Type 0) (b : A) (xs ys : List A) → P b → All P (xs ++ ys) → All P (xs ++ b ∷ ys)
  All-insert P b [] ys h k = (h, k)
  All-insert P b (x ∷ xs) ys h k = (k.0, All-insert P b xs ys h k.1)

  module _ (key : A → ℕ) (b c : A) (xs ys : List A) (m : Memᴰ c (xs ++ ys)) where
    -- What a narrowing makes of an entry that is not above some other: it drops it, or keeps it among
    -- the others that it keeps.
    narrowed :
        key b ≤ key c
        → (narrowest_by key (xs ++ b ∷ ys) ≡ narrowest_by key (xs ++ ys))
          ⊎ ((us : List A) × (vs : List A) × (narrowest_by key (xs ++ b ∷ ys) ≡ us ++ b ∷ vs)
              × (narrowest_by key (xs ++ ys) ≡ us ++ vs)
              × All (λ y. key y ≤ key b) (xs ++ ys))
    narrowed h =
        let (top, z, k, q, bound) = greatest key (xs ++ ys) c m in
        let p : A → Bool = λ y. eqb (key y) top in
        let below : key b ≤ top = let at = All-mem (λ y. key y ≤ top) m bound in omega arith in
        let with_b =
          narrowest_by-eq_filter key (xs ++ b ∷ ys) top z (mem-insert b xs ys k) q
            (All-insert (λ y. key y ≤ top) b xs ys below bound)
          ∙ filter-append p xs (b ∷ ys) in
        let without =
          narrowest_by-eq_filter key (xs ++ ys) top z k q bound ∙ filter-append p xs ys in
        elim (Bool-cases (p b)) [
          | inr e ↦ inl (with_b ∙ rw e (sym without))
          | inl e ↦
              let same : top ≡ key b = sym ((eqb_iff (key b) top).0 e) in
              inr (
                filter p xs,
                filter p ys,
                with_b ∙ rw e refl,
                without,
                subst (λ t. All (λ y. key y ≤ t) (xs ++ ys)) same bound,
              )
        ]

    -- One that is below some other is dropped.
    dropped : key b < key c → narrowest_by key (xs ++ b ∷ ys) ≡ narrowest_by key (xs ++ ys)
    dropped h = elim (narrowed (omega arith)) [
      | inl e ↦ e
      | inr (us, vs, e, f, bound) ↦
          absurd (let at = All-mem (λ y. key y ≤ key b) m bound in omega arith)
    ]

decide_candidates-final :
    (cs : List CandidateRule)
    → cs ≢ []
    → decide_candidates cs ≡ decide_final (narrowest_by rank_of (narrowest_by scope_of cs))
unfolding decide_candidates narrowest_by_subject narrowest_by_resource_scope
decide_candidates-final [] h = absurd (h refl)
decide_candidates-final (c ∷ cs) h = refl

module _ (b c : CandidateRule) (xs ys : List CandidateRule) (m : Memᴰ c (xs ++ ys))
    (o : Outranks c b) where
  -- Of two rules on one scope, the narrowing by subject drops the one for the broader subject.
  same_scope :
      scope_of b ≡ scope_of c
      → rank_of b < rank_of c
      → narrowest_by rank_of (narrowest_by scope_of (xs ++ b ∷ ys))
        ≡ narrowest_by rank_of (narrowest_by scope_of (xs ++ ys))
  same_scope e lt = elim (narrowed scope_of b c xs ys m (omega (arith, e))) [
    | inl q ↦ ap (narrowest_by rank_of) q
    | inr (us, vs, q, f, bound) ↦
        let kept : Memᴰ c (us ++ vs) =
          subst (λ z. Memᴰ c z) f
            (narrowest_by-mem scope_of (xs ++ ys) m
              (subst (λ n. All (λ y. scope_of y ≤ n) (xs ++ ys)) e bound)) in
        ap (narrowest_by rank_of) q
        ∙ dropped rank_of b c us vs kept lt
        ∙ ap (narrowest_by rank_of) (sym f)
  ]

  final-outranked :
      narrowest_by rank_of (narrowest_by scope_of (xs ++ b ∷ ys))
      ≡ narrowest_by rank_of (narrowest_by scope_of (xs ++ ys))
  final-outranked = elim o [
    | inl lt ↦ ap (narrowest_by rank_of) (dropped scope_of b c xs ys m lt)
    | inr (e, lt) ↦ same_scope e lt
  ]

  -- A rule that some candidate outranks, wherever it stands, changes nothing of the decision: a broader
  -- grant cannot lift a narrower denial, nor a broader denial a narrower grant, and neither is named.
  pub decide_candidates-outranked : decide_candidates (xs ++ b ∷ ys) ≡ decide_candidates (xs ++ ys)
  decide_candidates-outranked =
      decide_candidates-final (xs ++ b ∷ ys) (mem-ne-nil (mem-append_right xs (Memᴰ.head refl)))
      ∙ ap decide_final final-outranked
      ∙ sym (decide_candidates-final (xs ++ ys) (mem-ne-nil m))
