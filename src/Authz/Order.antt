-- ===== src/Authz/Order.antt =====
-- The narrowing loops of internal/authz/engine.go: they keep the candidates with the greatest key.
use native.Mathlib.Nat.{le_refl}
use opentea.Prelude.{
  ℕ, ◌≤◌, ◌≡◌, ◌≢◌, refl, sym, subst, ◌⊎◌, inl, inr, List, [], ◌∷◌, Memᴰ, arith, eqb, eqb_iff, ltb,
  if◌then◌else◌, Bool-cases, All, All-mem, filter, mem-filter, filter-mem,
}
use opentea.Authz.{max_key, narrowest_by}

module _ {ℓ} {A : Type ℓ} (key : A → ℕ) where
  under :
      (m : ℕ) (cs : List A) (top : ℕ)
      → max_key key m cs ≤ top
      → (m ≤ top) × All (λ x. key x ≤ top) cs
  unfolding max_key
  under m [] top h = (h, tt)
  under m (c ∷ cs) top h =
      let next = if ltb m (key c) then key c else m in
      let (below, rest) = under next cs top h in (ground arith, (ground arith, rest))

  -- The greatest key bounds the key of each candidate.
  All-le-max_key : (c : A) (cs : List A) → All (λ x. key x ≤ max_key key (key c) cs) (c ∷ cs)
  All-le-max_key c cs = under (key c) cs (max_key key (key c) cs) (le_refl _)

  -- The greatest key is the start value or the key of a member.
  max_key_attained :
      (m : ℕ) (cs : List A)
      → (max_key key m cs ≡ m) ⊎ ((x : A) × Memᴰ x cs × (key x ≡ max_key key m cs))
  unfolding max_key
  max_key_attained m [] = inl refl
  max_key_attained m (c ∷ cs) = elim (Bool-cases (ltb m (key c))) [
    | inl e ↦ rw e (elim (max_key_attained (key c) cs) [
      | inl q ↦ inr (c, Memᴰ.head refl, sym q)
      | inr (x, k, q) ↦ inr (x, Memᴰ.tail k, q)
    ])
    | inr e ↦
        rw e
          (elim (max_key_attained m cs) [ inl q ↦ inl q | inr (x, k, q) ↦ inr (x, Memᴰ.tail k, q) ])
  ]

  narrowest_attained :
      (c : A) (cs : List A) → (x : A) × Memᴰ x (c ∷ cs) × (key x ≡ max_key key (key c) cs)
  narrowest_attained c cs = elim (max_key_attained (key c) cs) [
    | inl q ↦ (c, Memᴰ.head refl, sym q)
    | inr (x, k, q) ↦ (x, Memᴰ.tail k, q)
  ]

  pub mem-narrowest_by :
      {x : A} (cs : List A) → Memᴰ x (narrowest_by key cs) → Memᴰ x cs × All (λ y. key y ≤ key x) cs
  unfolding narrowest_by
  mem-narrowest_by [] m = elim m [ ]
  mem-narrowest_by {x} (c ∷ cs) m =
      let top = max_key key (key c) cs in
      let (k, h) = mem-filter (λ z. eqb (key z) top) (c ∷ cs) m in
      let q : key x ≡ top = (eqb_iff (key x) top).0 h in
      (k, subst (λ t. All (λ y. key y ≤ t) (c ∷ cs)) (sym q) (All-le-max_key c cs))

  pub narrowest_by-mem :
      {x : A} (cs : List A) → Memᴰ x cs → All (λ y. key y ≤ key x) cs → Memᴰ x (narrowest_by key cs)
  unfolding narrowest_by
  narrowest_by-mem [] m h = elim m [ ]
  narrowest_by-mem {x} (c ∷ cs) m h =
      let top = max_key key (key c) cs in
      let (z, k, q) = narrowest_attained c cs in
      let up : key z ≤ key x = All-mem (λ y. key y ≤ key x) k h in
      let down : key x ≤ top = All-mem (λ y. key y ≤ top) m (All-le-max_key c cs) in
      filter-mem (λ y. eqb (key y) top) (c ∷ cs) m ((eqb_iff (key x) top).1 (omega arith))

  pub narrowest_by_inhabited : (cs : List A) → cs ≢ [] → (x : A) × Memᴰ x (narrowest_by key cs)
  narrowest_by_inhabited [] h = absurd (h refl)
  narrowest_by_inhabited (c ∷ cs) h =
      let top = max_key key (key c) cs in
      let (z, k, q) = narrowest_attained c cs in
      (
        z,
        narrowest_by-mem (c ∷ cs) k
            (subst (λ t. All (λ y. key y ≤ t) (c ∷ cs)) (sym q) (All-le-max_key c cs)),
      )

  -- Where some member has the key `top` and none a greater one, the members of that key are kept.
  pub narrowest_by-eq_filter :
      (cs : List A) (top : ℕ) (x : A)
      → Memᴰ x cs
      → key x ≡ top
      → All (λ y. key y ≤ top) cs
      → narrowest_by key cs ≡ filter (λ y. eqb (key y) top) cs
  unfolding narrowest_by
  narrowest_by-eq_filter [] top x m e h = elim m [ ]
  narrowest_by-eq_filter (c ∷ cs) top x m e h =
      let max = max_key key (key c) cs in
      let (z, k, q) = narrowest_attained c cs in
      let up : key z ≤ top = All-mem (λ y. key y ≤ top) k h in
      let down : key x ≤ max = All-mem (λ y. key y ≤ max) m (All-le-max_key c cs) in
      let same : max ≡ top = omega arith in
      subst (λ t. filter (λ y. eqb (key y) t) (c ∷ cs) ≡ filter (λ y. eqb (key y) top) (c ∷ cs))
        (sym same) refl

  -- A greatest key, of a list that has a member.
  pub greatest :
      (cs : List A) (x : A)
      → Memᴰ x cs
      → (top : ℕ) × (y : A) × Memᴰ y cs × (key y ≡ top) × All (λ z. key z ≤ top) cs
  greatest [] x m = elim m [ ]
  greatest (c ∷ cs) x m =
      let (z, k, q) = narrowest_attained c cs in
      (max_key key (key c) cs, z, k, q, All-le-max_key c cs)
