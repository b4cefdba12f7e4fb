-- ===== src/SemVer/Mutual.antt =====
-- `highestMutualVersion` (pkg/teaclient/semver.go) chooses the highest of the versions that both have.
use Prim.Native.Nat.{Ordering}
use opentea.Prelude.{
  ◌≡◌, ◌≢◌, refl, Bool, true, false, Option, none, some, List, [], ◌∷◌, Memᴰ, All, All-mem,
  All-weaken, Bool-cases, inl, inr, arith, self-ne-gt, ne-gt_trans,
}
use opentea.SemVer.{
  Bytes, parse_sem_ver, compare_sem_ver, matches, higher, consider, consider_all, choose,
  highest_mutual_version,
}
use opentea.SemVer.Pairs.{visit, visit_all, visit_all-mem, Between, visit_all-Between}
use opentea.SemVer.Order.{compare_sem_ver-IsPreorder}

-- The client's version and the endpoint's are one.
abbrev pub is_mutual : Bytes → Bytes → Bool
is_mutual c e = matches (parse_sem_ver c) (parse_sem_ver e)

abbrev pub Mutual : Bytes × Bytes → Type 0
Mutual p = is_mutual p.0 p.1 ≡ true

-- No pair is mutual.
abbrev pub NoneMutual : List (Bytes × Bytes) → Type 0
NoneMutual = All (λ (p : Bytes × Bytes). is_mutual p.0 p.1 ≡ false)

-- No mutual version of the pairs is above `b`.
abbrev pub NoneAbove : Bytes → List (Bytes × Bytes) → Type 0
NoneAbove b = All (λ (p : Bytes × Bytes). Mutual p → compare_sem_ver p.1 b ≢ Ordering.gt)

-- The best of the pairs seen.
data IsBest (seen : List (Bytes × Bytes)) : Option Bytes → Type 0 where
  no_match : NoneMutual seen → IsBest seen none
  best : {c b : Bytes} → Memᴰ (c, b) seen → Mutual (c, b) → NoneAbove b seen → IsBest seen (some b)

-- A pair that is not mutual changes nothing.
skip-IsBest :
    (c e : Bytes) (seen : List (Bytes × Bytes)) (b : Option Bytes)
    → is_mutual c e ≡ false
    → IsBest seen b
    → IsBest ((c, e) ∷ seen) b
skip-IsBest c e seen b f (IsBest.no_match h) = IsBest.no_match (f, h)
skip-IsBest c e seen b f (IsBest.best m q h) =
    IsBest.best (Memᴰ.tail m) q ((λ t. absurd (ground arith)), h)

NoneAbove-above :
    (b e : Bytes) (seen : List (Bytes × Bytes))
    → compare_sem_ver e b ≡ Ordering.gt
    → NoneAbove b seen
    → NoneAbove e seen
NoneAbove-above b e seen above h =
    All-weaken _ _ seen
      (λ (p : Bytes × Bytes) k m.
        ne-gt_trans compare_sem_ver compare_sem_ver-IsPreorder p.1 b e (k m) above)
      h

NoneMutual-NoneAbove :
    (e : Bytes) (seen : List (Bytes × Bytes)) → NoneMutual seen → NoneAbove e seen
NoneMutual-NoneAbove e seen h =
    All-weaken _ _ seen (λ (p : Bytes × Bytes) k m. absurd (ground arith)) h

replace-IsBest :
    (c e : Bytes) (seen : List (Bytes × Bytes))
    → is_mutual c e ≡ true
    → NoneAbove e seen
    → IsBest ((c, e) ∷ seen) (some e)
replace-IsBest c e seen t h =
    IsBest.best (Memᴰ.head refl) t
      ((λ m. self-ne-gt compare_sem_ver compare_sem_ver-IsPreorder e), h)

-- Against the best so far, by what the comparison says.
against-IsBest :
    (c e b : Bytes) (seen : List (Bytes × Bytes)) (o : Ordering)
    → is_mutual c e ≡ true
    → compare_sem_ver e b ≡ o
    → IsBest seen (some b)
    → IsBest ((c, e) ∷ seen) (some (higher e b o))
against-IsBest c e b seen Ordering.gt t h (IsBest.best m q above) =
    replace-IsBest c e seen t (NoneAbove-above b e seen h above)
against-IsBest c e b seen Ordering.lt t h (IsBest.best m q above) =
    IsBest.best (Memᴰ.tail m) q ((λ k g. absurd (ground arith)), above)
against-IsBest c e b seen Ordering.eq t h (IsBest.best m q above) =
    IsBest.best (Memᴰ.tail m) q ((λ k g. absurd (ground arith)), above)

consider-IsBest :
    (c e : Bytes) (seen : List (Bytes × Bytes)) (b : Option Bytes)
    → IsBest seen b
    → IsBest ((c, e) ∷ seen) (consider c e b)
unfolding consider
consider-IsBest c e seen none (IsBest.no_match h) = elim (Bool-cases (is_mutual c e)) [
  | inr f ↦ rw (consider, f) (skip-IsBest c e seen none f (IsBest.no_match h))
  | inl t ↦ rw (consider, t) (replace-IsBest c e seen t (NoneMutual-NoneAbove e seen h))
]
consider-IsBest c e seen (some b) h = elim (Bool-cases (is_mutual c e)) [
  | inr f ↦ rw (consider, f) (skip-IsBest c e seen (some b) f h)
  | inl t ↦ rw (consider, t) (against-IsBest c e b seen (compare_sem_ver e b) t refl h)
]

consider_all-IsBest :
    (c : Bytes) (endpoint : List Bytes) (seen : List (Bytes × Bytes)) (b : Option Bytes)
    → IsBest seen b
    → IsBest (visit c endpoint seen) (consider_all c endpoint b)
consider_all-IsBest c [] seen b h = h
consider_all-IsBest c (e ∷ endpoint) seen b h =
    consider_all-IsBest c endpoint ((c, e) ∷ seen) (consider c e b) (consider-IsBest c e seen b h)

choose-IsBest :
    (client endpoint : List Bytes) (seen : List (Bytes × Bytes)) (b : Option Bytes)
    → IsBest seen b
    → IsBest (visit_all client endpoint seen) (choose client endpoint b)
choose-IsBest [] endpoint seen b h = h
choose-IsBest (c ∷ client) endpoint seen b h =
    choose-IsBest client endpoint (visit c endpoint seen) (consider_all c endpoint b)
      (consider_all-IsBest c endpoint seen b h)

-- What the choice is: one of the endpoint's versions, equal to one of the client's, and no version that
-- both have is above it; or nothing, where they have none in common.
pub data IsHighest (client endpoint : List Bytes) : Option Bytes → Type 0 where
  nothing :
      ((c e : Bytes) → Memᴰ c client → Memᴰ e endpoint → is_mutual c e ≡ false)
      → IsHighest client endpoint none
  highest :
      {c b : Bytes}
      → Memᴰ c client
      → Memᴰ b endpoint
      → is_mutual c b ≡ true
      → ((c e : Bytes)
          → Memᴰ c client
          → Memᴰ e endpoint
          → is_mutual c e ≡ true
          → compare_sem_ver e b ≢ Ordering.gt)
      → IsHighest client endpoint (some b)

IsHighest-of_best :
    (client endpoint : List Bytes) (b : Option Bytes)
    → IsBest (visit_all client endpoint []) b
    → IsHighest client endpoint b
IsHighest-of_best client endpoint none (IsBest.no_match h) = IsHighest.nothing λ c e m n.
    All-mem (λ (p : Bytes × Bytes). is_mutual p.0 p.1 ≡ false)
      (visit_all-mem client endpoint [] m n) h
IsHighest-of_best client endpoint (some b) (IsBest.best v q h) =
    let (m, n) =
      All-mem (Between client endpoint) v
        (visit_all-Between client endpoint client [] (λ c k. k) tt) in
    IsHighest.highest m n q λ c e i j.
      All-mem (λ (p : Bytes × Bytes). Mutual p → compare_sem_ver p.1 b ≢ Ordering.gt)
        (visit_all-mem client endpoint [] i j) h

-- The version chosen is one that the endpoint names and the client has, and no version that both have
-- is above it; none is chosen only where they have none in common.
pub highest_mutual_version-IsHighest :
    (client endpoint : List Bytes)
    → IsHighest client endpoint (highest_mutual_version client endpoint)
unfolding highest_mutual_version
highest_mutual_version-IsHighest client endpoint =
    IsHighest-of_best client endpoint _ (choose-IsBest client endpoint [] none (IsBest.no_match tt))
