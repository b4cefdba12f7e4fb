-- ===== src/Download/Quality.antt =====
-- `bestAcceptQuality` (internal/api/artifactdownload.go): the range that decides on a media type.
use opentea.Prelude.{
  ℕ, ◌≡◌, true, false, Option, none, some, List, Bool-cases, inl, inr, arith, IsStrict, IsFirstBest,
  Outcome, NoKey, first_best-Outcome,
}
use opentea.SemVer.{Bytes, cut}
use opentea.Texts.{to_lower}
use opentea.Artifacts.{ArtifactFormat}
use opentea.Download.{
  AcceptRange, Floats, specificity, more_specific, best_range, positive, best_accept_quality,
  quality_of,
}

-- What IEEE 754 says of `>`: it is a strict order, and a number above 0 is no NaN, so that two of them
-- compare.
pub record IsOrdered {Q : Type 0} (floats : Floats Q) : Type 0 where
  pub irreflexive : (a : Q) → floats.gt a a ≡ false
  pub trans : (a b c : Q) → floats.gt a b ≡ true → floats.gt b c ≡ true → floats.gt a c ≡ true
  pub over :
      (a b c : Q)
      → floats.gt c floats.zero ≡ true
      → floats.gt a b ≡ true
      → floats.gt c b ≡ false
      → floats.gt a c ≡ true

more_specific-IsStrict :
    {Q : Type 0} (typ subtype : Bytes) → IsStrict (specificity {Q = Q} typ subtype) more_specific
more_specific-IsStrict typ subtype = record {
  trans = λ a b c p q. ground arith;
  over = λ a b c x e p q. ground arith;
}

module _ {Q : Type 0} (floats : Floats Q) (ranges : List (AcceptRange Q)) where
  -- The range `rg` decides on a media type: no other that matches it is more specific, and `rg` is the
  -- first of those that are as specific.
  abbrev pub Decides : Bytes → AcceptRange Q → ℕ → Type 0
  unfolding specificity
  Decides m rg s =
      let c = cut b'/' m in
      IsFirstBest (specificity (to_lower c.before) (to_lower c.after)) more_specific ranges rg s

  abbrev pub NoneMatches : Bytes → Type 0
  unfolding specificity
  NoneMatches m =
      let c = cut b'/' m in
      NoKey (specificity (to_lower c.before) (to_lower c.after)) more_specific ranges

  pub data Quality (m : Bytes) : Option Q → Type 0 where
    no_slash : (cut b'/' m).found ≡ false → Quality m none
    unmatched : NoneMatches m → Quality m none
    refused :
        (rg : AcceptRange Q) (s : ℕ)
        → Decides m rg s
        → floats.gt rg.q floats.zero ≡ false
        → Quality m none
    accepted :
        (rg : AcceptRange Q) (s : ℕ)
        → Decides m rg s
        → floats.gt rg.q floats.zero ≡ true
        → Quality m (some rg.q)

  positive-Quality :
      (m : Bytes) {out : Option (AcceptRange Q × ℕ)}
      → (let c = cut b'/' m in
          Outcome (specificity (to_lower c.before) (to_lower c.after)) more_specific ranges out)
      → Quality m (positive floats out)
  unfolding specificity
  positive-Quality m (Outcome.no_key h) = Quality.unmatched h
  positive-Quality m (Outcome.found {x = rg} {k = s} f) =
      elim (Bool-cases (floats.gt rg.q floats.zero)) [
        | inl e ↦ rw e (Quality.accepted rg s f e)
        | inr e ↦ rw e (Quality.refused rg s f e)
      ]

  pub best_accept_quality-Quality : (m : Bytes) → Quality m (best_accept_quality floats ranges m)
  unfolding best_accept_quality best_range specificity
  best_accept_quality-Quality m =
      let c = cut b'/' m in
      let key = specificity (to_lower c.before) (to_lower c.after) in
      elim (Bool-cases c.found) [
        | inr e ↦ rw e (Quality.no_slash e)
        | inl e ↦ rw e (
            positive-Quality m
              (first_best-Outcome key more_specific (more_specific-IsStrict _ _) ranges))
      ]

  pub quality_of-Quality : (f : ArtifactFormat) → Quality f.media_type (quality_of floats ranges f)
  unfolding quality_of
  quality_of-Quality f = best_accept_quality-Quality f.media_type
