-- ===== src/Download/Resolved.antt =====
-- The format that `selectFormatMediaType` chooses is the one that `GetArtifactFormatForDownload`
-- (internal/repo/artifact.go) then finds by its media type.
use opentea.Prelude.{
  ℕ, ◌≡◌, refl, sym, ◌∙◌, ap, subst, true, false, not, Option, none, some, List, [], ◌∷◌, ◌++◌, All,
  Memᴰ, mem-append_right, Bool-cases, inl, inr, arith, eqb, if◌then◌else◌, first_best, All-weaken,
}
use opentea.SemVer.{Bytes, bytes_equal, cut, Cut}
use opentea.Discovery.{lower}
use opentea.Texts.{to_lower, same_fold}
use opentea.Artifacts.{ArtifactFormat, content_of, find_content}
use opentea.Api.{Request}
use opentea.Download.{
  AcceptRange, Floats, parse_accept, specificity, more_specific, best_range, positive,
  best_accept_quality, Selection, quality_of, select_format_media_type,
}
use opentea.Download.Quality.{IsOrdered}
use opentea.Download.Choice.{named, Chosen, select_format_media_type-Chosen}

bytes_equal-eq : (a b : Bytes) → bytes_equal a b ≡ true → a ≡ b
bytes_equal-eq [] [] h = refl
bytes_equal-eq [] (y ∷ b) h = absurd cc
bytes_equal-eq (x ∷ a) [] h = absurd cc
bytes_equal-eq (x ∷ a) (y ∷ b) h = let ih = bytes_equal-eq a b in grind arith

bytes_equal_self : (a : Bytes) → bytes_equal a a ≡ true
bytes_equal_self [] = refl
bytes_equal_self (x ∷ a) = let ih = bytes_equal_self a in ground arith

same_fold-eq : (a b : Bytes) → same_fold a b ≡ true → to_lower a ≡ to_lower b
same_fold-eq a b h = bytes_equal-eq (to_lower a) (to_lower b) h

eq-same_fold : (a b : Bytes) → to_lower a ≡ to_lower b → same_fold a b ≡ true
eq-same_fold a b h = rw h (bytes_equal_self (to_lower b))

lower-slash : (c : ℕ) → eqb (lower c) b'/' ≡ eqb c b'/'
lower-slash c = ground arith

-- Cutting and lowering commute.
cut-to_lower :
    (m : Bytes)
    → cut b'/' (to_lower m) ≡ record {
      before = to_lower (cut b'/' m).before;
      after = to_lower (cut b'/' m).after;
      found = (cut b'/' m).found;
    }
cut-to_lower [] = refl
cut-to_lower (c ∷ m) = elim (Bool-cases (eqb c b'/')) [
  | inl e ↦ rw (lower-slash c, e) refl
  | inr e ↦ rw (lower-slash c, e, cut-to_lower m) refl
]

module _ {Q : Type 0} (floats : Floats Q) (ranges : List (AcceptRange Q)) where
  -- What `bestAcceptQuality` reads of a media type: it, in lower case.
  abbrev lowered_range : Cut → Option (AcceptRange Q × ℕ)
  unfolding specificity
  lowered_range c =
      if not c.found then none else first_best (specificity c.before c.after) more_specific ranges

  best_range-lowered : (m : Bytes) → best_range ranges m ≡ lowered_range (cut b'/' (to_lower m))
  unfolding best_range lowered_range specificity
  best_range-lowered m = rw (cut-to_lower m) refl

  quality_of-same :
      (f g : ArtifactFormat)
      → same_fold f.media_type g.media_type ≡ true
      → quality_of floats ranges f ≡ quality_of floats ranges g
  unfolding quality_of best_accept_quality
  quality_of-same f g h = ap (positive floats) (
      best_range-lowered f.media_type
      ∙ ap (λ (z : Bytes). lowered_range (cut b'/' z)) (same_fold-eq f.media_type g.media_type h)
      ∙ sym (best_range-lowered g.media_type))

-- The first format with a media type is what the lookup of that media type finds.
find_content-first :
    (f : ArtifactFormat) (before after : List ArtifactFormat)
    → All (λ (y : ArtifactFormat). same_fold y.media_type f.media_type ≡ false) before
    → find_content f.media_type (before ++ f ∷ after) ≡ content_of f
unfolding find_content content_of
find_content-first f [] after h = rw (eq-same_fold f.media_type f.media_type refl) refl
find_content-first f (y ∷ before) after h = rw (h.0) (find_content-first f before after h.1)

-- A format of the list has the media type, and it is the one that the lookup finds.
pub record IsResolved (formats : List ArtifactFormat) (m : Bytes) : Type 0 where
  pub format : ArtifactFormat
  pub offered : Memᴰ format formats
  pub has_media_type : format.media_type ≡ m
  pub looked_up : find_content m formats ≡ content_of format

split-IsResolved :
    (f : ArtifactFormat) (before after formats : List ArtifactFormat) (m : Bytes)
    → formats ≡ before ++ f ∷ after
    → All (λ (y : ArtifactFormat). same_fold y.media_type f.media_type ≡ false) before
    → some f.media_type ≡ some m
    → IsResolved formats m
split-IsResolved f before after formats m s h e =
    let q : f.media_type ≡ m = cc in
    record {
      format = f;
      offered = subst (λ z. Memᴰ f z) (sym s) (mem-append_right before (Memᴰ.head refl));
      has_media_type = q;
      looked_up =
          subst (λ z. find_content z formats ≡ content_of f) q
            (rw s (find_content-first f before after h));
    }

-- Where `f` is named so and `y` is not, the two differ.
named-differ :
    (q : Bytes) (f y : ArtifactFormat)
    → named q f ≡ true
    → named q y ≡ false
    → same_fold y.media_type f.media_type ≡ false
named-differ q f y a b = elim (Bool-cases (same_fold y.media_type f.media_type)) [
  | inr e ↦ e
  | inl e ↦
      let t =
        eq-same_fold y.media_type q
          (same_fold-eq y.media_type f.media_type e ∙ same_fold-eq f.media_type q a) in
      absurd cc
]

module _ {Q : Type 0} (floats : Floats Q) (ordered : IsOrdered floats) where
  -- A format of a lower quality has another media type.
  below-differ :
      (ranges : List (AcceptRange Q)) (f y : ArtifactFormat) (k : Q)
      → quality_of floats ranges f ≡ some k
      → ((j : Q) → quality_of floats ranges y ≡ some j → floats.gt k j ≡ true)
      → same_fold y.media_type f.media_type ≡ false
  below-differ ranges f y k e h = elim (Bool-cases (same_fold y.media_type f.media_type)) [
    | inr d ↦ d
    | inl d ↦
        let above = h k (quality_of-same floats ranges y f d ∙ e) in
        let none_above = ordered.irreflexive k in absurd cc
  ]

  Chosen-IsResolved :
      (r : Request) (formats : List ArtifactFormat) (m : Bytes) {sel : Selection}
      → Chosen floats r formats sel
      → sel.media_type ≡ some m
      → IsResolved formats m
  Chosen-IsResolved r formats m (Chosen.named_first f q i) e =
      split-IsResolved f i.before i.after formats m i.split_at
        (All-weaken _ _ i.before (λ y k. named-differ r.media_type f y i.passes k) i.before_fails) e
  Chosen-IsResolved r formats m (Chosen.none_named q h) e = absurd cc
  Chosen-IsResolved r formats m (Chosen.no_format q h) e = absurd cc
  Chosen-IsResolved r formats m (Chosen.unconstrained f rest q a s) e =
      split-IsResolved f [] rest formats m s tt e
  Chosen-IsResolved r formats m (Chosen.best_accepted f k q a w i) e =
      split-IsResolved f i.before i.after formats m i.split_at
        (All-weaken _ _ i.before
          (λ y b. below-differ (parse_accept floats r.accept) f y k i.has_key b) i.before_below)
        e
  Chosen-IsResolved r formats m (Chosen.none_accepted q a h) e = absurd cc

  pub select_format_media_type-IsResolved :
      (r : Request) (formats : List ArtifactFormat) (m : Bytes)
      → (select_format_media_type floats r formats).media_type ≡ some m
      → IsResolved formats m
  select_format_media_type-IsResolved r formats m =
      Chosen-IsResolved r formats m (select_format_media_type-Chosen floats ordered r formats)
