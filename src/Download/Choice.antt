-- ===== src/Download/Choice.antt =====
-- `selectFormatMediaType` (internal/api/artifactdownload.go): the format that it chooses.
use opentea.Prelude.{
  ◌≡◌, refl, Bool, true, false, Option, none, some, List, [], ◌∷◌, ◌++◌, All, Bool-cases, inl, inr,
  ap, subst, All-weaken, IsStrict, IsFirstBest, Outcome, first_best-Outcome,
}
use opentea.SemVer.{Bytes}
use opentea.Texts.{same_fold, is_empty}
use opentea.Artifacts.{ArtifactFormat}
use opentea.Api.{Request}
use opentea.Download.{
  AcceptRange, Floats, parse_accept, Selection, first_with, first_format, select_format_media_type,
  quality_of, media_type_of,
}
use opentea.Download.Quality.{IsOrdered, Quality, quality_of-Quality}

module _ {A : Type 0} (p : A → Bool) where
  -- The first entry that passes a test.
  pub record IsFirst (xs : List A) (x : A) : Type 0 where
    pub before : List A
    pub after : List A
    pub split_at : xs ≡ before ++ x ∷ after
    pub passes : p x ≡ true
    pub before_fails : All (λ (y : A). p y ≡ false) before

  cons-IsFirst : (y : A) (xs : List A) {x : A} → p y ≡ false → IsFirst xs x → IsFirst (y ∷ xs) x
  cons-IsFirst y xs e f = record {
    before = y ∷ f.before;
    after = f.after;
    split_at = ap (λ (z : List A). y ∷ z) f.split_at;
    passes = f.passes;
    before_fails = (e, f.before_fails);
  }

  head-IsFirst : (x : A) (xs : List A) → p x ≡ true → IsFirst (x ∷ xs) x
  head-IsFirst x xs e = record {
    before = [];
    after = xs;
    split_at = refl;
    passes = e;
    before_fails = tt;
  }

-- The test of an explicit `mediaType` on a format.
abbrev pub named : Bytes → ArtifactFormat → Bool
named q f = same_fold f.media_type q

data FirstNamed (q : Bytes) (formats : List ArtifactFormat) : Option Bytes → Type 0 where
  absent : All (λ (f : ArtifactFormat). named q f ≡ false) formats → FirstNamed q formats none
  present :
      (f : ArtifactFormat) → IsFirst (named q) formats f → FirstNamed q formats (some f.media_type)

cons-FirstNamed :
    (q : Bytes) (x : ArtifactFormat) (formats : List ArtifactFormat) {out : Option Bytes}
    → named q x ≡ false
    → FirstNamed q formats out
    → FirstNamed q (x ∷ formats) out
cons-FirstNamed q x formats e (FirstNamed.absent h) = FirstNamed.absent (e, h)
cons-FirstNamed q x formats e (FirstNamed.present f h) =
    FirstNamed.present f (cons-IsFirst (named q) x formats e h)

first_with-FirstNamed :
    (q : Bytes) (formats : List ArtifactFormat) → FirstNamed q formats (first_with q formats)
first_with-FirstNamed q [] = FirstNamed.absent tt
first_with-FirstNamed q (f ∷ formats) = elim (Bool-cases (named q f)) [
  | inl e ↦ rw e (FirstNamed.present f (head-IsFirst (named q) f formats e))
  | inr e ↦ rw e (cons-FirstNamed q f formats e (first_with-FirstNamed q formats))
]

module _ {Q : Type 0} (floats : Floats Q) where
  -- How a format is chosen, `none` where there is none to serve.
  pub data Chosen (r : Request) (formats : List ArtifactFormat) : Selection → Type 0 where
    named_first :
        (f : ArtifactFormat)
        → is_empty r.media_type ≡ false
        → IsFirst (named r.media_type) formats f
        → Chosen r formats (record { media_type = some f.media_type; used_accept = false })
    none_named :
        is_empty r.media_type ≡ false
        → All (λ (f : ArtifactFormat). named r.media_type f ≡ false) formats
        → Chosen r formats (record { media_type = none; used_accept = false })
    no_format :
        is_empty r.media_type ≡ true
        → formats ≡ []
        → Chosen r formats (record { media_type = none; used_accept = true })
    unconstrained :
        (f : ArtifactFormat) (rest : List ArtifactFormat)
        → is_empty r.media_type ≡ true
        → is_empty r.accept ≡ true
        → formats ≡ f ∷ rest
        → Chosen r formats (record { media_type = some f.media_type; used_accept = true })
    best_accepted :
        (f : ArtifactFormat) (q : Q)
        → is_empty r.media_type ≡ true
        → is_empty r.accept ≡ false
        → Quality floats (parse_accept floats r.accept) f.media_type (some q)
        → IsFirstBest (quality_of floats (parse_accept floats r.accept)) floats.gt formats f q
        → Chosen r formats (record { media_type = some f.media_type; used_accept = true })
    none_accepted :
        is_empty r.media_type ≡ true
        → is_empty r.accept ≡ false
        → All
            (λ (f : ArtifactFormat).
              Quality floats (parse_accept floats r.accept) f.media_type none)
            formats
        → Chosen r formats (record { media_type = none; used_accept = true })

  named-Chosen :
      (r : Request) (formats : List ArtifactFormat) {out : Option Bytes}
      → is_empty r.media_type ≡ false
      → FirstNamed r.media_type formats out
      → Chosen r formats (record { media_type = out; used_accept = false })
  named-Chosen r formats e (FirstNamed.absent h) = Chosen.none_named e h
  named-Chosen r formats e (FirstNamed.present f h) = Chosen.named_first f e h

  first_format-Chosen :
      (r : Request) (formats : List ArtifactFormat)
      → is_empty r.media_type ≡ true
      → is_empty r.accept ≡ true
      → Chosen r formats (record { media_type = first_format formats; used_accept = true })
  first_format-Chosen r [] e a = Chosen.no_format e refl
  first_format-Chosen r (f ∷ rest) e a = Chosen.unconstrained f rest e a refl

  module _ (ordered : IsOrdered floats) (ranges : List (AcceptRange Q)) where
    Quality-positive :
        (m : Bytes) {out : Option Q}
        → Quality floats ranges m out
        → (q : Q) → out ≡ some q
        → floats.gt q floats.zero ≡ true
    Quality-positive m (Quality.no_slash e) q h = absurd cc
    Quality-positive m (Quality.unmatched e) q h = absurd cc
    Quality-positive m (Quality.refused rg s e f) q h = absurd cc
    Quality-positive m (Quality.accepted rg s e f) q h = cc

    quality_of-IsStrict : IsStrict (quality_of floats ranges) floats.gt
    quality_of-IsStrict = record {
      trans = ordered.trans;
      over = λ a b c x e p q.
          ordered.over a b c
            (Quality-positive x.media_type (quality_of-Quality floats ranges x) c e) p q;
    }

  module _ (ordered : IsOrdered floats) where
    accept-Chosen :
        (r : Request) (formats : List ArtifactFormat) {out : Option (ArtifactFormat × Q)}
        → is_empty r.media_type ≡ true
        → is_empty r.accept ≡ false
        → Outcome (quality_of floats (parse_accept floats r.accept)) floats.gt formats out
        → Chosen r formats (record { media_type = media_type_of out; used_accept = true })
    accept-Chosen r formats e a (Outcome.no_key h) = Chosen.none_accepted e a (
        All-weaken _ _ formats
          (λ f k.
            subst (Quality floats (parse_accept floats r.accept) f.media_type) k
              (quality_of-Quality floats (parse_accept floats r.accept) f))
          h)
    accept-Chosen r formats e a (Outcome.found {x = f} {k = q} h) =
        Chosen.best_accepted f q e a
          (subst (Quality floats (parse_accept floats r.accept) f.media_type) h.has_key
            (quality_of-Quality floats (parse_accept floats r.accept) f))
          h

    -- An explicit media type chooses the first format of that name, or none; without one and without
    -- `Accept` the first format is chosen; with `Accept`, the first of those of the highest quality among
    -- the ones that their most specific range accepts, and none where all are refused or unmatched. `>` on
    -- numbers is ordered.
    pub select_format_media_type-Chosen :
        (r : Request) (formats : List ArtifactFormat)
        → Chosen r formats (select_format_media_type floats r formats)
    unfolding select_format_media_type
    select_format_media_type-Chosen r formats = elim (Bool-cases (is_empty r.media_type)) [
      | inr e ↦ rw e (named-Chosen r formats e (first_with-FirstNamed r.media_type formats))
      | inl e ↦ elim (Bool-cases (is_empty r.accept)) [
        | inl a ↦ rw (e, a) (first_format-Chosen r formats e a)
        | inr a ↦
            let ranges = parse_accept floats r.accept in
            rw (e, a)
              (accept-Chosen r formats e a (
                first_best-Outcome (quality_of floats ranges) floats.gt
                  (quality_of-IsStrict ordered ranges) formats))
      ]
    ]
