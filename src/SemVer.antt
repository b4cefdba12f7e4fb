-- ===== src/SemVer.antt =====
-- pkg/teaclient/semver.go: parsing and comparing versions, and the choice of the version that a client
-- and an endpoint share. A Go string is the list of its bytes.
pub mod Order
pub mod Pairs
pub mod Mutual
mod Tests
use Prim.Native.Nat.{compare, Ordering}
use Prim.Native.Char.{code}
use opentea.Prelude.{
  ℕ, zero, suc, ◌+◌, ◌-◌, ◌*◌, ◌^◌, String, Bool, true, false, not, ◌&&◌, ◌||◌, Option, none, some,
  List, [], ◌∷◌, ◌++◌, eqb, ltb, leb, if◌then◌else◌, length, and_then, compare_rounds,
}

abbrev pub Bytes : Type 0
Bytes = List ℕ

-- The bytes of a literal, for ASCII.
abbrev pub bytes : String → Bytes
bytes String.[] = []
bytes (String.◌∷◌ c s) = code c ∷ bytes s

-- Go's `int`.
pub data ℤ : Type 0 where
  pos : ℕ → ℤ
  negsuc : ℕ → ℤ

-- `strings.Cut` at a byte: before, after, and whether it is there.
pub record Cut : Type 0 where
  pub before : Bytes
  pub after : Bytes
  pub found : Bool

abbrev pub cut : ℕ → Bytes → Cut
cut sep [] = record { before = []; after = []; found = false }
cut sep (c ∷ s) =
    let rest = cut sep s in
    if eqb c sep
    then record { before = []; after = s; found = true }
    else record rest { before = c ∷ rest.before }

abbrev pub cons_first : ℕ → List Bytes → List Bytes
cons_first c [] = (c ∷ []) ∷ []
cons_first c (part ∷ parts) = (c ∷ part) ∷ parts

-- `strings.Split` at a byte.
abbrev pub split : ℕ → Bytes → List Bytes
split sep [] = [] ∷ []
split sep (c ∷ s) = let rest = split sep s in if eqb c sep then [] ∷ rest else cons_first c rest

abbrev pub digits : ℕ → Bytes → Option ℕ
digits n [] = some n
digits n (c ∷ s) = if ltb c b'0' || ltb b'9' c then none else digits (n * 10 + (c - b'0')) s

abbrev pub magnitude : Bytes → Option ℕ
magnitude [] = none
magnitude (c ∷ s) = digits 0 (c ∷ s)

abbrev pub negate : ℕ → ℤ
negate zero = pos 0
negate (suc n) = negsuc n

abbrev pub in_range : ℕ → (ℕ → ℤ) → Option ℕ → Option ℤ
in_range bound sign none = none
in_range bound sign (some n) = if ltb n bound then some (sign n) else none

-- `strconv.Atoi`: an optional sign and digits, within 64 bits.
unfoldable pub atoi : Bytes → Option ℤ
atoi [] = none
atoi (c ∷ s) =
    if eqb c b'-'
    then in_range (2 ^ 63 + 1) negate (magnitude s)
    else if eqb c b'+'
    then in_range (2 ^ 63) pos (magnitude s)
    else in_range (2 ^ 63) pos (magnitude (c ∷ s))

-- `semVer`. The numbers are not negative: `parseSemVer` refuses those. A version that is not valid is
-- `none`.
pub record SemVer : Type 0 where
  pub major : ℕ
  pub minor : ℕ
  pub patch : ℕ
  pub pre_release : List Bytes

-- `n, err := strconv.Atoi(p); if err != nil || n < 0`
unfoldable pub number : Bytes → Option ℕ
unfolding atoi
number p = elim (atoi p) [ none ↦ none | some (pos n) ↦ some n | some (negsuc n) ↦ none ]

abbrev pub with_numbers : List Bytes → Option ℕ → Option ℕ → Option ℕ → Option SemVer
with_numbers pre (some a) (some b) (some c) =
    some (record { major = a; minor = b; patch = c; pre_release = pre })
with_numbers pre _ _ _ = none

unfoldable pub parse_sem_ver : Bytes → Option SemVer
unfolding number
parse_sem_ver s =
    let core = cut b'-' (cut b'+' s).before in
    let pre = if core.found then split b'.' core.after else [] in
    elim (split b'.' core.before) [
      | a ∷ b ∷ [] ↦ with_numbers pre (number a) (number b) (some 0)
      | a ∷ b ∷ c ∷ [] ↦ with_numbers pre (number a) (number b) (number c)
      | _ ↦ none
    ]

-- `compareInt`
abbrev pub compare_int : ℤ → ℤ → Ordering
compare_int (pos a) (pos b) = compare a b
compare_int (pos a) (negsuc b) = Ordering.gt
compare_int (negsuc a) (pos b) = Ordering.lt
compare_int (negsuc a) (negsuc b) = compare b a

-- `strings.Compare`
abbrev pub compare_bytes : Bytes → Bytes → Ordering
compare_bytes a b = compare_rounds compare a b (compare (length a) (length b))

-- The `switch` of `comparePreReleaseField`, on the two results of `Atoi` too.
abbrev pub compare_classified : Option ℤ → Option ℤ → Bytes → Bytes → Ordering
compare_classified (some na) (some nb) a b = compare_int na nb
compare_classified (some na) none a b = Ordering.lt
compare_classified none (some nb) a b = Ordering.gt
compare_classified none none a b = compare_bytes a b

unfoldable pub compare_pre_release_field : Bytes → Bytes → Ordering
unfolding atoi
compare_pre_release_field a b = compare_classified (atoi a) (atoi b) a b

unfoldable pub compare_pre_release : List Bytes → List Bytes → Ordering
unfolding compare_pre_release_field
compare_pre_release [] [] = Ordering.eq
compare_pre_release [] (f ∷ b) = Ordering.gt
compare_pre_release (f ∷ a) [] = Ordering.lt
compare_pre_release (f ∷ a) (g ∷ b) =
    compare_rounds compare_pre_release_field (f ∷ a) (g ∷ b)
      (compare (length (f ∷ a)) (length (g ∷ b)))

abbrev pub compare_valid : SemVer → SemVer → Ordering
compare_valid va vb = and_then (compare va.major vb.major) (
    and_then (compare va.minor vb.minor)
      (and_then (compare va.patch vb.patch) (compare_pre_release va.pre_release vb.pre_release)))

abbrev pub compare_parsed : Option SemVer → Option SemVer → Ordering
compare_parsed (some va) none = Ordering.gt
compare_parsed none (some vb) = Ordering.lt
compare_parsed none none = Ordering.eq
compare_parsed (some va) (some vb) = compare_valid va vb

unfoldable pub compare_sem_ver : Bytes → Bytes → Ordering
unfolding parse_sem_ver compare_pre_release
compare_sem_ver a b = compare_parsed (parse_sem_ver a) (parse_sem_ver b)

abbrev pub bytes_equal : Bytes → Bytes → Bool
bytes_equal [] [] = true
bytes_equal (a ∷ s) (b ∷ t) = eqb a b && bytes_equal s t
bytes_equal _ _ = false

-- The loop over the fields of two lists of one length.
abbrev pub fields_equal : List Bytes → List Bytes → Bool
fields_equal [] [] = true
fields_equal (a ∷ s) (b ∷ t) = bytes_equal a b && fields_equal s t
fields_equal _ _ = false

unfoldable pub sem_ver_equal : SemVer → SemVer → Bool
sem_ver_equal a b =
    eqb a.major b.major
    && (eqb a.minor b.minor && (eqb a.patch b.patch && fields_equal a.pre_release b.pre_release))

abbrev pub matches : Option SemVer → Option SemVer → Bool
matches (some cv) (some ev) = sem_ver_equal cv ev
matches _ _ = false

-- `compareSemVer(e, best) > 0`
abbrev pub higher : Bytes → Bytes → Ordering → Bytes
higher e b Ordering.gt = e
higher e b _ = b

-- `best, found`: `none` where `found` is false. One round of the inner loop.
unfoldable pub consider : Bytes → Bytes → Option Bytes → Option Bytes
unfolding parse_sem_ver sem_ver_equal compare_sem_ver
consider c e best =
    if not (matches (parse_sem_ver c) (parse_sem_ver e))
    then best
    else elim best [ none ↦ some e | some b ↦ some (higher e b (compare_sem_ver e b)) ]

abbrev pub consider_all : Bytes → List Bytes → Option Bytes → Option Bytes
consider_all c [] best = best
consider_all c (e ∷ endpoint) best = consider_all c endpoint (consider c e best)

abbrev pub choose : List Bytes → List Bytes → Option Bytes → Option Bytes
choose [] endpoint best = best
choose (c ∷ client) endpoint best = choose client endpoint (consider_all c endpoint best)

unfoldable pub highest_mutual_version : List Bytes → List Bytes → Option Bytes
unfolding consider
highest_mutual_version client endpoint = choose client endpoint none
