-- ===== src/Texts.antt =====
-- What the code uses of Go's `strings` beside what SemVer has: case folding and trimming, on the bytes of
-- an ASCII text.
use opentea.Prelude.{ℕ, Bool, true, false, ◌&&◌, ◌||◌, [], ◌∷◌, map, eqb, leb, if◌then◌else◌}
use opentea.SemVer.{Bytes, bytes_equal}
use opentea.Discovery.{lower}

-- `strings.ToLower`
abbrev pub to_lower : Bytes → Bytes
to_lower = map lower

-- `strings.EqualFold`
abbrev pub same_fold : Bytes → Bytes → Bool
same_fold a b = bytes_equal (to_lower a) (to_lower b)

-- A space, or one of `\t`, `\n`, `\v`, `\f`, `\r`.
abbrev is_space : ℕ → Bool
is_space c = eqb c b' ' || (leb 9 c && leb c 13)

abbrev trim_left : Bytes → Bytes
trim_left [] = []
trim_left (c ∷ s) = let rest = trim_left s in if is_space c then rest else c ∷ s

abbrev keep_before : ℕ → Bytes → Bytes
keep_before c [] = if is_space c then [] else c ∷ []
keep_before c (d ∷ s) = c ∷ d ∷ s

abbrev trim_end : Bytes → Bytes
trim_end [] = []
trim_end (c ∷ s) = keep_before c (trim_end s)

-- `strings.TrimSpace`
abbrev pub trim_space : Bytes → Bytes
trim_space s = trim_end (trim_left s)

abbrev pub is_empty : Bytes → Bool
is_empty [] = true
is_empty _ = false
