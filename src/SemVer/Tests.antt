-- ===== src/SemVer/Tests.antt =====
-- Versions as pkg/teaclient/semver_test.go has them.
use Prim.Native.Nat.{Ordering}
use opentea.Prelude.{◌≡◌, refl, none, some, List, [], ◌∷◌}
use opentea.SemVer.{
  Bytes, bytes, pos, negsuc, atoi, number, parse_sem_ver, compare_pre_release_field,
  compare_pre_release, compare_sem_ver, sem_ver_equal, consider, highest_mutual_version,
}
use opentea.SemVer.Mutual.{IsHighest, highest_mutual_version-IsHighest}

parses :
    parse_sem_ver (bytes "1.0-beta.2+build")
    ≡ some (record { major = 1; minor = 0; patch = 0; pre_release = bytes "beta" ∷ bytes "2" ∷ [] })
unfolding parse_sem_ver number atoi
parses = refl

refuses : (parse_sem_ver (bytes "1") ≡ none) × (parse_sem_ver (bytes "1.x") ≡ none)
unfolding parse_sem_ver number atoi
refuses = (refl, refl)

-- The bounds of Go's `int`.
overflow :
    (atoi (bytes "9223372036854775807") ≡ some (pos 9223372036854775807))
    × (atoi (bytes "9223372036854775808") ≡ none)
    × (atoi (bytes "-9223372036854775808") ≡ some (negsuc 9223372036854775807))
    × (atoi (bytes "-9223372036854775809") ≡ none)
unfolding atoi
overflow = (refl, refl, refl, refl)

precedence :
    (compare_sem_ver (bytes "1.0.0-alpha.1") (bytes "1.0.0-alpha.beta") ≡ Ordering.lt)
    × (compare_sem_ver (bytes "1.0.0") (bytes "1.0.0-rc.1") ≡ Ordering.gt)
    × (compare_sem_ver (bytes "1.0") (bytes "1.0.0") ≡ Ordering.eq)
    × (compare_sem_ver (bytes "x") (bytes "0.0") ≡ Ordering.lt)
unfolding compare_sem_ver compare_pre_release compare_pre_release_field parse_sem_ver number atoi
precedence = (refl, refl, refl, refl)

abbrev client_versions : List Bytes
client_versions = bytes "1.0.0" ∷ bytes "1.1.0" ∷ bytes "2.0.0" ∷ []

abbrev endpoint_versions : List Bytes
endpoint_versions = bytes "1.0" ∷ bytes "3.0.0" ∷ bytes "1.1" ∷ []

chosen : highest_mutual_version client_versions endpoint_versions ≡ some (bytes "1.1")
unfolding highest_mutual_version consider sem_ver_equal compare_sem_ver compare_pre_release
    compare_pre_release_field parse_sem_ver number atoi
chosen = refl

highest_mutual_version-IsHighest_example :
    IsHighest client_versions endpoint_versions
      (highest_mutual_version client_versions endpoint_versions)
highest_mutual_version-IsHighest_example =
    highest_mutual_version-IsHighest client_versions endpoint_versions
