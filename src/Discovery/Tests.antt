-- ===== src/Discovery/Tests.antt =====
-- A search over three endpoints: one that is not https, one that fails twice and then refuses or
-- answers, and one that answers.
use Prim.Native.Nat.{compare}
use mathlib.Core.List.{Perm}
use opentea.Prelude.{
  ℕ, zero, suc, ◌≤◌, ◌≡◌, refl, true, false, Bool, Option, none, some, List, [], ◌∷◌, Result, ok,
  err, filter, compare-IsPreorder,
}
use opentea.SemVer.{
  Bytes, bytes, cut, bytes_equal, atoi, number, parse_sem_ver, sem_ver_equal, compare_sem_ver,
  compare_pre_release, compare_pre_release_field, consider, highest_mutual_version,
}
use opentea.Discovery.{
  ClientError, api, transport, DiscoveryInfo, WellKnownEndpoint, BootstrapDiscoverResult,
  BootstrapError, authentication, tea_error_code, is_retryable_error, retry_rounds,
  retry_with_backoff, discover, should_retry_discover, sort_endpoints_by_priority, try_endpoint,
  try_endpoints, bootstrap_discover,
}
use opentea.Discovery.Retry.{Retried, Ends, retry_with_backoff-Ends}
use opentea.Discovery.Priority.{IsByPriority, of_priority, sort_endpoints_by_priority-IsByPriority}
use opentea.Discovery.Failover.{Outcome, bootstrap_discover-Outcome}

abbrev scheme : Bytes → Option Bytes
scheme url = some (cut b':' url).before

abbrev endpoint : Bytes → Option ℕ → WellKnownEndpoint ℕ
endpoint url priority = record {
  url = url;
  versions = bytes "2.0.0" ∷ bytes "1.0" ∷ [];
  priority = priority;
}

abbrev plain_http : WellKnownEndpoint ℕ
plain_http = endpoint (bytes "http://a") none

abbrev flaky : WellKnownEndpoint ℕ
flaky = endpoint (bytes "https://b/") (some 7)

abbrev steady : WellKnownEndpoint ℕ
steady = endpoint (bytes "https://c") (some 2)

abbrev listed : List (WellKnownEndpoint ℕ)
listed = steady ∷ plain_http ∷ flaky ∷ []

abbrev info : List DiscoveryInfo
info = record { product_release_uuid = "u"; servers = "s" } ∷ []

abbrev status : ℕ → ClientError
status code = api (record { status_code = code; media_type = none; error = none })

-- The flaky server fails twice before its last word.
abbrev flaky_answers :
    Result ClientError (List DiscoveryInfo) → ℕ → Result ClientError (List DiscoveryInfo)
flaky_answers last zero = err transport
flaky_answers last (suc zero) = err (status 503)
flaky_answers last _ = last

abbrev network :
    Result ClientError (List DiscoveryInfo) → Bytes → ℕ → Result ClientError (List DiscoveryInfo)
network last url attempt = elim (bytes_equal url (bytes "https://b/v1.0")) [
  | true ↦ flaky_answers last attempt
  | false ↦ ok info
]

abbrev never : Bytes → ℕ → Bool
never url attempt = false

abbrev search :
    Result ClientError (List DiscoveryInfo) → Result BootstrapError BootstrapDiscoverResult
search last = bootstrap_discover scheme (network last) never compare 10 listed

-- It answers in the end; it answers an empty array; it says 403.
searches :
    (search (ok info) ≡ ok (record { server_url = bytes "https://b/v1.0"; info = info }))
    × (search (ok []) ≡ ok (record { server_url = bytes "https://c/v1.0"; info = info }))
    × (search (err (status 403)) ≡ err (authentication (bytes "https://b/v1.0") (status 403)))
unfolding bootstrap_discover try_endpoints try_endpoint sort_endpoints_by_priority
    retry_with_backoff retry_rounds is_retryable_error tea_error_code discover
    highest_mutual_version consider sem_ver_equal compare_sem_ver compare_pre_release
    compare_pre_release_field parse_sem_ver number atoi
searches = (refl, refl, refl)

bootstrap_discover-Outcome_example :
    Outcome scheme
      (network (ok info))
      never
      (sort_endpoints_by_priority compare 10 listed)
      (bootstrap_discover scheme (network (ok info)) never compare 10 listed)
bootstrap_discover-Outcome_example =
    bootstrap_discover-Outcome scheme (network (ok info)) never compare 10 listed

sort_endpoints_by_priority-IsByPriority_example :
    Perm (sort_endpoints_by_priority compare 10 listed) listed
    × IsByPriority compare 10 (sort_endpoints_by_priority compare 10 listed)
    × ((p : ℕ)
        → filter (of_priority compare 10 p) (sort_endpoints_by_priority compare 10 listed)
          ≡ filter (of_priority compare 10 p) listed)
sort_endpoints_by_priority-IsByPriority_example =
    sort_endpoints_by_priority-IsByPriority compare 10 compare-IsPreorder listed

abbrev flaky_discover : ℕ → Result ClientError (List DiscoveryInfo)
flaky_discover attempt = discover (flaky_answers (ok info) attempt)

abbrev no_wait_ends : ℕ → Bool
no_wait_ends attempt = false

retry_with_backoff-Ends_example :
    (n : ℕ) × (n ≤ 3)
    × Retried should_retry_discover no_wait_ends flaky_discover n
    × (retry_rounds should_retry_discover no_wait_ends flaky_discover 4 0 none
        ≡ some (retry_with_backoff should_retry_discover no_wait_ends flaky_discover))
    × Ends should_retry_discover no_wait_ends flaky_discover n
        (retry_with_backoff should_retry_discover no_wait_ends flaky_discover)
retry_with_backoff-Ends_example =
    retry_with_backoff-Ends should_retry_discover no_wait_ends flaky_discover
