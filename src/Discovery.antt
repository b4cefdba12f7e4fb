-- ===== src/Discovery.antt =====
-- pkg/teaclient/wellknown.go: from a well-known document to the server that answers for a TEI. The
-- network is a function: what a server answers to the n-th request. Errors and retries are in Attempts.
mod Attempts
pub mod Retry
pub mod Priority
pub mod Failover
mod Tests
unfoldable pub use Attempts.*
use Prim.Native.Nat.{Ordering}
use opentea.Prelude.{
  ℕ, zero, suc, ◌+◌, ◌-◌, String, Bool, true, false, not, ◌&&◌, ◌||◌, Option, none, some, List, [],
  ◌∷◌, ◌++◌, eqb, ltb, leb, ◌==◌, if◌then◌else◌, length, Result, ok, err, ◌>>=◌,
}
use opentea.SemVer.{Bytes, bytes, bytes_equal, highest_mutual_version}

-- `strings.TrimRight` at `/`
abbrev pub trim_right : Bytes → Bytes
trim_right [] = []
trim_right (c ∷ s) = trimmed (trim_right s)
  where
    trimmed : Bytes → Bytes
    trimmed [] = if eqb c b'/' then [] else c ∷ []
    trimmed (d ∷ t) = c ∷ d ∷ t

abbrev pub lower : ℕ → ℕ
lower c = if leb b'A' c && leb c b'Z' then c + 32 else c

-- `strings.EqualFold` with an ASCII word in lower case.
abbrev pub equal_fold : Bytes → Bytes → Bool
equal_fold [] [] = true
equal_fold (a ∷ s) (b ∷ t) = eqb (lower a) b && equal_fold s t
equal_fold _ _ = false

-- `tea.WellKnownEndpoint`. `P` is the type of priorities, `float64`.
pub record WellKnownEndpoint (P : Type 0) : Type 0 where
  pub url : Bytes
  pub versions : List Bytes
  pub priority : Option P

abbrev pub is_above : Ordering → Bool
is_above Ordering.gt = true
is_above _ = false

-- An absent priority is `one`.
abbrev pub endpoint_priority : {P : Type 0} → P → WellKnownEndpoint P → P
endpoint_priority one ep = elim ep.priority [ none ↦ one | some p ↦ p ]

module _ {P : Type 0} (compare_priority : P → P → Ordering) (one : P) where
  abbrev pub insert_endpoint :
      WellKnownEndpoint P → List (WellKnownEndpoint P) → List (WellKnownEndpoint P)
  insert_endpoint ep [] = ep ∷ []
  insert_endpoint ep (x ∷ rest) =
      if is_above (compare_priority (endpoint_priority one x) (endpoint_priority one ep))
      then x ∷ insert_endpoint ep rest
      else ep ∷ x ∷ rest

  -- `sortEndpointsByPriority`, a stable sort: an endpoint goes before those that are not above it.
  unfoldable pub sort_endpoints_by_priority :
      List (WellKnownEndpoint P) → List (WellKnownEndpoint P)
  sort_endpoints_by_priority [] = []
  sort_endpoints_by_priority (ep ∷ endpoints) =
      insert_endpoint ep (sort_endpoints_by_priority endpoints)

-- `BootstrapDiscoverResult`
pub record BootstrapDiscoverResult : Type 0 where
  pub server_url : Bytes
  pub info : List DiscoveryInfo

-- What `errs` collects.
pub data EndpointError : Type 0 where
  not_https no_mutual_version : Bytes → EndpointError
  failed : Bytes → ClientError → EndpointError

pub data BootstrapError : Type 0 where
  authentication : Bytes → ClientError → BootstrapError
  unknown_object : Bytes → String → BootstrapError
  all_failed : List EndpointError → BootstrapError

-- How the body of the loop ends: `continue` with an error, or a return.
pub data Verdict : Type 0 where
  next : EndpointError → Verdict
  stop : BootstrapError → Verdict
  found : BootstrapDiscoverResult → Verdict

-- `SupportedVersions`
abbrev pub supported_versions : List Bytes
supported_versions = bytes "1.0.0" ∷ []

abbrev pub server_url_of : Bytes → Bytes → Bytes
server_url_of url version = trim_right url ++ bytes "/v" ++ version

-- Not `IsUnauthorized`, not `IsForbidden`, and `isRetryableError`.
abbrev pub should_retry_discover : ClientError → Bool
should_retry_discover e = not (is_unauthorized e) && (not (is_forbidden e) && is_retryable_error e)

abbrev pub refused_as_unknown : ClientError → Option String
refused_as_unknown e = if is_not_found e then tea_error_code e else none

abbrev pub verdict_of : Bytes → Result ClientError (List DiscoveryInfo) → Verdict
verdict_of server_url (ok info) = Verdict.found (record { server_url = server_url; info = info })
verdict_of server_url (err e) =
    if is_unauthorized e || is_forbidden e
    then Verdict.stop (authentication server_url e)
    else elim (refused_as_unknown e) [
      | some code ↦ Verdict.stop (unknown_object server_url code)
      | none ↦ Verdict.next (failed server_url e)
    ]

abbrev pub is_https : Option Bytes → Bool
is_https none = false
is_https (some scheme) = equal_fold scheme (bytes "https")

-- `parse_scheme` is the scheme that `url.Parse` finds; `answers` is what the server at a URL answers to
-- the n-th request; `done` says of each wait whether the context ends in it.
module _ (parse_scheme : Bytes → Option Bytes)
    (answers : Bytes → ℕ → Result ClientError (List DiscoveryInfo)) (done : Bytes → ℕ → Bool) where
  abbrev pub ask : Bytes → Result ClientError (List DiscoveryInfo)
  ask server_url =
      retry_with_backoff should_retry_discover (done server_url)
        (λ attempt. discover (answers server_url attempt))

  module _ {P : Type 0} where
    unfoldable pub try_endpoint : WellKnownEndpoint P → Verdict
    unfolding retry_with_backoff discover tea_error_code highest_mutual_version
    try_endpoint ep =
        if not (is_https (parse_scheme ep.url))
        then Verdict.next (not_https ep.url)
        else elim (highest_mutual_version supported_versions ep.versions) [
          | none ↦ Verdict.next (no_mutual_version ep.url)
          | some version ↦
              let server_url = server_url_of ep.url version in
              verdict_of server_url (ask server_url)
        ]

    -- The `for` over the sorted endpoints.
    unfoldable pub try_endpoints :
        List (WellKnownEndpoint P)
        → List EndpointError
        → Result BootstrapError BootstrapDiscoverResult
    unfolding try_endpoint
    try_endpoints [] errs = err (all_failed errs)
    try_endpoints (ep ∷ endpoints) errs = elim (try_endpoint ep) [
      | found r ↦ ok r
      | stop e ↦ err e
      | next e ↦ try_endpoints endpoints (errs ++ e ∷ [])
    ]

    -- `bootstrapDiscoverWithAuthority`, from the document that `fetchWellKnown` returned.
    unfoldable pub bootstrap_discover :
        (P → P → Ordering)
        → P
        → List (WellKnownEndpoint P)
        → Result BootstrapError BootstrapDiscoverResult
    unfolding try_endpoints sort_endpoints_by_priority
    bootstrap_discover compare_priority one endpoints =
        try_endpoints (sort_endpoints_by_priority compare_priority one endpoints) []
