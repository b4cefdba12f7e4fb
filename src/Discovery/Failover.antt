-- ===== src/Discovery/Failover.antt =====
-- `bootstrapDiscoverWithAuthority` (pkg/teaclient/wellknown.go): which endpoint's answer is returned, and
-- when the others are not asked.
use Prim.Native.Nat.{Ordering}
use opentea.Prelude.{
  false, ℕ, ◌≡◌, ◌≢◌, ◌∙◌, refl, subst, Bool, true, Option, none, some, Option-cases, List, [], ◌∷◌,
  ◌++◌, Bool-cases, inl, inr, ◌⊎◌, All, Result, ok, err,
}
use opentea.SemVer.{Bytes, highest_mutual_version}
use opentea.SemVer.Mutual.{IsHighest, highest_mutual_version-IsHighest}
use opentea.Prelude.{Result-cases, ◌||◌}
use opentea.Discovery.{
  ClientError, DiscoveryInfo, WellKnownEndpoint, BootstrapDiscoverResult, BootstrapError,
  EndpointError, Verdict, next, stop, found, all_failed, not_https, no_mutual_version, failed,
  authentication, unknown_object, is_unauthorized, is_forbidden, is_https, supported_versions,
  server_url_of, verdict_of, ask, try_endpoint, try_endpoints, sort_endpoints_by_priority,
  bootstrap_discover, refused_as_unknown,
}

module _ {P : Type 0} (parse_scheme : Bytes → Option Bytes)
    (answers : Bytes → ℕ → Result ClientError (List DiscoveryInfo)) (done : Bytes → ℕ → Bool) where
  abbrev attempt : WellKnownEndpoint P → Verdict
  attempt = try_endpoint parse_scheme answers done

  -- The endpoint is passed over, as it is not https or has no version that the client has, or it failed
  -- in a way that lets the next be asked.
  pub data FailedOver (ep : WellKnownEndpoint P) : Type 0 where
    insecure : is_https (parse_scheme ep.url) ≡ false → FailedOver ep
    no_version : IsHighest supported_versions ep.versions none → FailedOver ep
    unavailable :
        (version : Bytes) (error : ClientError)
        → IsHighest supported_versions ep.versions (some version)
        → ask parse_scheme answers done (server_url_of ep.url version) ≡ err error
        → is_unauthorized error || is_forbidden error ≡ false
        → refused_as_unknown error ≡ none
        → FailedOver ep

  -- The endpoint is https, the version in the URL is the highest that both have, and the result is what
  -- the server there answered.
  pub record Answered (ep : WellKnownEndpoint P) (r : BootstrapDiscoverResult) : Type 0 where
    pub version : Bytes
    pub https : is_https (parse_scheme ep.url) ≡ true
    pub highest : IsHighest supported_versions ep.versions (some version)
    pub server : r.server_url ≡ server_url_of ep.url version
    pub answer : ask parse_scheme answers done r.server_url ≡ ok r.info

  -- The server there answered 401 or 403, or a 404 that is a TEA error response.
  pub record Refused (ep : WellKnownEndpoint P) : Type 0 where
    pub version : Bytes
    pub https : is_https (parse_scheme ep.url) ≡ true
    pub highest : IsHighest supported_versions ep.versions (some version)
    pub error : ClientError
    pub answer : ask parse_scheme answers done (server_url_of ep.url version) ≡ err error
    pub why :
        (is_unauthorized error || is_forbidden error ≡ true) ⊎ (refused_as_unknown error ≢ none)

  -- What an attempt comes to.
  data Attempted (ep : WellKnownEndpoint P) : Type 0 where
    failed_over : {e : EndpointError} → attempt ep ≡ next e → FailedOver ep → Attempted ep
    refused : {e : BootstrapError} → attempt ep ≡ stop e → Refused ep → Attempted ep
    answered : {r : BootstrapDiscoverResult} → attempt ep ≡ found r → Answered ep r → Attempted ep

  -- A version is chosen: the server at it is asked.
  reached-Attempted :
      (ep : WellKnownEndpoint P) (version : Bytes)
      → is_https (parse_scheme ep.url) ≡ true
      → IsHighest supported_versions ep.versions (some version)
      → attempt ep
        ≡ verdict_of
            (server_url_of ep.url version)
            (ask parse_scheme answers done (server_url_of ep.url version))
      → Attempted ep
  reached-Attempted ep version https best verdict =
      let server_url = server_url_of ep.url version in
      elim (Result-cases (ask parse_scheme answers done server_url)) [
        | inl (info, a) ↦
            Attempted.answered {r = record { server_url = server_url; info = info }}
              (verdict ∙ rw a refl)
              (record {
                version = version;
                https = https;
                highest = best;
                server = refl;
                answer = a;
              })
        | inr (e, a) ↦ elim (Bool-cases (is_unauthorized e || is_forbidden e)) [
          | inl t ↦
              Attempted.refused {e = authentication server_url e} (verdict ∙ rw (a, t) refl)
                (record {
                  version = version;
                  https = https;
                  highest = best;
                  error = e;
                  answer = a;
                  why = inl t;
                })
          | inr f ↦ elim (Option-cases (refused_as_unknown e)) [
            | inr (code, u) ↦
                Attempted.refused {e = unknown_object server_url code} (verdict ∙ rw (a, f, u) refl)
                  (record {
                    version = version;
                    https = https;
                    highest = best;
                    error = e;
                    answer = a;
                    why = inr (λ n. cc);
                  })
            | inl n ↦
                Attempted.failed_over {e = failed server_url e} (verdict ∙ rw (a, f, n) refl)
                  (FailedOver.unavailable version e best a f n)
          ]
        ]
      ]

  attempted : (ep : WellKnownEndpoint P) → Attempted ep
  unfolding try_endpoint
  attempted ep =
      let best = highest_mutual_version-IsHighest supported_versions ep.versions in
      elim (Bool-cases (is_https (parse_scheme ep.url))) [
        | inr f ↦
            Attempted.failed_over {e = not_https ep.url} (rw (try_endpoint, f) refl)
              (FailedOver.insecure f)
        | inl t ↦ elim (Option-cases (highest_mutual_version supported_versions ep.versions)) [
          | inl n ↦
              Attempted.failed_over {e = no_mutual_version ep.url} (rw (try_endpoint, t, n) refl)
                (FailedOver.no_version (subst (IsHighest supported_versions ep.versions) n best))
          | inr (version, v) ↦
              reached-Attempted ep version t
                (subst (IsHighest supported_versions ep.versions) v best)
                (rw (try_endpoint, t, v) refl)
        ]
      ]

  -- How the endpoints, in the order tried, come to a result. Those after the one that ends the search
  -- are of no account.
  pub data Outcome
      : List (WellKnownEndpoint P) → Result BootstrapError BootstrapDiscoverResult → Type 0 where
    by_answer :
        (before : List (WellKnownEndpoint P)) (ep : WellKnownEndpoint P)
        (after : List (WellKnownEndpoint P)) (r : BootstrapDiscoverResult)
        → All FailedOver before
        → Answered ep r
        → Outcome (before ++ ep ∷ after) (ok r)
    by_refusal :
        (before : List (WellKnownEndpoint P)) (ep : WellKnownEndpoint P)
        (after : List (WellKnownEndpoint P)) (e : BootstrapError)
        → All FailedOver before
        → Refused ep
        → Outcome (before ++ ep ∷ after) (err e)
    exhausted :
        (endpoints : List (WellKnownEndpoint P)) (errs : List EndpointError)
        → All FailedOver endpoints
        → Outcome endpoints (err (all_failed errs))

  one_more :
      (ep : WellKnownEndpoint P) {endpoints : List (WellKnownEndpoint P)}
      {r : Result BootstrapError BootstrapDiscoverResult}
      → FailedOver ep
      → Outcome endpoints r
      → Outcome (ep ∷ endpoints) r
  one_more ep f (Outcome.by_answer before x after r h a) =
      Outcome.by_answer (ep ∷ before) x after r (f, h) a
  one_more ep f (Outcome.by_refusal before x after e h a) =
      Outcome.by_refusal (ep ∷ before) x after e (f, h) a
  one_more ep f (Outcome.exhausted endpoints errs h) =
      Outcome.exhausted (ep ∷ endpoints) errs (f, h)

  try_endpoints-Outcome :
      (endpoints : List (WellKnownEndpoint P)) (errs : List EndpointError)
      → Outcome endpoints (try_endpoints parse_scheme answers done endpoints errs)
  unfolding try_endpoints
  try_endpoints-Outcome [] errs = Outcome.exhausted [] errs tt
  try_endpoints-Outcome (ep ∷ endpoints) errs = elim (attempted ep) [
    | Attempted.failed_over {e} h f ↦
        rw (try_endpoints, h) (one_more ep f (try_endpoints-Outcome endpoints (errs ++ e ∷ [])))
    | Attempted.refused {e} h why ↦
        rw (try_endpoints, h) (Outcome.by_refusal [] ep endpoints e tt why)
    | Attempted.answered {r} h a ↦ rw (try_endpoints, h) (Outcome.by_answer [] ep endpoints r tt a)
  ]

  module _ (compare_priority : P → P → Ordering) (one : P) where
    -- The search ends at the first endpoint, in the order of priority, that answers or refuses: an
    -- answer is taken only from an https endpoint at the highest version that both have, a 401, a 403 or
    -- a TEA 404 is final, and every endpoint before was passed over or failed in another way.
    pub bootstrap_discover-Outcome :
        (endpoints : List (WellKnownEndpoint P))
        → Outcome
            (sort_endpoints_by_priority compare_priority one endpoints)
            (bootstrap_discover parse_scheme answers done compare_priority one endpoints)
    unfolding bootstrap_discover
    bootstrap_discover-Outcome endpoints =
        try_endpoints-Outcome (sort_endpoints_by_priority compare_priority one endpoints) []
