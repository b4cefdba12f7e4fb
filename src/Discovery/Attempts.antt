-- ===== src/Discovery/Attempts.antt =====
-- pkg/teaclient: the errors of a request (errors.go), when it is made again (`retryWithBackoff`,
-- wellknown.go), and which answer counts (discovery.go).

use opentea.Prelude.{
  ℕ, zero, suc, ◌+◌, String, Bool, true, false, not, Option, none, some, List, [], ◌∷◌, eqb, leb,
  ◌==◌, if◌then◌else◌, length, Result, ok, err,
}

-- `APIError`. `media_type` is what `mime.ParseMediaType` makes of the Content-Type, and `error` the
-- property of that name where the body is JSON.
pub record ApiError : Type 0 where
  pub status_code : ℕ
  pub media_type : Option String
  pub error : Option String

-- The errors that the client tells apart; `content` is every other one.
pub data ClientError : Type 0 where
  api : ApiError → ClientError
  redirect certificate transport content cancelled : ClientError

abbrev pub has_status : ClientError → ℕ → Bool
has_status (api e) status = eqb e.status_code status
has_status _ status = false

abbrev pub is_not_found : ClientError → Bool
is_not_found e = has_status e 404

abbrev pub is_unauthorized : ClientError → Bool
is_unauthorized e = has_status e 401

abbrev pub is_forbidden : ClientError → Bool
is_forbidden e = has_status e 403

abbrev pub error_property : Option String → Option String
error_property none = none
error_property (some code) = if code == "" then none else some code

abbrev pub is_json : Option String → Bool
is_json none = false
is_json (some media_type) = media_type == "application/json"

-- `TEAErrorCode`. The media type is in lower case, so that `EqualFold` is equality.
unfoldable pub tea_error_code : ClientError → Option String
tea_error_code (api e) = if is_json e.media_type then error_property e.error else none
tea_error_code _ = none

-- `isRetryableError`
unfoldable pub is_retryable_error : ClientError → Bool
is_retryable_error certificate = false
is_retryable_error redirect = false
is_retryable_error (api e) = leb 500 e.status_code
is_retryable_error transport = true
is_retryable_error content = false
is_retryable_error cancelled = false

-- `retryBackoffDelays`, in milliseconds.
abbrev pub retry_backoff_delays : List ℕ
retry_backoff_delays = 200 ∷ 400 ∷ 800 ∷ []

-- Why the loop ends before the next call, if it does: `done` says of each wait whether the context
-- ends in it. At the first call there is no last error.
abbrev pub before_attempt :
    (ClientError → Bool) → (ℕ → Bool) → ℕ → Option ClientError → Option ClientError
before_attempt should_retry done attempt none = none
before_attempt should_retry done attempt (some last_err) =
    if not (should_retry last_err)
    then some last_err
    else if done attempt
    then some cancelled
    else none

module _ {ℓ} {T : Type ℓ} (should_retry : ClientError → Bool) (done : ℕ → Bool)
    (fn : ℕ → Result ClientError T) where
  -- `retryWithBackoff`, the rounds from one attempt; `none` is fuel that ran out.
  unfoldable pub retry_rounds : ℕ → ℕ → Option ClientError → Option (Result ClientError T)
  retry_rounds zero attempt last_err = none
  retry_rounds (suc fuel) attempt last_err =
      elim (before_attempt should_retry done attempt last_err) [
        | some stop ↦ some (err stop)
        | none ↦ elim (fn attempt) [
          | ok result ↦ some (ok result)
          | err e ↦
              let rest = retry_rounds fuel (attempt + 1) (some e) in
              if leb (length retry_backoff_delays) attempt then some (err e) else rest
        ]
      ]

abbrev pub or_cancelled {ℓ} : {T : Type ℓ} → Option (Result ClientError T) → Result ClientError T
or_cancelled none = err cancelled
or_cancelled (some r) = r

-- Four rounds are enough: see Retry.
unfoldable pub retry_with_backoff {ℓ} :
    {T : Type ℓ}
    → (ClientError → Bool)
    → (ℕ → Bool)
    → (ℕ → Result ClientError T)
    → Result ClientError T
unfolding retry_rounds
retry_with_backoff should_retry done fn = or_cancelled (retry_rounds should_retry done fn 4 0 none)

-- `tea.DiscoveryInfo`; `servers` stands for the servers, which the client only passes on.
pub record DiscoveryInfo : Type 0 where
  pub product_release_uuid : String
  pub servers : String

-- `discover`: an empty array is no answer.
unfoldable pub discover :
    Result ClientError (List DiscoveryInfo) → Result ClientError (List DiscoveryInfo)
discover (err e) = err e
discover (ok []) = err content
discover (ok (i ∷ info)) = ok (i ∷ info)
