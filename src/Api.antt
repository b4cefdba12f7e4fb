-- ===== src/Api.antt =====
-- What the read handlers of internal/api share: the decision on a request and the answer to a denied one
-- (authz.go), and the ETag, the Cache-Control and the conditional request (cachepolicy.go,
-- internal/httpx/etag.go).
pub mod Numbers
use opentea.Prelude.{
  ℕ, String, Bool, true, false, not, ◌&&◌, ◌||◌, List, [], ◌∷◌, ◌++◌, any, eqb, if◌then◌else◌,
  Result, ok, err, ◌>>=◌,
}
use opentea.SemVer.{Bytes, bytes, bytes_equal, split}
use opentea.Texts.{trim_space}
use opentea.Authz.{Principal, is_authenticated, Resource, Capability, Store, Decision, decide}
use opentea.Api.Numbers.{itoa}

-- What the handlers read of an `http.Request`; an absent text is empty.
pub record Request : Type 0 where
  pub principal : Principal
  pub invalid_bearer : Bool
  pub is_head : Bool
  pub media_type : Bytes
  pub accept : Bytes
  pub if_none_match : List Bytes

-- The answers without a body of the artifact: 404 with OBJECT_UNKNOWN or SIGNATURE_NOT_FOUND, 406, 401
-- with `invalid_token` or without, and 500.
pub data Failure : Type 0 where
  not_found signature_not_found not_acceptable : Failure
  unauthorized invalid_token internal_error : Failure

unfoldable pub write_authz_denial : Request → Failure
unfolding is_authenticated
write_authz_denial r =
    if not (is_authenticated r.principal)
    then if r.invalid_bearer then Failure.invalid_token else Failure.unauthorized
    else Failure.not_found

abbrev pub authorized : Request → Decision → Result Failure (Unit {0})
unfolding write_authz_denial
authorized r decision = if not decision.allowed then err (write_authz_denial r) else ok tt

unfoldable pub authorize {ℓ} :
    {E : Type ℓ} → Store E → Request → Capability → Resource → Result Failure (Unit {0})
unfolding decide write_authz_denial
authorize store r capability resource = elim (decide store r.principal capability resource) [
  | err e ↦ err Failure.internal_error
  | ok decision ↦ authorized r decision
]

-- `strings.Join` at `:`
abbrev join : List Bytes → Bytes
join [] = []
join (part ∷ []) = part
join (part ∷ next ∷ parts) = part ++ b':' ∷ join (next ∷ parts)

unfoldable pub build_etag : List Bytes → Bytes
build_etag parts = b'"' ∷ join parts ++ b'"' ∷ []

-- `strings.TrimPrefix` with `W/`
abbrev trim_weak : Bytes → Bytes
trim_weak (c ∷ d ∷ s) = if eqb c b'W' && eqb d b'/' then s else c ∷ d ∷ s
trim_weak s = s

abbrev validates : Bytes → Bytes → Bool
validates want raw =
    let v = trim_space raw in bytes_equal v (bytes "*") || bytes_equal (trim_weak v) want

unfoldable pub matches_if_none_match : List Bytes → Bytes → Bool
matches_if_none_match lines current =
    any (λ line. any (validates (trim_weak current)) (split b',' line)) lines

abbrev pub cache_control_revalidate : Bytes
cache_control_revalidate = bytes "public, max-age=60, stale-while-revalidate=300"

abbrev pub cache_control_latest : Bytes
cache_control_latest = bytes "public, no-cache"

-- What follows a prefix that is there, by a continuation.
abbrev after_prefix : Bytes → Bytes → (Bytes → Bytes) → Bytes → Bytes
after_prefix [] s found absent = found s
after_prefix (p ∷ ps) [] found absent = absent
after_prefix (p ∷ ps) (c ∷ s) found absent =
    let rest = after_prefix ps s found absent in if eqb p c then rest else absent

-- `strings.Replace(s, old, new, 1)`
abbrev replace_first : Bytes → Bytes → Bytes → Bytes
replace_first old new [] = []
replace_first old new (c ∷ s) =
    let rest = replace_first old new s in after_prefix old (c ∷ s) (λ tail. new ++ tail) (c ∷ rest)

unfoldable pub cache_control_for : Request → Bytes → Bytes
unfolding is_authenticated
cache_control_for r base =
    if not (is_authenticated r.principal)
    then base
    else replace_first (bytes "public") (bytes "private") base

-- `watermark` is `Repo.GetPrincipalEntitlementWatermark`.
unfoldable pub authz_cache_suffix {ℓ} :
    {E : Type ℓ} → (String → Result E ℕ) → Request → Result E Bytes
unfolding is_authenticated
authz_cache_suffix watermark r =
    if not (is_authenticated r.principal)
    then ok (bytes "anon")
    else watermark r.principal.user_uuid >>= λ w.
        ok (bytes "u:" ++ bytes r.principal.user_uuid ++ b':' ∷ itoa w)

-- The two headers that `WriteConditional` sets.
pub record Validators : Type 0 where
  pub etag : Bytes
  pub cache_control : Bytes

-- What `conditional` did: the answer 304, the answer 500, or the headers alone.
pub data Conditional : Type 0 where
  not_modified continued : Validators → Conditional
  failed : Conditional

abbrev write_conditional : Request → Validators → Conditional
unfolding matches_if_none_match
write_conditional r v =
    if matches_if_none_match r.if_none_match v.etag
    then Conditional.not_modified v
    else Conditional.continued v

unfoldable pub conditional {ℓ} :
    {E : Type ℓ} → (String → Result E ℕ) → Request → Bytes → List Bytes → Conditional
unfolding authz_cache_suffix build_etag cache_control_for matches_if_none_match
conditional watermark r base parts = elim (authz_cache_suffix watermark r) [
  | err e ↦ Conditional.failed
  | ok suffix ↦ write_conditional r (record {
    etag = build_etag (parts ++ suffix ∷ []);
    cache_control = cache_control_for r base;
  })
]
