-- ===== src/Middleware.antt =====
-- The rate limit of app/middleware/security.py, with the in-memory store that stands in where Redis
-- is absent. A reading of `time.time()` is a number of some unit; a header's text and a client's
-- address are numbers, and SHA-256 is a parameter.
pub mod Buckets
pub mod Windows
pub mod Release
use scales_infrastructure.Prelude.{
  ℕ, ◌-◌, ◌%◌, Bool, true, false, ◌&&◌, ◌||◌, Option, none, some, List, [], ◌∷◌, ◌++◌, ◌==◌, ltb,
  leb, is_some, length, if◌then◌else◌,
}

-- app/core/config.py
pub record Settings : Type 0 where
  pub rate_limit_requests : ℕ
  pub rate_limit_read_requests : ℕ
  pub rate_limit_unauthed_requests : ℕ
  pub rate_limit_window : ℕ

-- What the tests on `request.url.path` find.
pub record PathTests : Type 0 where
  pub starts_with_kj_sync : Bool
  pub starts_with_v1_kj_sync : Bool
  pub is_docs : Bool
  pub ends_with_health : Bool
  pub is_onboarding_me : Bool
  pub is_auth_me : Bool
  pub starts_with_v1_venues : Bool
  pub has_singers_me : Bool

-- `authorization` is the token of a header that starts with "bearer ".
pub record Request : Type 0 where
  pub authorization : Option ℕ
  pub x_api_key : Option ℕ
  pub client_ip : ℕ
  pub path : PathTests
  pub is_read : Bool

pub data Identity : Type 0 where
  user apikey ip : ℕ → Identity

-- `_get_identity`
pub get_identity : (ℕ → ℕ) → Request → Identity
get_identity sha256 r = elim r.authorization [
  | some token ↦ user (sha256 token)
  | none ↦ elim r.x_api_key [ some key ↦ apikey (sha256 key) | none ↦ ip r.client_ip ]
]

-- `f"{identity}:{rate_limit_key_suffix}"`, where `reads` is the suffix `read`.
pub record Key : Type 0 where
  pub identity : Identity
  pub reads : Bool

abbrev same_identity : Identity → Identity → Bool
same_identity (user a) (user b) = a == b
same_identity (apikey a) (apikey b) = a == b
same_identity (ip a) (ip b) = a == b
same_identity _ _ = false

abbrev same_flag : Bool → Bool → Bool
same_flag true b = b
same_flag false true = false
same_flag false false = true

unfoldable pub same_key : Key → Key → Bool
same_key k j = same_identity k.identity j.identity && same_flag k.reads j.reads

-- `_buckets`, a dict whose missing keys are empty lists
abbrev pub Buckets : Type 0
Buckets = List (Key × List ℕ)

unfoldable pub bucket_at : Key → Buckets → List ℕ
bucket_at k [] = []
bucket_at k ((j, b) ∷ bs) = if same_key j k then b else bucket_at k bs

unfoldable pub set_bucket : Key → List ℕ → Buckets → Buckets
set_bucket k b [] = (k, b) ∷ []
set_bucket k b ((j, c) ∷ bs) =
    let rest = set_bucket k b bs in if same_key j k then (j, b) ∷ bs else (j, c) ∷ rest

-- `while bucket and bucket[0] < cutoff: bucket.pop(0)`
unfoldable pub purge : ℕ → List ℕ → List ℕ
purge cutoff [] = []
purge cutoff (t ∷ ts) = let rest = purge cutoff ts in if ltb t cutoff then rest else t ∷ ts

-- `limit` of `_is_rate_limited`
unfoldable pub limit_for : Settings → Bool → Bool → ℕ
limit_for cfg is_authenticated is_read =
    if is_authenticated && is_read
    then cfg.rate_limit_read_requests
    else if is_authenticated
    then cfg.rate_limit_requests
    else cfg.rate_limit_unauthed_requests

-- `int(window - (now % window)) or window`; for a window of 0 the source divides by zero.
abbrev pub retry_after : ℕ → ℕ → ℕ
retry_after window now = let n = window - now % window in if n == 0 then window else n

-- `(True, retry_after)` is `limited`.
pub data Verdict : Type 0 where
  limited : ℕ → Verdict
  admitted : Verdict

-- What `len(bucket) >= limit` decides.
abbrev pub settle : ℕ → ℕ → Key → List ℕ → Buckets → Bool → Verdict × Buckets
settle window now key bucket bs true = (limited (retry_after window now), set_bucket key bucket bs)
settle window now key bucket bs false = (admitted, set_bucket key (bucket ++ now ∷ []) bs)

-- `_is_rate_limited`, without Redis. A time before the first window has a cutoff below every
-- time, as has 0.
unfoldable pub is_rate_limited : Settings → ℕ → Key → ℕ → Buckets → Verdict × Buckets
is_rate_limited cfg limit key now bs =
    let bucket = purge (now - cfg.rate_limit_window) (bucket_at key bs) in
    settle cfg.rate_limit_window now key bucket bs (leb limit (length bucket))

-- The paths that `RateLimitMiddleware.dispatch` lets through.
unfoldable pub is_exempt : PathTests → Bool
is_exempt p =
    p.starts_with_kj_sync
    || p.starts_with_v1_kj_sync
    || p.is_docs
    || p.ends_with_health
    || p.is_onboarding_me
    || p.is_auth_me
    || (p.starts_with_v1_venues && p.has_singers_me)

abbrev is_authenticated : Request → Bool
is_authenticated r = is_some r.authorization || is_some r.x_api_key

-- The key of the bucket that `dispatch` charges.
unfoldable pub key_of : (ℕ → ℕ) → Request → Key
unfolding get_identity
key_of sha256 r = record {
  identity = get_identity sha256 r;
  reads = is_authenticated r && r.is_read;
}

unfoldable pub request_limit : Settings → Request → ℕ
unfolding limit_for
request_limit cfg r = limit_for cfg (is_authenticated r) r.is_read

-- `RateLimitMiddleware.dispatch`: whether the request is answered, and by what.
unfoldable pub dispatch : Settings → (ℕ → ℕ) → ℕ → Request → Buckets → Verdict × Buckets
unfolding is_rate_limited request_limit
dispatch cfg sha256 now r bs =
    if is_exempt r.path
    then (admitted, bs)
    else is_rate_limited cfg (request_limit cfg r) (key_of sha256 r) now bs
