-- ===== src/Limits/Policy.antt =====
-- Which rate policy a request falls under (api-worker/src/storeDO.ts, isApiPath,
-- getSecurityRateBlockMs and getSecurityRatePolicy).
use instant_grant_core.Prelude.{
  ℕ, ◌*◌, ◌-◌, ◌≤◌, max, ◌≡◌, Bool, true, false, ◌||◌, ◌&&◌, not, ◌==◌, Option, none, some, [], ◌∷◌,
  map, Text, codes, text_eq, starts_with, drop, length, leb, if◌then◌else◌, arith,
}
use instant_grant_core.Limits.Env.{parse_bounded_int, parse_bounded_int-bounds}

pub record SecurityRatePolicy : Type 0 where
  pub key : Text
  pub window_ms : ℕ
  pub max_requests : ℕ
  pub block_ms : ℕ

-- The variables that the policies read.
pub record RateEnv : Type 0 where
  pub block_seconds : Option Text
  pub read_per_minute : Option Text
  pub mutation_per_minute : Option Text
  pub auth_per_10_minutes : Option Text
  pub admin_login_per_10_minutes : Option Text
  pub verify_per_minute : Option Text
  pub global_per_minute : Option Text

abbrev minute : ℕ
minute = 60 * 1000

unfoldable pub is_api_path : Text → Bool
is_api_path path = starts_with (codes "/api/") path || starts_with (codes "/v1/school/") path

-- `toUpperCase` on the letters of ASCII, of which methods are made.
abbrev pub upper : ℕ → ℕ
upper c = if leb b'a' c && leb c b'z' then c - 32 else c

unfoldable pub get_security_rate_block_ms : RateEnv → ℕ
get_security_rate_block_ms env = parse_bounded_int env.block_seconds 120 10 3600 * 1000

-- The text up to the next slash is not empty, and `/claim` is what follows it.
abbrev is_claim_tail : Bool → Text → Bool
is_claim_tail some_read [] = false
is_claim_tail some_read (c ∷ s) =
    if c == b'/' then some_read && text_eq s (codes "claim") else is_claim_tail true s

-- `/^\/api\/events\/[^/]+\/claim$/`
unfoldable pub is_claim_path : Text → Bool
is_claim_path path =
    starts_with (codes "/api/events/") path
    && is_claim_tail false (drop (length (codes "/api/events/")) path)

unfoldable pub is_user_auth_path : Text → Bool
is_user_auth_path path =
    text_eq path (codes "/api/auth/verify")
    || text_eq path (codes "/api/users/tickets/sync")
    || text_eq path (codes "/api/users/register")
    || is_claim_path path

unfoldable pub is_receipt_path : Text → Bool
is_receipt_path path =
    text_eq path (codes "/api/audit/receipts/verify")
    || text_eq path (codes "/api/audit/receipts/verify-code")

unfoldable pub is_login_path : Text → Bool
is_login_path path = text_eq path (codes "/api/admin/login")

-- The method in upper case.
unfoldable pub is_mutating_method : Text → Bool
is_mutating_method m =
    text_eq m (codes "POST")
    || text_eq m (codes "PUT")
    || text_eq m (codes "PATCH")
    || text_eq m (codes "DELETE")

-- The requests that no limit is put on.
unfoldable pub is_exempt : Text → Text → Bool
is_exempt path method =
    text_eq (map upper method) (codes "OPTIONS")
    || not (is_api_path path)
    || starts_with (codes "/metadata/") path

-- The class of a request that is limited.
pub data Bucket : Type 0 where
  admin_login user_auth receipt_verify mutating read : Bucket

unfoldable pub bucket_of : Text → Text → Bucket
bucket_of path method =
    if is_login_path path
    then admin_login
    else (if is_user_auth_path path
        then user_auth
        else (if is_receipt_path path
            then receipt_verify
            else (if is_mutating_method (map upper method) then mutating else read)))

unfoldable pub bucket_policy : RateEnv → Bucket → SecurityRatePolicy
bucket_policy env admin_login = record {
  key = codes "admin_login";
  window_ms = 10 * minute;
  max_requests = parse_bounded_int env.admin_login_per_10_minutes 20 3 500;
  block_ms = max (get_security_rate_block_ms env) (5 * minute);
}
bucket_policy env user_auth = record {
  key = codes "user_auth";
  window_ms = 10 * minute;
  max_requests = parse_bounded_int env.auth_per_10_minutes 60 5 3000;
  block_ms = max (get_security_rate_block_ms env) (5 * minute);
}
bucket_policy env receipt_verify = record {
  key = codes "receipt_verify";
  window_ms = minute;
  max_requests = parse_bounded_int env.verify_per_minute 120 10 5000;
  block_ms = get_security_rate_block_ms env;
}
bucket_policy env mutating = record {
  key = codes "mutating";
  window_ms = minute;
  max_requests = parse_bounded_int env.mutation_per_minute 120 10 3000;
  block_ms = get_security_rate_block_ms env;
}
bucket_policy env read = record {
  key = codes "read";
  window_ms = minute;
  max_requests = parse_bounded_int env.read_per_minute 300 30 5000;
  block_ms = get_security_rate_block_ms env;
}

unfoldable pub get_security_rate_policy : RateEnv → Text → Text → Option SecurityRatePolicy
get_security_rate_policy env path method =
    if is_exempt path method then none else some (bucket_policy env (bucket_of path method))

-- The bounds of a policy: 3 to 5000 requests in one or ten minutes, and a block of 10 seconds to an
-- hour.
pub record IsBounded (p : SecurityRatePolicy) : Type 0 where
  pub some_requests : 3 ≤ p.max_requests
  pub few_requests : p.max_requests ≤ 5000
  pub short_window : 60000 ≤ p.window_ms
  pub long_window : p.window_ms ≤ 600000
  pub short_block : 10000 ≤ p.block_ms
  pub long_block : p.block_ms ≤ 3600000

bucket_policy-IsBounded : (env : RateEnv) (b : Bucket) → IsBounded (bucket_policy env b)
unfolding bucket_policy get_security_rate_block_ms
bucket_policy-IsBounded env admin_login = omega (
  arith,
  parse_bounded_int-bounds env.admin_login_per_10_minutes 20 3 500 (omega arith) (omega arith),
  parse_bounded_int-bounds env.block_seconds 120 10 3600 (omega arith) (omega arith),
)
bucket_policy-IsBounded env user_auth = omega (
  arith,
  parse_bounded_int-bounds env.auth_per_10_minutes 60 5 3000 (omega arith) (omega arith),
  parse_bounded_int-bounds env.block_seconds 120 10 3600 (omega arith) (omega arith),
)
bucket_policy-IsBounded env receipt_verify = omega (
  arith,
  parse_bounded_int-bounds env.verify_per_minute 120 10 5000 (omega arith) (omega arith),
  parse_bounded_int-bounds env.block_seconds 120 10 3600 (omega arith) (omega arith),
)
bucket_policy-IsBounded env mutating = omega (
  arith,
  parse_bounded_int-bounds env.mutation_per_minute 120 10 3000 (omega arith) (omega arith),
  parse_bounded_int-bounds env.block_seconds 120 10 3600 (omega arith) (omega arith),
)
bucket_policy-IsBounded env read = omega (
  arith,
  parse_bounded_int-bounds env.read_per_minute 300 30 5000 (omega arith) (omega arith),
  parse_bounded_int-bounds env.block_seconds 120 10 3600 (omega arith) (omega arith),
)

-- Whatever the environment holds and whatever is asked for, a request that is limited at all is
-- limited within the bounds.
pub get_security_rate_policy-IsBounded :
    (env : RateEnv) (path method : Text) (p : SecurityRatePolicy)
    → get_security_rate_policy env path method ≡ some p
    → IsBounded p
unfolding get_security_rate_policy
get_security_rate_policy-IsBounded env path method p h =
    let same : bucket_policy env (bucket_of path method) ≡ p = ground arith in
    rw (← same) (bucket_policy-IsBounded env (bucket_of path method))
