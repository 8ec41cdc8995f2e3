-- ===== src/Limits/Rate.antt =====
-- The request limiter (api-worker/src/storeDO.ts, SecurityRateState, consumeSecurityRateState and
-- enforceSecurityRateLimit). A stored state that the program cannot read counts as none; the hash of
-- a client's address is an argument.
use instant_grant_core.Prelude.{
  ℕ, ◌+◌, ◌-◌, ◌*◌, ◌/◌, ◌^◌, min, max, Bool, true, false, ◌||◌, Option, none, some, ◌++◌, Text,
  codes, text_eq, ltb, leb, if◌then◌else◌,
}
use instant_grant_core.Limits.Env.{parse_bounded_int, parse_boolean_env}
use instant_grant_core.Limits.Policy.{SecurityRatePolicy, RateEnv, get_security_rate_policy}

pub record SecurityRateState : Type 0 where
  pub window_start_ms : ℕ
  pub count : ℕ
  pub blocked_until_ms : ℕ
  pub violations : ℕ
  pub last_seen_ms : ℕ

-- What a request leaves in storage, and whether and for how long it is refused.
pub record RateResult : Type 0 where
  pub stored : Option SecurityRateState
  pub limited : Bool
  pub retry_after_sec : ℕ

-- `Math.ceil(ms / 1000)`
abbrev pub ceil_seconds : ℕ → ℕ
ceil_seconds ms = (ms + 999) / 1000

abbrev pub state_or_new : ℕ → Option SecurityRateState → SecurityRateState
state_or_new now none = record {
  window_start_ms = now;
  count = 0;
  blocked_until_ms = 0;
  violations = 0;
  last_seen_ms = now;
}
state_or_new now (some s) = s

-- The window is over, or starts in the future.
abbrev pub is_stale : ℕ → ℕ → ℕ → Bool
is_stale now start window = ltb now start || leb window (now - start)

abbrev pub next_violations : ℕ → ℕ
next_violations v = min (v + 1) 12

-- `policy.blockMs * Math.min(2 ** (violations - 1), 16)`
abbrev pub block_for : SecurityRatePolicy → ℕ → ℕ
block_for policy violations = policy.block_ms * min (2 ^ (violations - 1)) 16

-- The request is counted in the state of its window.
unfoldable pub count_request : SecurityRateState → ℕ → SecurityRatePolicy → RateResult
count_request state now policy =
    if ltb policy.max_requests (state.count + 1)
    then record {
      stored = some (record {
        window_start_ms = state.window_start_ms;
        count = state.count + 1;
        blocked_until_ms = now + block_for policy (next_violations state.violations);
        violations = next_violations state.violations;
        last_seen_ms = now;
      });
      limited = true;
      retry_after_sec = max 1 (ceil_seconds (block_for policy (next_violations state.violations)));
    }
    else record {
      stored = some (record state { count = state.count + 1; last_seen_ms = now });
      limited = false;
      retry_after_sec = 0;
    }

unfoldable pub consume_security_rate_state :
    Option SecurityRateState → ℕ → SecurityRatePolicy → RateResult
consume_security_rate_state parsed now policy =
    let state = state_or_new now parsed in
    if ltb now state.blocked_until_ms
    then record {
      stored = parsed;
      limited = true;
      retry_after_sec = max 1 (ceil_seconds (state.blocked_until_ms - now));
    }
    else (if is_stale now state.window_start_ms policy.window_ms
        then count_request (record state { window_start_ms = now; count = 0 }) now policy
        else count_request state now policy)

-- The states by their storage keys.
abbrev pub RateStore : Type 0
RateStore = Text → Option SecurityRateState

abbrev put_state : RateStore → Text → Option SecurityRateState → RateStore
put_state store key s j = if text_eq key j then s else store j

pub record Refusal : Type 0 where
  pub bucket : Text
  pub retry_after_sec : ℕ

abbrev pub client_key : (Text → Text) → SecurityRatePolicy → Text → Text
client_key hash policy ip =
    codes "security_rate_limit:"
    ++ (policy.key ++ (codes ":client:" ++ hash (codes "client:" ++ ip)))

abbrev pub global_policy : RateEnv → SecurityRatePolicy → SecurityRatePolicy
global_policy env policy = record {
  key = policy.key ++ codes "_global";
  window_ms = 60 * 1000;
  max_requests = parse_bounded_int env.global_per_minute 2000 100 50000;
  block_ms = policy.block_ms;
}

abbrev pub global_key : RateEnv → SecurityRatePolicy → Text
global_key env policy = codes "security_rate_limit:" ++ (global_policy env policy).key

abbrev refusal_of : SecurityRatePolicy → RateResult → Option Refusal
refusal_of policy r =
    if r.limited
    then some (record { bucket = policy.key; retry_after_sec = r.retry_after_sec })
    else none

-- The client's budget first, then the budget that all clients share.
unfoldable pub enforce_for :
    (Text → Text) → RateEnv → RateStore → SecurityRatePolicy → Text → ℕ → RateStore × Option Refusal
enforce_for hash env store policy ip now =
    let key = client_key hash policy ip in
    let client = consume_security_rate_state (store key) now policy in
    let store' = put_state store key client.stored in
    if client.limited
    then (store', refusal_of policy client)
    else (let shared =
          consume_security_rate_state (store' (global_key env policy)) now
            (global_policy env policy) in
        (
          put_state store' (global_key env policy) shared.stored,
          refusal_of (global_policy env policy) shared,
        ))

abbrev enforce_with :
    (Text → Text)
    → RateEnv
    → RateStore
    → Option SecurityRatePolicy
    → Text
    → ℕ
    → RateStore × Option Refusal
enforce_with hash env store none ip now = (store, none)
enforce_with hash env store (some policy) ip now = enforce_for hash env store policy ip now

unfoldable pub enforce_security_rate_limit :
    (Text → Text)
    → Option Text
    → RateEnv
    → RateStore
    → Text
    → Text
    → Text
    → ℕ
    → RateStore × Option Refusal
enforce_security_rate_limit hash enabled env store path method ip now =
    if parse_boolean_env enabled true
    then enforce_with hash env store (get_security_rate_policy env path method) ip now
    else (store, none)
