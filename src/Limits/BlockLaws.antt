-- ===== src/Limits/BlockLaws.antt =====
-- How long a block of the request limiter lasts and what the client is told of it.
use instant_grant_core.Prelude.{
  ℕ, zero, suc, ◌+◌, ◌-◌, ◌*◌, ◌^◌, ◌≤◌, ◌<◌, min, ◌≡◌, true, Option, some, ltb, arith,
}
use native.Mathlib.Nat.{pow-suc}
use instant_grant_core.Limits.Policy.{SecurityRatePolicy}
use instant_grant_core.Limits.Rate.{
  SecurityRateState, next_violations, block_for, count_request, consume_security_rate_state,
}

pow_pos : (v : ℕ) → 0 < 2 ^ v
pow_pos zero = omega arith
pow_pos (suc v) = rw pow-suc (omega (arith, pow_pos v))

scaled_bounds : (b m : ℕ) → 1 ≤ m → m ≤ 16 → (b ≤ b * m) × (b * m ≤ 16 * b)
scaled_bounds b m h k = grind arith

block_for-bounds :
    (policy : SecurityRatePolicy) (v : ℕ)
    → (policy.block_ms ≤ block_for policy v) × (block_for policy v ≤ 16 * policy.block_ms)
block_for-bounds policy v =
    scaled_bounds policy.block_ms (min (2 ^ (v - 1)) 16) (omega (arith, pow_pos (v - 1)))
      (omega arith)

refused-while_blocked :
    (s : SecurityRateState) (t : ℕ) (policy : SecurityRatePolicy)
    → t < s.blocked_until_ms
    → ((consume_security_rate_state (some s) t policy).limited ≡ true)
      × ((consume_security_rate_state (some s) t policy).stored ≡ some s)
unfolding consume_security_rate_state
refused-while_blocked s t policy h = ground arith

-- A request over the budget starts a block of between one and sixteen times the policy's length, and
-- at most twelve violations are remembered. At any time before the block's end a request is refused
-- and leaves the state as it is.
pub count_request-block :
    (s s' : SecurityRateState) (now t : ℕ) (policy : SecurityRatePolicy)
    → policy.max_requests ≤ s.count
    → (count_request s now policy).stored ≡ some s'
    → t < s'.blocked_until_ms
    → (now + policy.block_ms ≤ s'.blocked_until_ms)
      × (s'.blocked_until_ms ≤ now + 16 * policy.block_ms)
      × (s'.violations ≤ 12)
      × ((consume_security_rate_state (some s') t policy).limited ≡ true)
      × ((consume_security_rate_state (some s') t policy).stored ≡ some s')
unfolding count_request
count_request-block s s' now t policy full stored during =
    let over : ltb policy.max_requests (s.count + 1) ≡ true = ground arith in
    let bounds = block_for-bounds policy (next_violations s.violations) in
    let until : s'.blocked_until_ms ≡ now + block_for policy (next_violations s.violations) =
      ground arith in
    let known : s'.violations ≡ next_violations s.violations = ground arith in
    (
      rw until (omega (arith, bounds)),
      rw until (omega (arith, bounds)),
      rw known (omega arith),
      (refused-while_blocked s' t policy during).0,
      (refused-while_blocked s' t policy during).1,
    )

-- A refusal tells how long to wait: after that many seconds no block is left.
pub retry_after-suffices :
    (parsed : Option SecurityRateState) (now : ℕ) (policy : SecurityRatePolicy)
    (s : SecurityRateState)
    → (consume_security_rate_state parsed now policy).limited ≡ true
    → (consume_security_rate_state parsed now policy).stored ≡ some s
    → s.blocked_until_ms
      ≤ now + (consume_security_rate_state parsed now policy).retry_after_sec * 1000
unfolding consume_security_rate_state count_request
retry_after-suffices parsed now policy s limited stored = ground arith
