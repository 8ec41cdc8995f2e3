-- ===== src/Claim/Beyond.antt =====
-- Limits that the stored history cannot carry.
use instant_grant_core.Prelude.{ℕ, ◌-◌, ◌≤◌, ◌<◌, ◌≡◌, true, Option, Text, arith}
use instant_grant_core.Claim.State.{ClaimState, sort_by_at}
use instant_grant_core.Claim.Quota.{window_ms, in_window, quota_of}
use instant_grant_core.Claim.Store.{push_claim}
use instant_grant_core.Claim.Availability.{count_from-le-length, limited_policy}
use instant_grant_core.Claim.WellFormed.{length-trim_history}
use instant_grant_core.Prelude.{length, ◌++◌, ◌∷◌, []}

pub length-push_claim :
    (state : ClaimState) (now : ℕ) (code : Option Text)
    → length (push_claim state now code).history ≤ 500
unfolding push_claim
length-push_claim state now code = omega (
  arith,
  length-trim_history (sort_by_at (state.history ++ record { at = now; code = code } ∷ [])),
)

-- A policy of more than 500 claims an interval never refuses: after any claim, at any time, the next
-- one is allowed, however many were made in the interval.
pub push_claim-never_full :
    (days most now later : ℕ) (state : ClaimState) (code : Option Text)
    → 500 < most
    → (quota_of (limited_policy days most) (push_claim state now code).history later).can_claim_now
      ≡ true
unfolding quota_of in_window
push_claim-never_full days most now later state code h = ground (
  arith,
  length-push_claim state now code,
  count_from-le-length (later - window_ms days) (push_claim state now code).history,
)
