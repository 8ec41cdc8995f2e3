-- ===== src/Claim/Onchain.antt =====
-- The quota from claims that are confirmed on chain (api-worker/src/storeDO.ts, ConfirmedOnchainClaim,
-- resolveClaimPolicy and buildClaimQuotaStatusFromConfirmedOnchainClaims), which the worker counts by
-- itself, beside the shared quota of the claim store.
use instant_grant_core.Prelude.{
  ℕ, ◌+◌, ◌-◌, ◌==◌, ◌&&◌, not, true, Option, none, some, List, Text, ltb, leb, length, get_elem?,
  keep_if, if◌then◌else◌,
}
use instant_grant_core.Js.{pos, negsuc, finite, not_finite, Value, undefined, null, number}
use instant_grant_core.Claim.Event.{SchoolEvent}
use instant_grant_core.Claim.State.{ClaimHistoryEntry}
use instant_grant_core.Claim.Quota.{ClaimPolicy, ClaimQuotaStatus, window_ms}

pub record ConfirmedOnchainClaim : Type 0 where
  pub at : ℕ
  pub confirmation_code : Option Text
  pub tx_signature : Option Text
  pub receipt_pubkey : Option Text

-- The integral part of a finite number above zero, which a fraction below one has too.
abbrev pub floor_or : ℕ → Value → ℕ
floor_or d (number (finite (pos n) fractional)) = if n == 0 && not fractional then d else n
floor_or d (number (finite (negsuc n) fractional)) = d
floor_or d (number not_finite) = d
floor_or d _ = d

abbrev pub onchain_max : Value → Option ℕ
onchain_max null = none
onchain_max v = some (floor_or 1 v)

abbrev pub event_interval : Option SchoolEvent → Value
event_interval none = undefined
event_interval (some event) = event.claim_interval_days

abbrev pub event_max : Option SchoolEvent → Value
event_max none = undefined
event_max (some event) = event.max_claims_per_interval

unfoldable pub resolve_onchain_claim_policy : Option SchoolEvent → ClaimPolicy
resolve_onchain_claim_policy event = record {
  claim_interval_days = floor_or 30 (event_interval event);
  max_claims_per_interval = onchain_max (event_max event);
}

abbrev pub claims_within : ℕ → ℕ → List ConfirmedOnchainClaim → List ConfirmedOnchainClaim
claims_within window now claims = keep_if (λ c. leb (now - window) c.at) claims

abbrev pub after_claim : ℕ → Option ConfirmedOnchainClaim → Option ℕ
after_claim window none = none
after_claim window (some c) = if ltb 0 (c.at + window) then some (c.at + window) else none

abbrev pub onchain_quota : ℕ → ℕ → Option ℕ → List ConfirmedOnchainClaim → ClaimQuotaStatus
onchain_quota days window none inside = record {
  claim_interval_days = days;
  max_claims_per_interval = none;
  claims_used_in_current_interval = length inside;
  remaining_claims_in_current_interval = none;
  can_claim_now = true;
  next_available_at = none;
}
onchain_quota days window (some most) inside = record {
  claim_interval_days = days;
  max_claims_per_interval = some most;
  claims_used_in_current_interval = length inside;
  remaining_claims_in_current_interval = some (most - length inside);
  can_claim_now = ltb 0 (most - length inside);
  next_available_at =
      if (most - length inside) == 0
      then after_claim window (get_elem? inside (length inside - most))
      else none;
}

unfoldable pub onchain_quota_status :
    Option SchoolEvent → List ConfirmedOnchainClaim → ℕ → ClaimQuotaStatus
onchain_quota_status event claims now =
    let policy = resolve_onchain_claim_policy event in
    let window = window_ms policy.claim_interval_days in
    onchain_quota policy.claim_interval_days window policy.max_claims_per_interval
      (claims_within window now claims)

-- A claim as an entry of the claim store's history.
abbrev pub as_entry : ConfirmedOnchainClaim → ClaimHistoryEntry
as_entry c = record { at = c.at; code = c.confirmation_code }
