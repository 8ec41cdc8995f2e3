-- ===== src/Claim/Quota.antt =====
-- The claim policy of an event and the quota of a subject under it (api-worker/src/claimLogic.ts,
-- resolveClaimPolicy and buildClaimQuotaStatus). Times are milliseconds; `now - window` stops at 0,
-- which admits the same entries as a negative start, since no entry lies below 0.
use instant_grant_core.Prelude.{
  ℕ, ◌+◌, ◌-◌, ◌*◌, Bool, true, Option, none, some, List, ltb, leb, ◌==◌, length, get_elem?,
  keep_if, if◌then◌else◌,
}
use instant_grant_core.Js.{Value, undefined, null, parse_positive_int}
use instant_grant_core.Claim.State.{ClaimHistoryEntry}
use instant_grant_core.Claim.Event.{SchoolEvent}

pub record ClaimPolicy : Type 0 where
  pub claim_interval_days : ℕ
  pub max_claims_per_interval : Option ℕ

pub record ClaimQuotaStatus : Type 0 where
  pub claim_interval_days : ℕ
  pub max_claims_per_interval : Option ℕ
  pub claims_used_in_current_interval : ℕ
  pub remaining_claims_in_current_interval : Option ℕ
  pub can_claim_now : Bool
  pub next_available_at : Option ℕ

abbrev pub default_claim_interval_days : ℕ
default_claim_interval_days = 30

abbrev pub default_max_claims_per_interval : ℕ
default_max_claims_per_interval = 1

-- `parsePositiveInt(v) ?? d`
abbrev pub positive_or : ℕ → Option ℕ → ℕ
positive_or d none = d
positive_or d (some n) = n

-- `null` means no limit.
abbrev pub max_of : Value → Option ℕ
max_of null = none
max_of v = some (positive_or default_max_claims_per_interval (parse_positive_int v))

-- `event?.claimIntervalDays`, `event?.maxClaimsPerInterval`
abbrev pub interval_field : Option SchoolEvent → Value
interval_field none = undefined
interval_field (some event) = event.claim_interval_days

abbrev pub max_field : Option SchoolEvent → Value
max_field none = undefined
max_field (some event) = event.max_claims_per_interval

unfoldable pub resolve_claim_policy : Option SchoolEvent → ClaimPolicy
resolve_claim_policy event = record {
  claim_interval_days =
      positive_or default_claim_interval_days (parse_positive_int (interval_field event));
  max_claims_per_interval = max_of (max_field event);
}

unfoldable pub window_ms : ℕ → ℕ
window_ms days = days * 24 * 60 * 60 * 1000

unfoldable pub in_window : ℕ → ℕ → List ClaimHistoryEntry → List ClaimHistoryEntry
in_window window now history = keep_if (λ e. leb (now - window) e.at) history

-- `nextAvailableAt ? { nextAvailableAt } : {}` of the threshold entry.
abbrev pub available_after : ℕ → Option ClaimHistoryEntry → Option ℕ
available_after window none = none
available_after window (some e) = if ltb 0 (e.at + window) then some (e.at + window) else none

abbrev open_quota : ℕ → ℕ → ClaimQuotaStatus
open_quota days used = record {
  claim_interval_days = days;
  max_claims_per_interval = none;
  claims_used_in_current_interval = used;
  remaining_claims_in_current_interval = none;
  can_claim_now = true;
  next_available_at = none;
}

-- The quota with a limit, from the entries of the current interval.
abbrev limited_quota : ℕ → ℕ → ℕ → List ClaimHistoryEntry → ClaimQuotaStatus
limited_quota days most window entries = record {
  claim_interval_days = days;
  max_claims_per_interval = some most;
  claims_used_in_current_interval = length entries;
  remaining_claims_in_current_interval = some (most - length entries);
  can_claim_now = ltb 0 (most - length entries);
  next_available_at =
      if (most - length entries) == 0
      then available_after window (get_elem? entries (length entries - most))
      else none;
}

abbrev pub quota_under : Option ℕ → ℕ → ℕ → List ClaimHistoryEntry → ClaimQuotaStatus
quota_under none days window entries = open_quota days (length entries)
quota_under (some most) days window entries = limited_quota days most window entries

unfoldable pub quota_of : ClaimPolicy → List ClaimHistoryEntry → ℕ → ClaimQuotaStatus
quota_of policy history now =
    quota_under policy.max_claims_per_interval policy.claim_interval_days
      (window_ms policy.claim_interval_days)
      (in_window (window_ms policy.claim_interval_days) now history)

unfoldable pub build_claim_quota_status :
    List ClaimHistoryEntry → Option SchoolEvent → ℕ → ClaimQuotaStatus
build_claim_quota_status history event now = quota_of (resolve_claim_policy event) history now
