-- ===== src/Limits/Issue.antt =====
-- The daily limits on issuing events and invites (api-worker/src/storeDO.ts,
-- consumeSecurityIssueLimit, enforceAdminEventIssueLimit and enforceAdminInviteIssueLimit).
use instant_grant_core.Prelude.{
  ℕ, ◌+◌, ◌-◌, ◌*◌, max, Bool, true, false, Option, none, some, Text, codes, leb, if◌then◌else◌,
}
use instant_grant_core.Limits.Env.{parse_optional_bounded_int}
use instant_grant_core.Limits.Rate.{is_stale, ceil_seconds}

pub record SecurityIssueLimitPolicy : Type 0 where
  pub key : Text
  pub max_issues : ℕ
  pub window_ms : ℕ

pub record SecurityIssueLimitState : Type 0 where
  pub window_start_ms : ℕ
  pub count : ℕ
  pub last_issued_at_ms : ℕ

pub record IssueResult : Type 0 where
  pub stored : Option SecurityIssueLimitState
  pub limited : Bool
  pub retry_after_sec : ℕ

abbrev pub issue_state_or_new : ℕ → Option SecurityIssueLimitState → SecurityIssueLimitState
issue_state_or_new now none = record { window_start_ms = now; count = 0; last_issued_at_ms = now }
issue_state_or_new now (some s) = s

-- One issue against the state of its window; a refused one is not written.
unfoldable pub count_issue :
    Option SecurityIssueLimitState
    → SecurityIssueLimitState
    → ℕ
    → SecurityIssueLimitPolicy
    → IssueResult
count_issue parsed state now policy =
    if leb policy.max_issues state.count
    then record {
      stored = parsed;
      limited = true;
      retry_after_sec =
          max 1 (ceil_seconds (max 1000 (policy.window_ms - (now - state.window_start_ms))));
    }
    else record {
      stored = some (record state { count = state.count + 1; last_issued_at_ms = now });
      limited = false;
      retry_after_sec = 0;
    }

unfoldable pub consume_security_issue_limit :
    Option SecurityIssueLimitState → ℕ → SecurityIssueLimitPolicy → IssueResult
consume_security_issue_limit parsed now policy =
    let state = issue_state_or_new now parsed in
    if is_stale now state.window_start_ms policy.window_ms
    then count_issue parsed (record state { window_start_ms = now; count = 0 }) now policy
    else count_issue parsed state now policy

abbrev day_ms : ℕ
day_ms = 24 * 60 * 60 * 1000

abbrev pub event_issue_policy : ℕ → SecurityIssueLimitPolicy
event_issue_policy per_day = record {
  key = codes "event_issue";
  max_issues = per_day;
  window_ms = day_ms;
}

abbrev pub invite_issue_policy : ℕ → SecurityIssueLimitPolicy
invite_issue_policy per_day = record {
  key = codes "admin_invite_issue";
  max_issues = per_day;
  window_ms = day_ms;
}

-- Without a limit nothing is read or written.
abbrev under_limit :
    (ℕ → SecurityIssueLimitPolicy) → Option ℕ → Option SecurityIssueLimitState → ℕ → IssueResult
under_limit policy none parsed now = record {
  stored = parsed;
  limited = false;
  retry_after_sec = 0;
}
under_limit policy (some per_day) parsed now =
    consume_security_issue_limit parsed now (policy per_day)

unfoldable pub enforce_admin_event_issue_limit :
    Option Text → Option SecurityIssueLimitState → ℕ → IssueResult
enforce_admin_event_issue_limit raw parsed now =
    under_limit event_issue_policy (parse_optional_bounded_int raw 30 5000) parsed now

unfoldable pub enforce_admin_invite_issue_limit :
    Option Text → Option SecurityIssueLimitState → ℕ → IssueResult
enforce_admin_invite_issue_limit raw parsed now =
    under_limit invite_issue_policy (parse_optional_bounded_int raw 50 5000) parsed now
