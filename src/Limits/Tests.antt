-- ===== src/Limits/Tests.antt =====
-- Runs of the limiters, and their theorems at inputs that meet their hypotheses.
use instant_grant_core.Prelude.{
  trim, trim_start, trim_end, keep_before, is_space, ℕ, ◌≤◌, ◌≡◌, refl, none, some, List, [], ◌∷◌,
  codes, arith,
}
use instant_grant_core.Limits.Body.{Incoming, get_client_ip_address}
use instant_grant_core.Limits.Policy.{SecurityRatePolicy, RateEnv}
use instant_grant_core.Limits.Rate.{SecurityRateState, consume_security_rate_state, count_request}
use instant_grant_core.Limits.Issue.{
  SecurityIssueLimitPolicy, SecurityIssueLimitState, consume_security_issue_limit, count_issue,
}
use instant_grant_core.Limits.Counting.{between}
use instant_grant_core.Limits.RateLaws.{consume_all, consume_all-spans}
use instant_grant_core.Limits.IssueLaws.{issue_all, issue_all-spans}

abbrev two_a_second : SecurityRatePolicy
two_a_second = record { key = codes "read"; window_ms = 1000; max_requests = 2; block_ms = 10000 }

-- The third request is refused and starts a block, which the fifth outwaits.
abbrev five_requests : List ℕ
five_requests = 100 ∷ 200 ∷ 300 ∷ 5000 ∷ 10300 ∷ []

five_requests_test : (consume_all two_a_second none [] five_requests).1 ≡ (10300 ∷ 200 ∷ 100 ∷ [])
unfolding consume_all consume_security_rate_state count_request
five_requests_test = refl

consume_all-spans_example : between 0 1000 (consume_all two_a_second none [] five_requests).1 ≤ 4
consume_all-spans_example =
    consume_all-spans two_a_second 0 0 five_requests (omega arith)
      (omega arith, (omega arith, (omega arith, (omega arith, (omega arith, tt)))))

abbrev full : SecurityRateState
full = record {
  window_start_ms = 100;
  count = 2;
  blocked_until_ms = 0;
  violations = 0;
  last_seen_ms = 200;
}

abbrev blocked : SecurityRateState
blocked = record {
  window_start_ms = 100;
  count = 3;
  blocked_until_ms = 10300;
  violations = 1;
  last_seen_ms = 300;
}

abbrev two_a_day : SecurityIssueLimitPolicy
two_a_day = record { key = codes "event_issue"; max_issues = 2; window_ms = 86400000 }

abbrev four_issues : List ℕ
four_issues = 1000 ∷ 2000 ∷ 3000 ∷ 86500000 ∷ []

four_issues_test : (issue_all two_a_day none [] four_issues).1 ≡ (86500000 ∷ 2000 ∷ 1000 ∷ [])
unfolding issue_all consume_security_issue_limit count_issue
four_issues_test = refl

issue_all-spans_example : between 0 86400000 (issue_all two_a_day none [] four_issues).1 ≤ 4
issue_all-spans_example =
    issue_all-spans two_a_day 0 0 four_issues (omega arith)
      (omega arith, (omega arith, (omega arith, (omega arith, tt))))

abbrev two_issued : SecurityIssueLimitState
two_issued = record { window_start_ms = 1000; count = 2; last_issued_at_ms = 2000 }

abbrev no_env : RateEnv
no_env = record {
  block_seconds = none;
  read_per_minute = none;
  mutation_per_minute = none;
  auth_per_10_minutes = none;
  admin_login_per_10_minutes = none;
  verify_per_minute = none;
  global_per_minute = none;
}

abbrev post_in_chunks : Incoming
post_in_chunks = record {
  method = codes "post";
  path = codes "/api/events";
  content_length = none;
  body = some (4000 ∷ 100 ∷ []);
  connecting_ip = none;
  forwarded_for = some (codes " 10.0.0.1, 10.0.0.2");
}

client_ip_test :
    get_client_ip_address post_in_chunks.connecting_ip post_in_chunks.forwarded_for
    ≡ codes "10.0.0.1"
unfolding get_client_ip_address trim trim_start trim_end keep_before is_space
client_ip_test = refl
