-- ===== src/Limits/IssueLaws.antt =====
-- What the issuance limits guarantee: how many issues pass, and that waiting as told suffices.
use instant_grant_core.Prelude.{
  ℕ, ◌+◌, ◌*◌, ◌≤◌, ◌<◌, ◌≡◌, refl, inl, inr, true, false, Option, none, some, List, [], ◌∷◌, leb,
  Bool-cases, if◌then◌else◌, arith,
}
use instant_grant_core.Limits.Rate.{is_stale}
use instant_grant_core.Limits.Issue.{
  SecurityIssueLimitPolicy, SecurityIssueLimitState, issue_state_or_new, count_issue,
  consume_security_issue_limit,
}
use instant_grant_core.Limits.RateLaws.{Ascending}
use instant_grant_core.Limits.Counting.{
  between, IsWindowed, IsWindowed-empty, IsWindowed-restart, IsWindowed-admit,
}

-- The issues of one actor in order, with the times of those that passed.
unfoldable pub issue_all :
    SecurityIssueLimitPolicy
    → Option SecurityIssueLimitState
    → List ℕ
    → List ℕ
    → Option SecurityIssueLimitState × List ℕ
issue_all policy state log [] = (state, log)
issue_all policy state log (now ∷ later) =
    let r = consume_security_issue_limit state now policy in
    issue_all policy r.stored (if r.limited then log else now ∷ log) later

module _ (policy : SecurityIssueLimitPolicy) where
  abbrev Windowed : SecurityIssueLimitState → List ℕ → Type 0
  Windowed s log = IsWindowed policy.window_ms policy.max_issues s.window_start_ms s.count log

  abbrev IsLimiting : ℕ → Option SecurityIssueLimitState → List ℕ → Type 0
  IsLimiting now none log = log ≡ []
  IsLimiting now (some s) log = (s.window_start_ms ≤ now) × Windowed s log

  -- A refusal keeps what was stored, an admission counts in the window.
  count_issue-IsLimiting :
      (parsed : Option SecurityIssueLimitState) (s : SecurityIssueLimitState) (now : ℕ)
      (log : List ℕ)
      → s.window_start_ms ≤ now
      → now < s.window_start_ms + policy.window_ms
      → IsLimiting now parsed log
      → Windowed s log
      → IsLimiting now
          (count_issue parsed s now policy).stored
          (if (count_issue parsed s now policy).limited then log else now ∷ log)
  unfolding count_issue
  count_issue-IsLimiting parsed s now log begun inside kept w =
      elim (Bool-cases (leb policy.max_issues s.count)) [
        | inl full ↦ rw full kept
        | inr room ↦ rw room (
          begun,
          IsWindowed-admit policy.window_ms policy.max_issues s.window_start_ms s.count now log
              begun inside (ground arith) w,
        )
      ]

  consume-IsLimiting :
      (state : Option SecurityIssueLimitState) (before now : ℕ) (log : List ℕ)
      → 0 < policy.window_ms
      → before ≤ now
      → IsLimiting before state log
      → IsLimiting now
          (consume_security_issue_limit state now policy).stored
          (if (consume_security_issue_limit state now policy).limited then log else now ∷ log)
  unfolding consume_security_issue_limit
  consume-IsLimiting none before now log positive le empty =
      let current : is_stale now now policy.window_ms ≡ false = ground arith in
      rw current (
        count_issue-IsLimiting none (issue_state_or_new now none) now log (omega arith)
          (omega arith) empty (rw empty (IsWindowed-empty policy.window_ms policy.max_issues now)))
  consume-IsLimiting (some s) before now log positive le l =
      elim (Bool-cases (is_stale now s.window_start_ms policy.window_ms)) [
        | inl stale ↦ rw stale (
            count_issue-IsLimiting (some s) (record s { window_start_ms = now; count = 0 }) now log
              (omega arith) (omega arith) (omega (arith, l.0), l.1)
              (IsWindowed-restart policy.window_ms policy.max_issues s.window_start_ms s.count now
                log (ground arith) l.1))
        | inr current ↦ rw current (
            count_issue-IsLimiting (some s) s now log (omega (arith, l.0)) (ground arith)
              (omega (arith, l.0), l.1) l.1)
      ]

  issue_all-IsLimiting :
      (state : Option SecurityIssueLimitState) (before : ℕ) (log later : List ℕ)
      → 0 < policy.window_ms
      → Ascending before later
      → IsLimiting before state log
      → (now : ℕ) × IsLimiting now
          (issue_all policy state log later).0
          (issue_all policy state log later).1
  unfolding issue_all
  issue_all-IsLimiting state before log [] positive order l = (before, l)
  issue_all-IsLimiting state before log (now ∷ later) positive order l =
      issue_all-IsLimiting (consume_security_issue_limit state now policy).stored now
        (if (consume_security_issue_limit state now policy).limited then log else now ∷ log) later
        positive order.1 (consume-IsLimiting state before now log positive order.0 l)

  spans-IsLimiting :
      (now a : ℕ) (state : Option SecurityIssueLimitState) (log : List ℕ)
      → IsLimiting now state log
      → between a (a + policy.window_ms) log ≤ policy.max_issues + policy.max_issues
  spans-IsLimiting now a none log l = rw l (omega arith)
  spans-IsLimiting now a (some s) log l = l.1.spans a

  -- With a window that is not zero: of any issues of one actor in clock order, at most twice the
  -- limit pass in any span of time as long as the window.
  pub issue_all-spans :
      (start a : ℕ) (issues : List ℕ)
      → 0 < policy.window_ms
      → Ascending start issues
      → between a (a + policy.window_ms) (issue_all policy none [] issues).1
        ≤ policy.max_issues + policy.max_issues
  issue_all-spans start a issues positive order =
      let (now, l) = issue_all-IsLimiting none start [] issues positive order refl in
      spans-IsLimiting now a (issue_all policy none [] issues).0 (issue_all policy none [] issues).1
        l

  -- An actor that waits as long as a refusal says is served, if the limit is not zero.
  pub retry_after-served :
      (state : Option SecurityIssueLimitState) (now : ℕ)
      → 0 < policy.max_issues
      → (consume_security_issue_limit state now policy).limited ≡ true
      → (consume_security_issue_limit
          (consume_security_issue_limit state now policy).stored
          (now + (consume_security_issue_limit state now policy).retry_after_sec * 1000)
          policy).limited
        ≡ false
  unfolding consume_security_issue_limit count_issue
  retry_after-served state now positive limited = ground arith
