-- ===== src/Limits/RateLaws.antt =====
-- What the request limiter guarantees: how many requests pass, how long a block lasts, and what the
-- client is told.
use instant_grant_core.Prelude.{
  ℕ, ◌+◌, ◌≤◌, ◌<◌, ◌≡◌, refl, inl, inr, false, Option, none, some, List, [], ◌∷◌, ltb, Bool-cases,
  if◌then◌else◌, arith,
}
use instant_grant_core.Limits.Policy.{SecurityRatePolicy}
use instant_grant_core.Limits.Rate.{
  SecurityRateState, state_or_new, is_stale, count_request, consume_security_rate_state,
}
use instant_grant_core.Limits.Counting.{
  between, IsWindowed, IsWindowed-empty, IsWindowed-restart, IsWindowed-admit, IsWindowed-refuse,
}

-- The requests of one key in order, with the times of those that passed.
unfoldable pub consume_all :
    SecurityRatePolicy
    → Option SecurityRateState
    → List ℕ
    → List ℕ
    → Option SecurityRateState × List ℕ
consume_all policy state log [] = (state, log)
consume_all policy state log (now ∷ later) =
    let r = consume_security_rate_state state now policy in
    consume_all policy r.stored (if r.limited then log else now ∷ log) later

abbrev pub Ascending : ℕ → List ℕ → Type 0
Ascending now [] = Unit {0}
Ascending now (d ∷ later) = (now ≤ d) × Ascending d later

module _ (policy : SecurityRatePolicy) where
  abbrev Windowed : SecurityRateState → List ℕ → Type 0
  Windowed s log = IsWindowed policy.window_ms policy.max_requests s.window_start_ms s.count log

  -- Between two requests: nothing is stored and nothing passed, or a window has begun.
  abbrev IsLimiting : ℕ → Option SecurityRateState → List ℕ → Type 0
  IsLimiting now none log = log ≡ []
  IsLimiting now (some s) log = (s.window_start_ms ≤ now) × Windowed s log

  count_request-IsLimiting :
      (s : SecurityRateState) (now : ℕ) (log : List ℕ)
      → s.window_start_ms ≤ now
      → now < s.window_start_ms + policy.window_ms
      → Windowed s log
      → IsLimiting now
          (count_request s now policy).stored
          (if (count_request s now policy).limited then log else now ∷ log)
  unfolding count_request
  count_request-IsLimiting s now log begun inside w =
      elim (Bool-cases (ltb policy.max_requests (s.count + 1))) [
        | inl over ↦ rw over (
          begun,
          IsWindowed-refuse policy.window_ms policy.max_requests s.window_start_ms s.count log
              (ground arith) w,
        )
        | inr under ↦ rw under (
          begun,
          IsWindowed-admit policy.window_ms policy.max_requests s.window_start_ms s.count now log
              begun inside (ground arith) w,
        )
      ]

  -- A request at an unblocked state: in the window, or in a new one.
  count_fresh-IsLimiting :
      (s : SecurityRateState) (now : ℕ) (log : List ℕ)
      → 0 < policy.window_ms
      → IsWindowed policy.window_ms policy.max_requests now 0 log
      → IsLimiting now
          (count_request (record s { window_start_ms = now; count = 0 }) now policy).stored
          (if (count_request (record s { window_start_ms = now; count = 0 }) now policy).limited
            then log
            else now ∷ log)
  count_fresh-IsLimiting s now log positive w =
      count_request-IsLimiting (record s { window_start_ms = now; count = 0 }) now log (omega arith)
        (omega arith) w

  consume_state-IsLimiting :
      (s : SecurityRateState) (before now : ℕ) (log : List ℕ)
      → 0 < policy.window_ms
      → before ≤ now
      → s.window_start_ms ≤ before
      → Windowed s log
      → IsLimiting now
          (consume_security_rate_state (some s) now policy).stored
          (if (consume_security_rate_state (some s) now policy).limited then log else now ∷ log)
  unfolding consume_security_rate_state
  consume_state-IsLimiting s before now log positive le begun w =
      elim (Bool-cases (ltb now s.blocked_until_ms)) [
        | inl blocked ↦ rw blocked (omega arith, w)
        | inr free ↦ elim (Bool-cases (is_stale now s.window_start_ms policy.window_ms)) [
          | inl stale ↦
              rw (free, stale)
                (count_fresh-IsLimiting s now log positive (
                  IsWindowed-restart policy.window_ms policy.max_requests s.window_start_ms s.count
                    now log (ground arith) w))
          | inr current ↦
              rw (free, current) (count_request-IsLimiting s now log (omega arith) (ground arith) w)
        ]
      ]

  consume_new :
      (now : ℕ)
      → 0 < policy.window_ms
      → consume_security_rate_state none now policy
        ≡ count_request (state_or_new now none) now policy
  unfolding consume_security_rate_state
  consume_new now positive =
      let free : ltb now 0 ≡ false = ground arith in
      let current : is_stale now now policy.window_ms ≡ false = ground arith in rw (free, current)

  consume-IsLimiting :
      (state : Option SecurityRateState) (before now : ℕ) (log : List ℕ)
      → 0 < policy.window_ms
      → before ≤ now
      → IsLimiting before state log
      → IsLimiting now
          (consume_security_rate_state state now policy).stored
          (if (consume_security_rate_state state now policy).limited then log else now ∷ log)
  consume-IsLimiting none before now log positive le empty = rw (consume_new now positive) (
      count_request-IsLimiting (state_or_new now none) now log (omega arith) (omega arith)
        (rw empty (IsWindowed-empty policy.window_ms policy.max_requests now)))
  consume-IsLimiting (some s) before now log positive le l =
      consume_state-IsLimiting s before now log positive le l.0 l.1

  consume_all-IsLimiting :
      (state : Option SecurityRateState) (before : ℕ) (log later : List ℕ)
      → 0 < policy.window_ms
      → Ascending before later
      → IsLimiting before state log
      → (now : ℕ) × IsLimiting now
          (consume_all policy state log later).0
          (consume_all policy state log later).1
  unfolding consume_all
  consume_all-IsLimiting state before log [] positive order l = (before, l)
  consume_all-IsLimiting state before log (now ∷ later) positive order l =
      consume_all-IsLimiting (consume_security_rate_state state now policy).stored now
        (if (consume_security_rate_state state now policy).limited then log else now ∷ log) later
        positive order.1 (consume-IsLimiting state before now log positive order.0 l)

  spans-IsLimiting :
      (now a : ℕ) (state : Option SecurityRateState) (log : List ℕ)
      → IsLimiting now state log
      → between a (a + policy.window_ms) log ≤ policy.max_requests + policy.max_requests
  spans-IsLimiting now a none log l = rw l (omega arith)
  spans-IsLimiting now a (some s) log l = l.1.spans a

  -- With a window that is not zero: of any requests of one key in clock order, at most twice the
  -- budget pass in any span of time as long as the window.
  pub consume_all-spans :
      (start a : ℕ) (requests : List ℕ)
      → 0 < policy.window_ms
      → Ascending start requests
      → between a (a + policy.window_ms) (consume_all policy none [] requests).1
        ≤ policy.max_requests + policy.max_requests
  consume_all-spans start a requests positive order =
      let (now, l) = consume_all-IsLimiting none start [] requests positive order refl in
      spans-IsLimiting now a (consume_all policy none [] requests).0
        (consume_all policy none [] requests).1 l
