-- ===== src/Guard/Bursts.antt =====
-- How many creations of events get past the watch.
use instant_grant_core.Prelude.{
  ℕ, ◌+◌, ◌-◌, ◌≤◌, ◌≡◌, refl, subst, ◌⊎◌, inl, inr, ◌&&◌, Option, none, some, List, [], ◌∷◌, ◌++◌,
  Text, codes, text_eq, length, leb, Bool-cases, if◌then◌else◌, arith,
}
use instant_grant_core.Claim.Run.{granted_from}
use instant_grant_core.Guard.{
  Signal, Freeze, RevokedAccess, Desk, Blocked, attempt_times, collect_suspicious_signals,
  header_or_empty, is_active, forget_expired, is_expired, enforce_unrevoked, enforce_for, signal_if,
  rapid_issue_attempts, with_log, event_create_attempt, enforce_admin_security_operation,
}
use instant_grant_core.Guard.Watch.{
  EventAttempt, WatchAnswer, clear, freeze_admin, judge, judge_attempt, watch_after,
  watch_unblocked, watch_event_create,
}

-- One attempt: its request, the ids it may use and its time.
pub record TimedAttempt : Type 0 where
  pub attempt : EventAttempt
  pub warning_id : Text
  pub report_id : Text
  pub now : ℕ

abbrev pub passed_at : WatchAnswer → ℕ → List ℕ → List ℕ
passed_at clear now log = now ∷ log
passed_at _ now log = log

-- The attempts of one admin in order, with the times of those that got past the watch.
unfoldable pub watch_all : List TimedAttempt → Desk → List ℕ → Desk × List ℕ
watch_all [] d log = (d, log)
watch_all (t ∷ rest) d log =
    let r = watch_event_create t.attempt t.warning_id t.report_id t.now d in
    watch_all rest r.0 (passed_at r.1 t.now log)

abbrev pub InClockOrder : ℕ → List TimedAttempt → Type 0
InClockOrder now [] = Unit {0}
InClockOrder now (t ∷ rest) = (now ≤ t.now) × InClockOrder t.now rest

abbrev pub end_time : ℕ → List TimedAttempt → ℕ
end_time now [] = now
end_time now (t ∷ rest) = end_time t.now rest

granted_from-length : (a : ℕ) (ts : List ℕ) → granted_from a ts ≤ length ts
granted_from-length a [] = omega arith
granted_from-length a (t ∷ ts) = ground (arith, granted_from-length a ts)

-- No recent time is lost by counting a new attempt.
granted_from-attempt_times :
    (a now : ℕ) (ts : List ℕ)
    → now ≤ a + 60000
    → granted_from a (attempt_times now ts) ≡ granted_from a ts + (if leb a now then 1 else 0)
granted_from-attempt_times a now [] h = ground arith
granted_from-attempt_times a now (t ∷ ts) h = elim (Bool-cases (leb (now - t) 60000)) [
  | inl recent ↦ rw recent (ground (arith, granted_from-attempt_times a now ts h))
  | inr old ↦ rw old (ground (arith, granted_from-attempt_times a now ts h))
]

-- The desk's times after an attempt.
abbrev times_of : Desk → List ℕ
times_of d = d.state.issue_attempt_timestamps

forget_expired-times : (now : ℕ) (d : Desk) → times_of (forget_expired now d) ≡ times_of d
forget_expired-times now d = elim (Bool-cases (is_expired now d.state.pending_warning)) [
  | inl over ↦ rw over refl
  | inr current ↦ rw current refl
]

enforce_unrevoked-times :
    (now : ℕ) (d : Desk) (f : Option Freeze) → times_of (enforce_unrevoked now d f).0 ≡ times_of d
enforce_unrevoked-times now d none = forget_expired-times now d
enforce_unrevoked-times now d (some f) = refl

enforce_for-times :
    (now : ℕ) (d : Desk) (r : Option RevokedAccess) → times_of (enforce_for now d r).0 ≡ times_of d
enforce_for-times now d none = enforce_unrevoked-times now d d.state.frozen
enforce_for-times now d (some r) = refl

append-empty {ℓ} : {A : Type ℓ} (xs ys : List A) → xs ++ ys ≡ [] → ys ≡ []
append-empty [] ys h = h
append-empty (x ∷ xs) ys h = cc

signals-calm :
    (title host : Text) (user_agent : Option Text) (times : List ℕ)
    → collect_suspicious_signals title host user_agent times ≡ []
    → length times ≤ 2
unfolding collect_suspicious_signals
signals-calm title host user_agent times none_there =
    let calm : signal_if (leb 3 (length times)) rapid_issue_attempts ≡ [] =
      append-empty _ _ (append-empty _ _ none_there) in
    elim (Bool-cases (leb 3 (length times))) [
      | inl rapid ↦ let loud : rapid_issue_attempts ∷ [] ≡ [] = rw rapid at calm in cc
      | inr slow ↦ ground arith
    ]

judge-cases :
    (warning_id : Text) (now : ℕ) (d : Desk) (signals : List Signal) (log : List ℕ)
    → (signals ≡ [] → length (times_of d) ≤ 2)
    → (times_of (judge warning_id now d signals).0 ≡ times_of d)
      × ((passed_at (judge warning_id now d signals).1 now log ≡ log)
          ⊎ ((passed_at (judge warning_id now d signals).1 now log ≡ now ∷ log)
              × (length (times_of d) ≤ 2)))
judge-cases warning_id now d [] log calm = (refl, inr (refl, calm refl))
judge-cases warning_id now d (signal ∷ signals) log calm = (refl, inl refl)

-- What one attempt does to the times, and when it gets past.
IsCounted : ℕ → List ℕ → List ℕ → Desk × WatchAnswer → Type 0
IsCounted now ts log (d, answer) =
    ((times_of d ≡ ts) ⊎ (times_of d ≡ attempt_times now ts))
    × ((passed_at answer now log ≡ log)
        ⊎ ((passed_at answer now log ≡ now ∷ log)
            × (times_of d ≡ attempt_times now ts)
            × (length (attempt_times now ts) ≤ 2)))

judge_attempt-IsCounted :
    (q : EventAttempt) (warning_id : Text) (now : ℕ) (d : Desk) (log : List ℕ)
    → IsCounted now (times_of d) log (judge_attempt q warning_id now d)
unfolding judge_attempt IsCounted
judge_attempt-IsCounted q warning_id now d log =
    let times = attempt_times now (times_of d) in
    let cases =
      judge-cases warning_id now
        (record d { state = record (d.state) { issue_attempt_timestamps = times } })
        (collect_suspicious_signals q.title q.host q.user_agent times) log
        (λ nothing. signals-calm q.title q.host q.user_agent times nothing) in
    (
      inr cases.0,
      elim cases.1 [ inl kept ↦ inl kept | inr (passed, few) ↦ inr (passed, cases.0, few) ],
    )

watch_unblocked-IsCounted :
    (q : EventAttempt) (warning_id report_id : Text) (now : ℕ) (d : Desk) (log : List ℕ)
    → IsCounted now (times_of d) log (watch_unblocked q warning_id report_id now d)
unfolding watch_unblocked freeze_admin IsCounted
watch_unblocked-IsCounted q warning_id report_id now d log =
    elim (Bool-cases (
      text_eq (header_or_empty q.override) (codes "continue")
      && is_active now d.state.pending_warning)) [
        | inl goes_on ↦ rw goes_on (inl refl, inl refl)
        | inr asks ↦
            rw asks (judge_attempt-IsCounted q warning_id now (with_log event_create_attempt d) log)
      ]

watch_after-IsCounted :
    (q : EventAttempt) (warning_id report_id : Text) (now : ℕ) (d : Desk) (b : Option Blocked)
    (log : List ℕ)
    → IsCounted now (times_of d) log (watch_after q warning_id report_id now d b)
unfolding IsCounted
watch_after-IsCounted q warning_id report_id now d none log =
    watch_unblocked-IsCounted q warning_id report_id now d log
watch_after-IsCounted q warning_id report_id now d (some b) log = (inl refl, inl refl)

watch_event_create-IsCounted :
    (q : EventAttempt) (warning_id report_id : Text) (now : ℕ) (d : Desk) (log : List ℕ)
    → IsCounted now (times_of d) log (watch_event_create q warning_id report_id now d)
unfolding watch_event_create enforce_admin_security_operation
watch_event_create-IsCounted q warning_id report_id now d log =
    let enforced = enforce_admin_security_operation now d in
    subst (λ ts. IsCounted now ts log (watch_event_create q warning_id report_id now d))
      (enforce_for-times now d d.state.revoked_access)
      (watch_after-IsCounted q warning_id report_id now enforced.0 enforced.1 log)

-- Of the times that got past, the recent ones are all among the counted ones, and are at most two.
record IsWatched (now : ℕ) (d : Desk) (log : List ℕ) : Type 0 where
  counted : (a : ℕ) → now ≤ a + 60000 → granted_from a log ≤ granted_from a (times_of d)
  limited : (a : ℕ) → now ≤ a + 60000 → granted_from a log ≤ 2

times-grow :
    (a now : ℕ) (ts : List ℕ) (d : Desk)
    → now ≤ a + 60000
    → (times_of d ≡ ts) ⊎ (times_of d ≡ attempt_times now ts)
    → granted_from a ts ≤ granted_from a (times_of d)
times-grow a now ts d near (inl same) = rw same (omega arith)
times-grow a now ts d near (inr more) =
    rw (more, granted_from-attempt_times a now ts near) (omega arith)

passed-counted :
    (a now : ℕ) (ts log : List ℕ)
    → now ≤ a + 60000
    → granted_from a log ≤ granted_from a ts
    → granted_from a (now ∷ log) ≤ granted_from a (attempt_times now ts)
passed-counted a now ts log near le = rw (granted_from-attempt_times a now ts near) (ground arith)

IsCounted-IsWatched :
    (before now : ℕ) (d : Desk) (log : List ℕ) (r : Desk × WatchAnswer)
    → before ≤ now
    → IsCounted now (times_of d) log r
    → IsWatched before d log
    → IsWatched now r.0 (passed_at r.1 now log)
unfolding IsCounted
IsCounted-IsWatched before now d log (d', answer) order (times, inl kept) w = record {
  counted = λ a near.
      rw kept
        (omega (arith, w.counted a (omega arith), times-grow a now (times_of d) d' near times));
  limited = λ a near. rw kept (w.limited a (omega arith));
}
IsCounted-IsWatched before now d log (d', answer) order (times, inr (passed, more, few)) w =
    let counted' : (a : ℕ)
        → now ≤ a + 60000
        → granted_from a (now ∷ log) ≤ granted_from a (times_of d') =
      λ a near. rw more (passed-counted a now (times_of d) log near (w.counted a (omega arith))) in
    record {
      counted = λ a near. rw passed (counted' a near);
      limited = λ a near.
          let within = granted_from-length a (times_of d') in
          let few' : length (times_of d') ≤ 2 = rw more few in
          rw passed (omega (arith, counted' a near));
    }

watch_all-IsWatched :
    (attempts : List TimedAttempt) (d : Desk) (log : List ℕ) (start : ℕ)
    → InClockOrder start attempts
    → IsWatched start d log
    → IsWatched (end_time start attempts) (watch_all attempts d log).0 (watch_all attempts d log).1
unfolding watch_all
watch_all-IsWatched [] d log start order w = w
watch_all-IsWatched (t ∷ rest) d log start order w =
    let r = watch_event_create t.attempt t.warning_id t.report_id t.now d in
    watch_all-IsWatched rest r.0 (passed_at r.1 t.now log) t.now order.1 (
      IsCounted-IsWatched start t.now d log r order.0
        (watch_event_create-IsCounted t.attempt t.warning_id t.report_id t.now d log) w)

-- Whatever an admin submits in clock order, from any state: at the end and at any later time, the
-- creations of the last minute that got past the watch are at most two.
pub watch_all-within_minute :
    (attempts : List TimedAttempt) (d : Desk) (start now : ℕ)
    → InClockOrder start attempts
    → end_time start attempts ≤ now
    → granted_from (now - 60000) (watch_all attempts d []).1 ≤ 2
watch_all-within_minute attempts d start now order later =
    let w =
      watch_all-IsWatched attempts d [] start order
        (record { counted = λ a near. omega arith; limited = λ a near. omega arith }) in
    w.limited (now - 60000) (omega arith)
