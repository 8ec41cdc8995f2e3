-- ===== src/Guard/Watch.antt =====
-- The watch in front of creating an event (api-worker/src/storeDO.ts, POST /v1/school/events from its
-- reading of the clock to its last write of the admin's state).
use instant_grant_core.Prelude.{
  ℕ, ◌&&◌, Option, none, some, List, [], ◌∷◌, Text, codes, text_eq, if◌then◌else◌,
}
use instant_grant_core.Guard.{
  Signal, PendingWarning, Freeze, Desk, event_create_attempt, freeze_enforced, report_obliged,
  security_warning_detected, Blocked, header_or_empty, attempt_times, collect_suspicious_signals,
  with_log, is_active, enforce_admin_security_operation,
}

pub record EventAttempt : Type 0 where
  pub actor_id : Text
  pub title : Text
  pub host : Text
  pub user_agent : Option Text
  pub override : Option Text

-- What the watch decides: an answer to the client, or on to the rest of the handler.
pub data WatchAnswer : Type 0 where
  blocked : Blocked → WatchAnswer
  frozen_now : Freeze → WatchAnswer
  warned : List Signal → WatchAnswer
  clear : WatchAnswer

abbrev pub warning_id_of : Option PendingWarning → Option Text
warning_id_of none = none
warning_id_of (some w) = some w.id

-- Going on after a warning: the admin is frozen, and a report is due.
unfoldable pub freeze_admin : EventAttempt → Text → ℕ → Desk → Desk × WatchAnswer
freeze_admin q report_id now d =
    let f : Freeze = record {
      frozen_at = now;
      reason = codes "proceeded_after_security_warning";
      warning_id = warning_id_of d.state.pending_warning;
      frozen_by_actor_id = some q.actor_id;
      report_id = some report_id;
    } in
    (
      with_log report_obliged (
          with_log freeze_enforced
            (record d { state = record (d.state) { pending_warning = none; frozen = some f } })),
      frozen_now f,
    )

abbrev pub judge : Text → ℕ → Desk → List Signal → Desk × WatchAnswer
judge warning_id now d [] = (d, clear)
judge warning_id now d (signal ∷ signals) = (
  with_log security_warning_detected (record d {
    state = record (d.state) {
      pending_warning =
          some (record { id = warning_id; issued_at = now; signals = signal ∷ signals });
    };
  }),
  warned (signal ∷ signals),
)

-- The attempt is counted and judged.
unfoldable pub judge_attempt : EventAttempt → Text → ℕ → Desk → Desk × WatchAnswer
judge_attempt q warning_id now d =
    let times = attempt_times now d.state.issue_attempt_timestamps in
    judge warning_id now
      (record d { state = record (d.state) { issue_attempt_timestamps = times } })
      (collect_suspicious_signals q.title q.host q.user_agent times)

unfoldable pub watch_unblocked : EventAttempt → Text → Text → ℕ → Desk → Desk × WatchAnswer
watch_unblocked q warning_id report_id now d =
    if text_eq (header_or_empty q.override) (codes "continue")
      && is_active now d.state.pending_warning
    then freeze_admin q report_id now (with_log event_create_attempt d)
    else judge_attempt q warning_id now (with_log event_create_attempt d)

abbrev pub watch_after : EventAttempt → Text → Text → ℕ → Desk → Option Blocked → Desk × WatchAnswer
watch_after q warning_id report_id now d none = watch_unblocked q warning_id report_id now d
watch_after q warning_id report_id now d (some b) = (d, blocked b)

unfoldable pub watch_event_create : EventAttempt → Text → Text → ℕ → Desk → Desk × WatchAnswer
watch_event_create q warning_id report_id now d =
    let enforced = enforce_admin_security_operation now d in
    watch_after q warning_id report_id now enforced.0 enforced.1
