-- ===== src/Guard/Tests.antt =====
-- An admin who creates events in a hurry, and the theorems at inputs that meet their hypotheses.
use instant_grant_core.Prelude.{
  ℕ, ◌-◌, ◌≤◌, ◌≡◌, refl, none, some, List, [], ◌∷◌, codes, arith, trim, trim_start, trim_end,
  keep_before, is_space,
}
use instant_grant_core.Claim.Run.{granted_from}
use instant_grant_core.Guard.{
  PendingWarning, Freeze, Desk, rapid_issue_attempts, suspicious_keyword,
  collect_suspicious_signals, enforce_admin_security_operation,
}
use instant_grant_core.Guard.Watch.{
  EventAttempt, frozen_now, freeze_admin, judge_attempt, watch_unblocked, watch_event_create,
}
use instant_grant_core.Guard.Bursts.{TimedAttempt, watch_all, watch_all-within_minute}
use instant_grant_core.Guard.Frozen.{watch_all-frozen, watch_event_create-continued}

abbrev club_night : EventAttempt
club_night = record {
  actor_id = codes "admin-1";
  title = codes "Club night";
  host = codes "School";
  user_agent = some (codes "Mozilla/5.0");
  override = some (codes " Continue ");
}

abbrev at : ℕ → TimedAttempt
at now = record { attempt = club_night; warning_id = codes "w1"; report_id = codes "r1"; now = now }

abbrev new_desk : Desk
new_desk = record {
  state = record {
    issue_attempt_timestamps = [];
    pending_warning = none;
    frozen = none;
    revoked_access = none;
  };
  log = [];
}

watch : Unit {0}
unfolding watch_all watch_event_create watch_unblocked judge_attempt freeze_admin
    enforce_admin_security_operation collect_suspicious_signals trim trim_start trim_end keep_before
    is_space
watch = tt

-- The third attempt is warned of, the fourth goes on and is frozen, the fifth is stopped.
abbrev five_attempts : List TimedAttempt
five_attempts = at 1000 ∷ at 2000 ∷ at 3000 ∷ at 4000 ∷ at 900000 ∷ []

five_attempts_test : (watch_all five_attempts new_desk []).1 ≡ (2000 ∷ 1000 ∷ [])
unfolding watch
five_attempts_test = refl

keyword_test :
    collect_suspicious_signals (codes "Auto-issue") (codes "automatic") none []
    ≡ (suspicious_keyword ∷ [])
unfolding watch
keyword_test = refl

no_keyword_test : collect_suspicious_signals (codes "Automatic") (codes "robots") none [] ≡ []
unfolding watch
no_keyword_test = refl

watch_all-within_minute_example :
    granted_from (900000 - 60000) (watch_all five_attempts new_desk []).1 ≤ 2
watch_all-within_minute_example =
    watch_all-within_minute five_attempts new_desk 0 900000
      (omega arith, (omega arith, (omega arith, (omega arith, (omega arith, tt))))) (omega arith)

abbrev warning : PendingWarning
warning = record { id = codes "w1"; issued_at = 3000; signals = rapid_issue_attempts ∷ [] }

abbrev warned_desk : Desk
warned_desk = record new_desk { state = record (new_desk.state) { pending_warning = some warning } }

watch_event_create-continued_example :
    (f : Freeze) × ((watch_event_create club_night (codes "w2") (codes "r1") 4000 warned_desk).1
      ≡ frozen_now f)
    × ((watch_event_create club_night (codes "w2") (codes "r1") 4000 warned_desk).0.state.frozen
        ≡ some f)
    × ((watch_all
          (at 900000 ∷ [])
          (watch_event_create club_night (codes "w2") (codes "r1") 4000 warned_desk).0
          []).1
        ≡ [])
unfolding watch
watch_event_create-continued_example =
    watch_event_create-continued club_night (codes "w2") (codes "r1") 4000 warned_desk warning
      (at 900000 ∷ []) refl refl refl (omega arith) refl

abbrev freeze : Freeze
freeze = record {
  frozen_at = 4000;
  reason = codes "proceeded_after_security_warning";
  warning_id = some (codes "w1");
  frozen_by_actor_id = some (codes "admin-1");
  report_id = some (codes "r1");
}

abbrev frozen_desk : Desk
frozen_desk = record new_desk { state = record (new_desk.state) { frozen = some freeze } }

watch_all-frozen_example :
    ((watch_all five_attempts frozen_desk []).0.state ≡ frozen_desk.state)
    × ((watch_all five_attempts frozen_desk []).1 ≡ [])
watch_all-frozen_example = watch_all-frozen five_attempts frozen_desk freeze [] refl
