-- ===== src/Guard/Frozen.antt =====
-- A frozen admin stays frozen, and one that goes on after a warning is frozen.
use instant_grant_core.Prelude.{
  ℕ, ◌+◌, ◌≤◌, ◌≡◌, refl, ap, sym, subst, ◌∙◌, true, false, Option, none, some, List, [], ◌∷◌, Text,
  codes, text_eq, text_eq_refl, arith,
}
use instant_grant_core.Guard.{
  PendingWarning, Freeze, RevokedAccess, Desk, Blocked, header_or_empty, is_active, is_expired,
  enforce_unrevoked, enforce_for, with_log, event_create_attempt, enforce_admin_security_operation,
}
use instant_grant_core.Guard.Watch.{
  EventAttempt, frozen_now, freeze_admin, watch_after, watch_unblocked, watch_event_create,
}
use instant_grant_core.Guard.Bursts.{TimedAttempt, passed_at, watch_all}

-- What a new attempt of a frozen or barred admin does.
IsStopped : Desk → Desk × Option Blocked → Type 0
IsStopped d (d', none) = ⊥
IsStopped d (d', some b) = d'.state ≡ d.state

enforce_for-IsStopped :
    (now : ℕ) (d : Desk) (r : Option RevokedAccess) (f : Freeze)
    → d.state.frozen ≡ some f
    → IsStopped d (enforce_for now d r)
unfolding IsStopped
enforce_for-IsStopped now d none f frozen =
    subst (λ x. IsStopped d (enforce_unrevoked now d x)) (sym frozen) refl
enforce_for-IsStopped now d (some r) f frozen = refl

watch_after-stopped :
    (q : EventAttempt) (warning_id report_id : Text) (now : ℕ) (d : Desk)
    (r : Desk × Option Blocked) (log : List ℕ)
    → IsStopped d r
    → ((watch_after q warning_id report_id now r.0 r.1).0.state ≡ d.state)
      × (passed_at (watch_after q warning_id report_id now r.0 r.1).1 now log ≡ log)
unfolding IsStopped
watch_after-stopped q warning_id report_id now d (d', none) log stopped = absurd stopped
watch_after-stopped q warning_id report_id now d (d', some b) log stopped = (stopped, refl)

watch-frozen :
    (q : EventAttempt) (warning_id report_id : Text) (now : ℕ) (d : Desk) (f : Freeze)
    (log : List ℕ)
    → d.state.frozen ≡ some f
    → ((watch_event_create q warning_id report_id now d).0.state ≡ d.state)
      × (passed_at (watch_event_create q warning_id report_id now d).1 now log ≡ log)
unfolding watch_event_create enforce_admin_security_operation
watch-frozen q warning_id report_id now d f log frozen =
    watch_after-stopped q warning_id report_id now d (enforce_for now d d.state.revoked_access) log
      (enforce_for-IsStopped now d d.state.revoked_access f frozen)

-- Once frozen, an admin stays frozen whatever it submits: no attempt gets past the watch and the
-- state is left as it is.
pub watch_all-frozen :
    (attempts : List TimedAttempt) (d : Desk) (f : Freeze) (log : List ℕ)
    → d.state.frozen ≡ some f
    → ((watch_all attempts d log).0.state ≡ d.state) × ((watch_all attempts d log).1 ≡ log)
unfolding watch_all
watch_all-frozen [] d f log frozen = (refl, refl)
watch_all-frozen (t ∷ rest) d f log frozen =
    let r = watch_event_create t.attempt t.warning_id t.report_id t.now d in
    let (same, stopped) = watch-frozen t.attempt t.warning_id t.report_id t.now d f log frozen in
    let frozen' : r.0.state.frozen ≡ some f = rw same frozen in
    let later = watch_all-frozen rest r.0 f log frozen' in
    rw (stopped, watch_all) (later.0 ∙ same, later.1)

enforce-open :
    (now : ℕ) (d : Desk) (w : PendingWarning)
    → d.state.revoked_access ≡ none
    → d.state.frozen ≡ none
    → d.state.pending_warning ≡ some w
    → now ≤ w.issued_at + 120000
    → enforce_admin_security_operation now d ≡ (d, none)
unfolding enforce_admin_security_operation
enforce-open now d w access free pending soon =
    let current : is_expired now d.state.pending_warning ≡ false =
      ap (is_expired now) pending ∙ (ground arith) in
    ap (enforce_for now d) access
    ∙ (ap (enforce_unrevoked now d) free ∙ ap (λ x. (x, none)) (rw current refl))

-- An admin with access, not frozen, that is warned of a suspicious attempt and asks to continue
-- within two minutes is frozen on the spot, and every later attempt is stopped.
pub watch_event_create-continued :
    (q : EventAttempt) (warning_id report_id : Text) (now : ℕ) (d : Desk) (w : PendingWarning)
    (rest : List TimedAttempt)
    → d.state.revoked_access ≡ none
    → d.state.frozen ≡ none
    → d.state.pending_warning ≡ some w
    → now ≤ w.issued_at + 120000
    → header_or_empty q.override ≡ codes "continue"
    → (f : Freeze) × ((watch_event_create q warning_id report_id now d).1 ≡ frozen_now f)
      × ((watch_event_create q warning_id report_id now d).0.state.frozen ≡ some f)
      × ((watch_all rest (watch_event_create q warning_id report_id now d).0 []).1 ≡ [])
unfolding watch_event_create watch_unblocked freeze_admin
watch_event_create-continued q warning_id report_id now d w rest access free pending soon continue =
    let asked : text_eq (header_or_empty q.override) (codes "continue") ≡ true =
      rw continue (text_eq_refl (codes "continue")) in
    let active : is_active now d.state.pending_warning ≡ true =
      ap (is_active now) pending ∙ (ground arith) in
    let straight : watch_event_create q warning_id report_id now d
        ≡ freeze_admin q report_id now (with_log event_create_attempt d) =
      ap (λ e. watch_after q warning_id report_id now e.0 e.1)
        (enforce-open now d w access free pending soon)
      ∙ (rw (asked, active) refl) in
    rw straight (_, refl, refl, (watch_all-frozen rest _ _ [] refl).1)
