-- ===== src/Guard.antt =====
-- The watch over admins who create events, and over moderated users (api-worker/src/storeDO.ts,
-- AdminSecurityStateRecord, AdminSecurityUserModerationRecord, ensureUserNotModerated,
-- collectSuspiciousSignals, enforceAdminSecurityOperation and its use by POST /v1/school/events). The
-- clock and the ids of warnings and reports are arguments. The security log keeps its actions alone,
-- the newest first.
pub mod Watch
pub mod Bursts
pub mod Frozen
mod Tests
use instant_grant_core.Prelude.{
  ℕ, ◌-◌, Bool, true, false, ◌&&◌, ◌||◌, ◌==◌, not, Option, none, some, List, [], ◌∷◌, ◌++◌, map,
  Text, codes, trim, is_digit, is_empty, starts_with, drop, length, any, keep_if, ltb, leb,
  if◌then◌else◌,
}
use instant_grant_core.Limits.Env.{lower}

pub data Signal : Type 0 where
  suspicious_keyword bot_like_user_agent rapid_issue_attempts : Signal

pub record PendingWarning : Type 0 where
  pub id : Text
  pub issued_at : ℕ
  pub signals : List Signal

pub record Freeze : Type 0 where
  pub frozen_at : ℕ
  pub reason : Text
  pub warning_id : Option Text
  pub frozen_by_actor_id : Option Text
  pub report_id : Option Text

pub record RevokedAccess : Type 0 where
  pub revoked_at : ℕ
  pub reason : Text
  pub revoked_by_actor_id : Option Text
  pub report_id : Option Text

pub record AdminSecurityState : Type 0 where
  pub issue_attempt_timestamps : List ℕ
  pub pending_warning : Option PendingWarning
  pub frozen : Option Freeze
  pub revoked_access : Option RevokedAccess

pub data SecurityLogAction : Type 0 where
  revoke_blocked_operation freeze_blocked_operation event_create_attempt : SecurityLogAction
  freeze_enforced report_obliged security_warning_detected : SecurityLogAction

-- The rows of one admin.
pub record Desk : Type 0 where
  pub state : AdminSecurityState
  pub log : List SecurityLogAction

pub record ModerationMark : Type 0 where
  pub at : ℕ
  pub reason : Text
  pub by_actor_id : Option Text
  pub report_id : Option Text

pub record UserModeration : Type 0 where
  pub frozen : Option ModerationMark
  pub deleted : Option ModerationMark

pub data ModerationAnswer : Type 0 where
  user_deleted user_frozen : (at : ℕ) (reason : Text) → ModerationAnswer

abbrev frozen_answer : Option ModerationMark → Option ModerationAnswer
frozen_answer none = none
frozen_answer (some m) = some (user_frozen m.at m.reason)

abbrev moderation_answer : Option ModerationMark → Option ModerationMark → Option ModerationAnswer
moderation_answer none frozen = frozen_answer frozen
moderation_answer (some m) frozen = some (user_deleted m.at m.reason)

-- A deletion is told before a freeze. An empty user id, in normal form, has no rows.
unfoldable pub ensure_user_not_moderated : Text → UserModeration → Option ModerationAnswer
ensure_user_not_moderated user_id state =
    if is_empty user_id then none else moderation_answer state.deleted state.frozen

-- `\w` of a code unit.
abbrev is_word_char : ℕ → Bool
is_word_char c = is_digit c || (leb b'a' c && leb c b'z') || (leb b'A' c && leb c b'Z') || c == b'_'

abbrev begins_outside : Text → Bool
begins_outside [] = true
begins_outside (c ∷ s) = not (is_word_char c)

-- Whether a word stands in a text between two word boundaries, after a word character or not.
abbrev has_word : Text → Bool → Text → Bool
has_word word inside [] = false
has_word word inside (c ∷ s) =
    (not inside && starts_with word (c ∷ s) && begins_outside (drop (length word) (c ∷ s)))
    || has_word word (is_word_char c) s

abbrev contains : Text → Text → Bool
contains word [] = false
contains word (c ∷ s) = starts_with word (c ∷ s) || contains word s

abbrev suspicious_words : List Text
suspicious_words = codes "bot" ∷ codes "auto" ∷ codes "script" ∷ codes "spam" ∷ codes "mass" ∷ []

abbrev bot_agents : List Text
bot_agents =
    codes "bot"
    ∷ codes "crawler"
    ∷ codes "spider"
    ∷ codes "curl"
    ∷ codes "wget"
    ∷ codes "python"
    ∷ codes "scrapy"
    ∷ codes "headless"
    ∷ []

abbrev pub header_or_empty : Option Text → Text
header_or_empty none = []
header_or_empty (some h) = map lower (trim h)

-- The attempts of the last minute and this one.
abbrev pub attempt_times : ℕ → List ℕ → List ℕ
attempt_times now times = keep_if (λ t. leb (now - t) 60000) times ++ now ∷ []

abbrev pub signal_if : Bool → Signal → List Signal
signal_if true signal = signal ∷ []
signal_if false signal = []

-- The signals of an attempt, from its texts and the times of the attempts.
unfoldable pub collect_suspicious_signals : Text → Text → Option Text → List ℕ → List Signal
collect_suspicious_signals title host user_agent times =
    signal_if (any (λ w. has_word w false (map lower (title ++ (b' ' ∷ host)))) suspicious_words)
      suspicious_keyword
    ++ (signal_if (any (λ w. contains w (header_or_empty user_agent)) bot_agents)
          bot_like_user_agent
        ++ signal_if (leb 3 (length times)) rapid_issue_attempts)

pub data Blocked : Type 0 where
  access_revoked : RevokedAccess → Blocked
  account_frozen : Freeze → Blocked

abbrev pub with_log : SecurityLogAction → Desk → Desk
with_log action d = record d { log = action ∷ d.log }

abbrev pub is_expired : ℕ → Option PendingWarning → Bool
is_expired now none = false
is_expired now (some w) = ltb 120000 (now - w.issued_at)

abbrev pub is_active : ℕ → Option PendingWarning → Bool
is_active now none = false
is_active now (some w) = leb (now - w.issued_at) 120000

abbrev pub forget_expired : ℕ → Desk → Desk
forget_expired now d =
    if is_expired now d.state.pending_warning
    then record d { state = record (d.state) { pending_warning = none } }
    else d

abbrev pub enforce_unrevoked : ℕ → Desk → Option Freeze → Desk × Option Blocked
enforce_unrevoked now d none = (forget_expired now d, none)
enforce_unrevoked now d (some f) = (with_log freeze_blocked_operation d, some (account_frozen f))

abbrev pub enforce_for : ℕ → Desk → Option RevokedAccess → Desk × Option Blocked
enforce_for now d none = enforce_unrevoked now d d.state.frozen
enforce_for now d (some r) = (with_log revoke_blocked_operation d, some (access_revoked r))

unfoldable pub enforce_admin_security_operation : ℕ → Desk → Desk × Option Blocked
enforce_admin_security_operation now d = enforce_for now d d.state.revoked_access
