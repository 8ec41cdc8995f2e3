-- ===== src/Claim/Store.antt =====
-- The claim store over its storage: reading and recording claims (api-worker/src/claimLogic.ts,
-- class ClaimStore, getClaimedCount to getClaimsBySubject). The readings of the clock are arguments.
use instant_grant_core.Prelude.{
  ℕ, ◌-◌, Bool, true, false, not, ◌||◌, Option, none, some, List, [], ◌∷◌, ◌++◌, Text, text_eq,
  trim, is_empty, ltb, length, drop, if◌then◌else◌,
}
use instant_grant_core.Js.{Value, undefined}
use instant_grant_core.Claim.Event.{SchoolEvent}
use instant_grant_core.Claim.State.{
  ClaimHistoryEntry, PendingClaimEntry, ClaimState, parse_claim_state, sort_by_at, latest_of,
  serialize_claim_state,
}
use instant_grant_core.Claim.Quota.{ClaimQuotaStatus, build_claim_quota_status}
use instant_grant_core.Claim.Storage.{IClaimStorage, absent, value, stored_value}
use instant_grant_core.Claim.Keys.{claim_key, claim_prefix}

abbrev pub max_stored_claim_history : ℕ
max_stored_claim_history = 500

-- `typeof c === 'string' && c.trim()` as a pending entry.
abbrev pub pending_entry : ℕ → Option Text → Option PendingClaimEntry
pending_entry at none = none
pending_entry at (some code) =
    if is_empty (trim code) then none else some (record { at = at; code = trim code })

-- The newest `max_stored_claim_history` entries.
unfoldable pub trim_history : List ClaimHistoryEntry → List ClaimHistoryEntry
trim_history history =
    if ltb max_stored_claim_history (length history)
    then drop (length history - max_stored_claim_history) history
    else history

-- The body of `addClaim` between the read and the write.
unfoldable pub push_claim : ClaimState → ℕ → Option Text → ClaimState
push_claim state now code = record {
  history = trim_history (sort_by_at (state.history ++ record { at = now; code = code } ∷ []));
  pending = pending_entry now code;
}

abbrev latest_code : List ClaimHistoryEntry → Option Text
latest_code [] = none
latest_code (e ∷ es) = (latest_of e es).code

pub record ClaimAllowance : Type 0 where
  pub allowed : Bool
  pub latest_confirmation_code : Option Text
  pub next_available_at : Option ℕ
  pub claim_quota : ClaimQuotaStatus

pub record IssuedCode : Type 0 where
  pub confirmation_code : Text
  pub issued_at : ℕ

pub record Claimant : Type 0 where
  pub subject : Text
  pub claimed_at : ℕ
  pub confirmation_code : Option Text

pub record SubjectClaim : Type 0 where
  pub event_id : Text
  pub claimed_at : ℕ
  pub confirmation_code : Option Text

-- `typeof c === 'string' ? c.trim() : ''`
abbrev pub code_or_empty : Option Text → Text
code_or_empty none = []
code_or_empty (some code) = trim code

-- Whether a code clears the pending entry: an empty one clears any.
abbrev pub resolves : Text → PendingClaimEntry → Bool
resolves code p = is_empty code || text_eq p.code code

abbrev with_latest_code : Text → List ClaimHistoryEntry → List ClaimHistoryEntry
with_latest_code code [] = []
with_latest_code code (e ∷ []) = record e { code = some code } ∷ []
with_latest_code code (e ∷ f ∷ fs) = e ∷ with_latest_code code (f ∷ fs)

abbrev with_pending_code : Text → Option PendingClaimEntry → Option PendingClaimEntry
with_pending_code code none = none
with_pending_code code (some p) = some (record p { code = code })

-- `serialized !== undefined`
abbrev pub is_undefined : Value → Bool
is_undefined undefined = true
is_undefined _ = false

module _ (storage : IClaimStorage) where
  open storage use {Store, get, put, list}

  unfoldable pub read_state : Store → Text → ClaimState
  read_state s key = parse_claim_state (stored_value (get s key))

  unfoldable pub write_state : Store → Text → ClaimState → Store
  write_state s key state =
      let serialized = serialize_claim_state state in
      if is_undefined serialized then s else put s key (value serialized)

  unfoldable pub get_claimed_count : Store → Text → ℕ
  get_claimed_count s event_id = length (list s (claim_prefix event_id))

  unfoldable pub get_claim_history : Store → Text → Text → List ClaimHistoryEntry
  get_claim_history s event_id subject = (read_state s (claim_key event_id subject)).history

  pub get_pending_claim : Store → Text → Text → Option IssuedCode
  get_pending_claim s event_id subject = elim (read_state s (claim_key event_id subject)).pending [
    | none ↦ none
    | some p ↦ some (record { confirmation_code = p.code; issued_at = p.at })
  ]

  unfoldable pub resolve_pending_claim : Store → Text → Text → Option Text → Store
  resolve_pending_claim s event_id subject confirmation_code =
      let key = claim_key event_id subject in
      let state = read_state s key in
      elim state.pending [
        | none ↦ s
        | some p ↦
            if resolves (code_or_empty confirmation_code) p
            then write_state s key (record state { pending = none })
            else s
      ]

  unfoldable pub check_claim_allowance :
      Store → Text → Text → Option SchoolEvent → ℕ → ClaimAllowance
  check_claim_allowance s event_id subject event now =
      let history = get_claim_history s event_id subject in
      let claim_quota = build_claim_quota_status history event now in
      record {
        allowed = claim_quota.can_claim_now;
        latest_confirmation_code = latest_code history;
        next_available_at = claim_quota.next_available_at;
        claim_quota = claim_quota;
      }

  unfoldable pub get_claim_quota_status :
      Store → Text → Text → Option SchoolEvent → ℕ → ClaimQuotaStatus
  get_claim_quota_status s event_id subject event now =
      build_claim_quota_status (get_claim_history s event_id subject) event now

  unfoldable pub has_claimed : Store → Text → Text → Option SchoolEvent → ℕ → Bool
  has_claimed s event_id subject none now = elim (get s (claim_key event_id subject)) [
    | absent ↦ false
    | _ ↦ true
  ]
  has_claimed s event_id subject (some event) now =
      not (check_claim_allowance s event_id subject (some event) now).allowed

  -- The inner option is the code, which the record may lack.
  unfoldable pub get_claim_record : Store → Text → Text → Option (Option Text)
  get_claim_record s event_id subject = elim (get_claim_history s event_id subject) [
    | [] ↦ none
    | e ∷ es ↦ some (latest_of e es).code
  ]

  unfoldable pub set_latest_claim_confirmation_code : Store → Text → Text → Text → Store
  set_latest_claim_confirmation_code s event_id subject confirmation_code =
      let code = trim confirmation_code in
      let key = claim_key event_id subject in
      let state = read_state s key in
      if is_empty code then s else elim state.history [
        | [] ↦ s
        | e ∷ es ↦ write_state s key (record {
          history = with_latest_code code state.history;
          pending = with_pending_code code state.pending;
        })
      ]

  unfoldable pub add_claim : Store → Text → Text → Option Text → ℕ → Store
  add_claim s event_id subject confirmation_code now =
      let key = claim_key event_id subject in
      write_state s key (push_claim (read_state s key) now confirmation_code)
