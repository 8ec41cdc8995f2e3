-- ===== src/Claim/Submit.antt =====
-- One submission of a claim (api-worker/src/claimLogic.ts, submitClaim). The clock is read three
-- times: for the allowance, for the new entry and for the quota in the answer.
use instant_grant_core.Prelude.{
  ℕ, Bool, true, false, Option, none, some, [], Text, trim, is_empty, if◌then◌else◌,
}
use instant_grant_core.Claim.Event.{SchoolEvent, EventState, published}
use instant_grant_core.Claim.Quota.{ClaimQuotaStatus}
use instant_grant_core.Claim.Storage.{IClaimStorage}
use instant_grant_core.Claim.Keys.{normalize_subject}
use instant_grant_core.Claim.Store.{check_claim_allowance, add_claim, get_claim_quota_status}
use instant_grant_core.Claim.Events.{get_event, EventWithCount}

-- A field that is no string is `none`.
pub record ClaimBody : Type 0 where
  pub event_id : Option Text
  pub wallet_address : Option Text
  pub join_token : Option Text

pub data SchoolClaimErrorCode : Type 0 where
  invalid not_found eligibility wallet_required : SchoolClaimErrorCode

pub record SchoolClaimSuccess : Type 0 where
  pub event_name : Text
  pub already_joined : Bool
  pub confirmation_code : Option Text
  pub claim_quota : ClaimQuotaStatus

pub data SchoolClaimResult : Type 0 where
  success : SchoolClaimSuccess → SchoolClaimResult
  failure : SchoolClaimErrorCode → SchoolClaimResult

pub record Clock : Type 0 where
  pub checked : ℕ
  pub added : ℕ
  pub answered : ℕ

abbrev pub trimmed_or_empty : Option Text → Text
trimmed_or_empty none = []
trimmed_or_empty (some t) = trim t

-- `!(event.state && event.state !== 'published')`
abbrev pub is_open : Option EventState → Bool
is_open none = true
is_open (some published) = true
is_open (some _) = false

module _ (storage : IClaimStorage) where
  open storage use {Store}

  -- With an event that takes claims and a subject.
  unfoldable pub submit_for :
      Store → Text → SchoolEvent → Text → Option Text → Clock → Store × SchoolClaimResult
  submit_for s event_id event subject code clock =
      let allowance = check_claim_allowance storage s event_id subject (some event) clock.checked in
      if allowance.allowed
      then (let s' = add_claim storage s event_id subject code clock.added in
          (
            s',
            success (record {
              event_name = event.title;
              already_joined = false;
              confirmation_code = code;
              claim_quota =
                  get_claim_quota_status storage s' event_id subject (some event) clock.answered;
            }),
          ))
      else (
        s,
        success (record {
          event_name = event.title;
          already_joined = true;
          confirmation_code = allowance.latest_confirmation_code;
          claim_quota = allowance.claim_quota;
        }),
      )

  unfoldable pub submit_with :
      Store
      → Text
      → ClaimBody
      → Option Text
      → Clock
      → Option EventWithCount
      → Store × SchoolClaimResult
  submit_with s event_id body code clock none = (s, failure not_found)
  submit_with s event_id body code clock (some found) =
      if is_open found.event.state
      then (elim (normalize_subject body.wallet_address body.join_token) [
        | none ↦ (s, failure wallet_required)
        | some subject ↦ submit_for s event_id found.event subject code clock
      ])
      else (s, failure eligibility)

  unfoldable pub submit_claim : Store → ClaimBody → Option Text → Clock → Store × SchoolClaimResult
  submit_claim s body code clock =
      let event_id = trimmed_or_empty body.event_id in
      if is_empty event_id
      then (s, failure invalid)
      else submit_with s event_id body code clock (get_event storage s event_id)
