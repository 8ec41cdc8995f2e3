-- ===== src/Claim/Events.antt =====
-- Events of the claim store: the two seed events, those in storage, and their updates
-- (api-worker/src/claimLogic.ts, SEED_EVENTS, mergeEventsById, getStoredEvents to createEvent).
use instant_grant_core.Prelude.{
  ℕ, zero, suc, ◌+◌, ◌/◌, ◌%◌, Option, none, some, ◌-◌, List, [], ◌∷◌, ◌++◌, map, Text, codes,
  text_eq, ltb, ◌==◌, if◌then◌else◌,
}
use instant_grant_core.Js.{Value, null, undefined, integer}
use instant_grant_core.Claim.Event.{
  SchoolEvent, EventState, RiskProfile, published, school_internal,
}
use instant_grant_core.Claim.Quota.{resolve_claim_policy}
use instant_grant_core.Claim.Storage.{IClaimStorage, Stored, event}
use instant_grant_core.Claim.Keys.{event_key, event_prefix_text}
use instant_grant_core.Claim.Store.{get_claimed_count}

pub record EventWithCount : Type 0 where
  pub event : SchoolEvent
  pub claimed_count : ℕ

-- `null` where there is no limit.
abbrev limit_value : Option ℕ → Value
limit_value none = null
limit_value (some n) = integer n

-- `{ ...event, claimIntervalDays: …, maxClaimsPerInterval: … }`
unfoldable pub with_policy : SchoolEvent → SchoolEvent
with_policy e =
    let policy = resolve_claim_policy (some e) in
    record e {
      claim_interval_days = integer policy.claim_interval_days;
      max_claims_per_interval = limit_value policy.max_claims_per_interval;
    }

abbrev seed : Text → Text → Text → Text → SchoolEvent
seed id title datetime host = record {
  id = id;
  title = title;
  datetime = datetime;
  host = host;
  state = some published;
  risk_profile = none;
  solana_mint = none;
  solana_authority = none;
  solana_grant_id = none;
  ticket_token_amount = none;
  claim_interval_days = undefined;
  max_claims_per_interval = undefined;
}

abbrev pub seed_events : List SchoolEvent
seed_events =
    seed (codes "evt-001") (codes "地域清掃ボランティア") (codes "2026/02/02 09:00-10:30") (codes "生徒会")
    ∷ seed (codes "evt-002") (codes "進路説明会") (codes "2026/02/10 15:00-16:00") (codes "進路指導室")
    ∷ []

unfoldable pub find_event : Text → List SchoolEvent → Option SchoolEvent
find_event id [] = none
find_event id (e ∷ es) = if text_eq e.id id then some e else find_event id es

-- `byId.set(event.id, event)`: a known id keeps its place.
unfoldable pub set_event : SchoolEvent → List SchoolEvent → List SchoolEvent
set_event e [] = e ∷ []
set_event e (f ∷ fs) = let rest = set_event e fs in if text_eq f.id e.id then e ∷ fs else f ∷ rest

unfoldable pub set_events : List SchoolEvent → List SchoolEvent → List SchoolEvent
set_events [] by_id = by_id
set_events (e ∷ es) by_id = set_events es (set_event e by_id)

unfoldable pub merge_events_by_id : List SchoolEvent → List SchoolEvent
unfolding set_events set_event
merge_events_by_id stored = set_events stored (set_events seed_events [])

unfoldable pub stored_events : List (Text × Stored) → List SchoolEvent
stored_events [] = []
stored_events ((key, event e) ∷ rows) = with_policy e ∷ stored_events rows
stored_events ((key, _) ∷ rows) = stored_events rows

abbrev digit36 : ℕ → ℕ
digit36 d = if ltb d 10 then b'0' + d else b'a' + (d - 10)

-- `n.toString(36)`, with fuel for the digits.
unfoldable pub base36 : ℕ → ℕ → Text → Text
base36 zero n acc = acc
base36 (suc fuel) n acc =
    let digits = digit36 (n % 36) ∷ acc in
    let more = base36 fuel (n / 36) digits in if (n / 36) == 0 then digits else more

pub record NewEvent : Type 0 where
  pub title : Text
  pub datetime : Text
  pub host : Text
  pub state : Option EventState
  pub risk_profile : Option RiskProfile
  pub solana_mint : Option Text
  pub solana_authority : Option Text
  pub solana_grant_id : Option Text
  pub ticket_token_amount : Option ℕ
  pub claim_interval_days : Value
  pub max_claims_per_interval : Value

-- `d ?? fallback`
abbrev or_else {ℓ} : {A : Type ℓ} → A → Option A → A
or_else d none = d
or_else d (some a) = a

-- A number of digits that is enough for every time: `n < 36 ^ (n + 1)`.
unfoldable pub new_event_id : ℕ → Text
unfolding base36
new_event_id now = codes "evt-" ++ base36 (suc now) now []

unfoldable pub new_event : NewEvent → ℕ → SchoolEvent
new_event given now = with_policy (record {
  id = new_event_id now;
  title = given.title;
  datetime = given.datetime;
  host = given.host;
  state = some (or_else published given.state);
  risk_profile = some (or_else school_internal given.risk_profile);
  solana_mint = given.solana_mint;
  solana_authority = given.solana_authority;
  solana_grant_id = given.solana_grant_id;
  ticket_token_amount = given.ticket_token_amount;
  claim_interval_days = given.claim_interval_days;
  max_claims_per_interval = given.max_claims_per_interval;
})

module _ (storage : IClaimStorage) where
  open storage use {Store, get, put, list}

  abbrev counted : Store → SchoolEvent → EventWithCount
  counted s e = record { event = with_policy e; claimed_count = get_claimed_count storage s e.id }

  -- A stored event comes before a seed event of its id.
  unfoldable pub get_event : Store → Text → Option EventWithCount
  get_event s event_id = elim (get s (event_key event_id)) [
    | event e ↦
        some
          (record { event = with_policy e; claimed_count = get_claimed_count storage s event_id })
    | _ ↦ elim (find_event event_id seed_events) [
      | none ↦ none
      | some e ↦
          some
            (record { event = with_policy e; claimed_count = get_claimed_count storage s event_id })
    ]
  ]

  unfoldable pub get_events : Store → List EventWithCount
  get_events s = map (counted s) (merge_events_by_id (stored_events (list s event_prefix_text)))

  unfoldable pub update_event_state : Store → Text → EventState → Store × Option EventWithCount
  update_event_state s event_id state = elim (get_event s event_id) [
    | none ↦ (s, none)
    | some current ↦
        let s' =
          put s (event_key event_id) (event (record (current.event) { state = some state })) in
        (s', get_event s' event_id)
  ]

  unfoldable pub create_event : Store → NewEvent → ℕ → Store × SchoolEvent
  create_event s given now =
      (put s (event_key (new_event_id now)) (event (new_event given now)), new_event given now)
