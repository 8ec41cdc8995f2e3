-- ===== src/Claim/Records.antt =====
-- Reading a record back after a write, and what a write leaves alone.
use instant_grant_core.Prelude.{
  ℕ, ◌<◌, ◌≡◌, refl, ◌≢◌, inl, inr, false, Option, none, some, List, [], ◌∷◌, Text, text_eq,
  text_eq_refl, Bool-cases, arith,
}
use instant_grant_core.Claim.Event.{SchoolEvent}
use instant_grant_core.Claim.State.{
  ClaimHistoryEntry, PendingClaimEntry, ClaimState, serialize_claim_history, serialize_claim_state,
}
use instant_grant_core.Claim.RoundTrip.{IsStored, parse-serialize}
use instant_grant_core.Claim.Storage.{IClaimStorage, Stored, value, event}
use instant_grant_core.Claim.Keys.{claim_key, event_key}
use instant_grant_core.Claim.Store.{is_undefined, read_state, write_state, push_claim, add_claim}
use instant_grant_core.Claim.Events.{
  EventWithCount, get_event, find_event, seed_events, with_policy,
}
use instant_grant_core.Claim.WellFormed.{IsIssued, push_claim-IsStored, push_claim-nonempty}

serialize_claim_history-defined :
    (es : List ClaimHistoryEntry) → es ≢ [] → is_undefined (serialize_claim_history es) ≡ false
unfolding serialize_claim_history
serialize_claim_history-defined [] h = absurd (h refl)
serialize_claim_history-defined (e ∷ []) h = ground arith
serialize_claim_history-defined (e ∷ f ∷ fs) h = refl

serialize-defined :
    (es : List ClaimHistoryEntry) (pending : Option PendingClaimEntry)
    → es ≢ []
    → is_undefined (serialize_claim_state (record { history = es; pending = pending })) ≡ false
unfolding serialize_claim_state
serialize-defined es none h = serialize_claim_history-defined es h
serialize-defined es (some p) h = refl

-- The event that a key's value stands for, with the seed events behind it.
abbrev pub event_at : Text → Stored → Option SchoolEvent
event_at id (event e) = some (with_policy e)
event_at id _ = elim (find_event id seed_events) [ none ↦ none | some e ↦ some (with_policy e) ]

abbrev pub event_of : Option EventWithCount → Option SchoolEvent
event_of none = none
event_of (some found) = some found.event

module _ (storage : IClaimStorage) where
  open storage use {Store, get, put, get-put}

  -- A record with a history that is written is the record that is read, at its key.
  pub read_state-write_state :
      (s : Store) (key : Text) (state : ClaimState)
      → IsStored state
      → state.history ≢ []
      → read_state storage (write_state storage s key state) key ≡ state
  unfolding read_state write_state
  read_state-write_state s key state w h =
      rw
        (
          serialize-defined state.history state.pending h,
          get-put s key (value (serialize_claim_state state)) key,
          text_eq_refl key,
        )
        (parse-serialize state w)

  pub get-write_state :
      (s : Store) (key other : Text) (state : ClaimState)
      → text_eq key other ≡ false
      → get (write_state storage s key state) other ≡ get s other
  unfolding write_state
  get-write_state s key other state h =
      elim (Bool-cases (is_undefined (serialize_claim_state state))) [
        | inl nothing ↦ rw nothing
        | inr something ↦
            rw (something, get-put s key (value (serialize_claim_state state)) other, h)
      ]

  pub read_state-add_claim :
      (s : Store) (event_id subject : Text) (code : Option Text) (now : ℕ)
      → IsStored (read_state storage s (claim_key event_id subject))
      → 0 < now
      → IsIssued code
      → read_state storage
          (add_claim storage s event_id subject code now)
          (claim_key event_id subject)
        ≡ push_claim (read_state storage s (claim_key event_id subject)) now code
  unfolding add_claim
  read_state-add_claim s event_id subject code now w h k =
      read_state-write_state s (claim_key event_id subject) _ (push_claim-IsStored _ now code w h k)
        (push_claim-nonempty _ now code)

  pub event_of-get_event :
      (s : Store) (id : Text)
      → event_of (get_event storage s id) ≡ event_at id (get s (event_key id))
  unfolding get_event
  event_of-get_event s id = ground arith

  claim_key-ne-event_key :
      (event_id subject id : Text) → text_eq (claim_key event_id subject) (event_key id) ≡ false
  unfolding claim_key event_key
  claim_key-ne-event_key event_id subject id = refl

  -- A claim leaves every event as it is.
  pub get_event-add_claim :
      (s : Store) (event_id subject : Text) (code : Option Text) (now : ℕ) (id : Text)
      → event_of (get_event storage (add_claim storage s event_id subject code now) id)
        ≡ event_of (get_event storage s id)
  unfolding add_claim
  get_event-add_claim s event_id subject code now id = rw (
    event_of-get_event (add_claim storage s event_id subject code now) id,
    event_of-get_event s id,
    get-write_state s (claim_key event_id subject) (event_key id) _
        (claim_key-ne-event_key event_id subject id),
  )
