-- ===== src/Claim/Answers.antt =====
-- What each operation of the claim store answers and leaves behind, errors included.
use instant_grant_core.Prelude.{
  ℕ, ◌≡◌, refl, subst, ◌≢◌, inl, inr, true, false, Option, none, some, Text, text_eq_refl, is_empty,
  Bool-cases, Option-cases, if◌then◌else◌, arith,
}
use instant_grant_core.Claim.Event.{SchoolEvent, EventState}
use instant_grant_core.Claim.State.{PendingClaimEntry, ClaimState}
use instant_grant_core.Claim.RoundTrip.{IsStored}
use instant_grant_core.Claim.Storage.{IClaimStorage, event}
use instant_grant_core.Claim.Keys.{claim_key, event_key, normalize_subject}
use instant_grant_core.Claim.Store.{
  read_state, write_state, get_claimed_count, resolve_pending_claim, resolves, code_or_empty,
}
use instant_grant_core.Claim.Events.{
  EventWithCount, NewEvent, get_event, update_event_state, create_event, new_event, new_event_id,
  with_policy,
}
use instant_grant_core.Claim.Submit.{
  ClaimBody, SchoolClaimErrorCode, invalid, not_found, eligibility, wallet_required, failure, Clock,
  trimmed_or_empty, is_open, submit_for, submit_with, submit_claim,
}
use instant_grant_core.Claim.Records.{read_state-write_state}

same_pending :
    (state : ClaimState) (p : PendingClaimEntry)
    → state.pending ≡ some p
    → state ≡ record state { pending = some p }
same_pending state p h = ground arith

module _ (storage : IClaimStorage) where
  open storage use {Store, get, put, get-put}

  -- Why a submission fails.
  abbrev pub Reason : Store → ClaimBody → SchoolClaimErrorCode → Type 0
  Reason s body invalid = is_empty (trimmed_or_empty body.event_id) ≡ true
  Reason s body not_found = get_event storage s (trimmed_or_empty body.event_id) ≡ none
  Reason s body eligibility =
      (found : EventWithCount) × (get_event storage s (trimmed_or_empty body.event_id) ≡ some found)
      × (is_open found.event.state ≡ false)
  Reason s body wallet_required = normalize_subject body.wallet_address body.join_token ≡ none

  submit_for-success :
      (s : Store) (id : Text) (e : SchoolEvent) (subject : Text) (code : Option Text)
      (clock : Clock) (c : SchoolClaimErrorCode)
      → (submit_for storage s id e subject code clock).1 ≢ failure c
  unfolding submit_for
  submit_for-success s id e subject code clock c h = ground arith

  Reason-same :
      (s : Store) (body : ClaimBody) (d c : SchoolClaimErrorCode)
      → failure d ≡ failure c
      → Reason s body d
      → Reason s body c
  Reason-same s body d c h r = let same : d ≡ c = cc in subst (Reason s body) same r

  submit_with-failure :
      (s : Store) (body : ClaimBody) (code : Option Text) (clock : Clock)
      (o : Option EventWithCount) (c : SchoolClaimErrorCode)
      → get_event storage s (trimmed_or_empty body.event_id) ≡ o
      → (submit_with storage s (trimmed_or_empty body.event_id) body code clock o).1 ≡ failure c
      → Reason s body c
        × ((submit_with storage s (trimmed_or_empty body.event_id) body code clock o).0 ≡ s)
  unfolding submit_with
  submit_with-failure s body code clock none c found h =
      (Reason-same s body not_found c h found, refl)
  submit_with-failure s body code clock (some there) c found h =
      elim (Bool-cases (is_open there.event.state)) [
        | inl taking ↦ elim (Option-cases (normalize_subject body.wallet_address body.join_token)) [
          | inl nobody ↦
              let h' : failure wallet_required ≡ failure c =
                rw (taking, nobody, submit_with) at h in
              rw (taking, nobody, submit_with)
                (Reason-same s body wallet_required c h' nobody, refl)
          | inr (subject, named) ↦ absurd (
              submit_for-success s (trimmed_or_empty body.event_id) there.event subject code clock c
                (ground arith))
        ]
        | inr shut ↦
            let h' : failure eligibility ≡ failure c = rw shut at h in
            rw shut (Reason-same s body eligibility c h' (there, found, shut), refl)
      ]

  -- A submission that fails changes nothing, and fails for the reason that its code names.
  pub submit_claim-failure :
      (s : Store) (body : ClaimBody) (code : Option Text) (clock : Clock) (c : SchoolClaimErrorCode)
      → (submit_claim storage s body code clock).1 ≡ failure c
      → Reason s body c × ((submit_claim storage s body code clock).0 ≡ s)
  unfolding submit_claim
  submit_claim-failure s body code clock c h =
      elim (Bool-cases (is_empty (trimmed_or_empty body.event_id))) [
        | inl nothing ↦
            let h' : failure invalid ≡ failure c = rw nothing at h in
            rw nothing (Reason-same s body invalid c h' nothing, refl)
        | inr something ↦ rw something (
            submit_with-failure s body code clock
              (get_event storage s (trimmed_or_empty body.event_id)) c refl (rw something at h))
      ]

  stored_event :
      (s : Store) (id : Text) (e : SchoolEvent)
      → (found : EventWithCount) × (get_event storage (put s (event_key id) (event e)) id
          ≡ some found)
        × (found.event ≡ with_policy e)
  unfolding get_event
  stored_event s id e =
      let there : get (put s (event_key id) (event e)) (event_key id) ≡ event e =
        rw (get-put s (event_key id) (event e) (event_key id), text_eq_refl (event_key id)) in
      (
        record {
          event = with_policy e;
          claimed_count = get_claimed_count storage (put s (event_key id) (event e)) id;
        },
        rw (there, get_event),
        refl,
      )

  -- An event that is created is found under its id, with its policy resolved; it is open unless the
  -- request says otherwise.
  pub get_event-create_event :
      (s : Store) (given : NewEvent) (now : ℕ)
      → (found : EventWithCount) × (get_event storage
            (create_event storage s given now).0
            (create_event storage s given now).1.id
          ≡ some found)
        × (found.event ≡ with_policy (new_event given now))
  unfolding create_event new_event with_policy
  get_event-create_event s given now = stored_event s (new_event_id now) (new_event given now)

  -- Changing the state of an event that exists: the answer is the event that is found from then on,
  -- in the new state.
  pub update_event_state-found :
      (s : Store) (id : Text) (state : EventState) (current : EventWithCount)
      → get_event storage s id ≡ some current
      → (found : EventWithCount) × ((update_event_state storage s id state).1 ≡ some found)
        × (get_event storage (update_event_state storage s id state).0 id ≡ some found)
        × (found.event ≡ with_policy (record (current.event) { state = some state }))
  unfolding update_event_state
  update_event_state-found s id state current h =
      let (found, got, same) = stored_event s id (record (current.event) { state = some state }) in
      (found, rw (h, update_event_state) got, rw (h, update_event_state) got, same)

  -- An event that does not exist is not made by a change of its state.
  pub update_event_state-missing :
      (s : Store) (id : Text) (state : EventState)
      → get_event storage s id ≡ none
      → update_event_state storage s id state ≡ (s, none)
  unfolding update_event_state
  update_event_state-missing s id state h = rw (h, update_event_state)

  -- Resolving with a code that matches, or with none, clears the pending entry of a well-formed
  -- record and keeps its history; any other code leaves the record as it is.
  pub read_state-resolve_pending_claim :
      (s : Store) (event_id subject : Text) (code : Option Text) (p : PendingClaimEntry)
      → IsStored (read_state storage s (claim_key event_id subject))
      → (read_state storage s (claim_key event_id subject)).pending ≡ some p
      → read_state storage
          (resolve_pending_claim storage s event_id subject code)
          (claim_key event_id subject)
        ≡ record (read_state storage s (claim_key event_id subject)) {
          pending = if resolves (code_or_empty code) p then none else some p;
        }
  unfolding resolve_pending_claim
  read_state-resolve_pending_claim s event_id subject code p w h =
      let state = read_state storage s (claim_key event_id subject) in
      elim (Bool-cases (resolves (code_or_empty code) p)) [
        | inl clears ↦
            let cleared : IsStored (record state { pending = none }) = record {
              entries = w.entries;
              sorted = w.sorted;
              pending_at = λ q e. cc;
              pending_code = λ q e. cc;
              pending_claim = λ q e. cc;
            } in
            let left : resolve_pending_claim storage s event_id subject code
                ≡ write_state storage s (claim_key event_id subject)
                    (record state { pending = none }) =
              rw (h, resolve_pending_claim, clears) in
            rw (left, clears)
              (read_state-write_state storage s (claim_key event_id subject)
                (record state { pending = none }) cleared (w.pending_claim p h))
        | inr keeps ↦
            let left : resolve_pending_claim storage s event_id subject code ≡ s =
              rw (h, resolve_pending_claim, keeps) in
            rw (left, keeps) (same_pending state p h)
      ]
