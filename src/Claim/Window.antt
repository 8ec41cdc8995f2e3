-- ===== src/Claim/Window.antt =====
-- The limit over a whole run of submissions by one subject for one event: what is granted is
-- counted beside the store, so that a history that forgets claims would show.
use instant_grant_core.Prelude.{
  ℕ, ◌+◌, ◌-◌, ◌≤◌, ◌<◌, min, ◌≡◌, ◌⊎◌, inl, inr, true, false, Option, none, some, List, [], ◌∷◌,
  ◌++◌, Text, leb, Bool-cases, Option-cases, if◌then◌else◌, is_empty, arith,
}
use instant_grant_core.Claim.Event.{SchoolEvent}
use instant_grant_core.Claim.State.{
  ClaimHistoryEntry, ClaimState, sort_by_at, parse_claim_state, parse_claim_history,
  parse_pending_claim,
}
use instant_grant_core.Claim.RoundTrip.{IsStored}
use instant_grant_core.Claim.Availability.{count_from, limited_policy}
use instant_grant_core.Claim.Quota.{
  resolve_claim_policy, quota_of, in_window, build_claim_quota_status, window_ms,
}
use instant_grant_core.Claim.Storage.{IClaimStorage, absent}
use instant_grant_core.Claim.Keys.{claim_key, normalize_subject}
use instant_grant_core.Claim.Store.{
  read_state, push_claim, add_claim, check_claim_allowance, get_claim_history,
}
use instant_grant_core.Claim.Events.{get_event}
use instant_grant_core.Claim.Submit.{
  ClaimBody, Clock, submit_for, submit_with, submit_claim, trimmed_or_empty, is_open,
}
use instant_grant_core.Claim.WellFormed.{
  IsIssued, push_claim-IsStored, count_from-append, count_from-sort_by_at, count_from-trim_history,
  sort_by_at-IsSorted,
}
use instant_grant_core.Claim.Run.{granted, granted_from, Submissions, InOrder, end_of, submit_all}
use instant_grant_core.Claim.Records.{read_state-add_claim, event_of, get_event-add_claim}

count_from_mono : (a b : ℕ) (h : List ClaimHistoryEntry) → a ≤ b → count_from b h ≤ count_from a h
count_from_mono a b [] le = omega arith
count_from_mono a b (x ∷ xs) le = ground (arith, count_from_mono a b xs le)

-- What one claim does to the count of entries not older than `a`.
count_from-push_claim :
    (a : ℕ) (state : ClaimState) (now : ℕ) (code : Option Text)
    → count_from a (push_claim state now code).history
      ≡ min (count_from a state.history + (if leb a now then 1 else 0)) 500
unfolding push_claim
count_from-push_claim a state now code =
    let one : List ClaimHistoryEntry = record { at = now; code = code } ∷ [] in
    rw
      (
        count_from-trim_history a (sort_by_at (state.history ++ one)) (sort_by_at-IsSorted _),
        count_from-sort_by_at a (state.history ++ one),
        count_from-append a state.history one,
      )
      (ground arith)

quota-room :
    (days most now : ℕ) (h : List ClaimHistoryEntry)
    → (quota_of (limited_policy days most) h now).can_claim_now ≡ true
    → count_from (now - window_ms days) h < most
unfolding quota_of in_window
quota-room days most now h allowed = ground arith

module _ (storage : IClaimStorage) (event_id subject : Text) where
  open storage use {Store, get}

  abbrev state_of : Store → ClaimState
  state_of s = read_state storage s (claim_key event_id subject)

  module _ (e : SchoolEvent) (days most : ℕ) where
    -- The record counts every granted claim that can still matter.
    record IsTracked (now : ℕ) (s : Store) (log : List ℕ) : Type 0 where
      stored : IsStored (state_of s)
      counted :
          (a : ℕ)
          → now ≤ a + window_ms days
          → count_from a (state_of s).history ≡ granted_from a log
      limited : (a : ℕ) → now ≤ a + window_ms days → granted_from a log ≤ most

    allowed-count :
        (s : Store) (now : ℕ)
        → resolve_claim_policy (some e) ≡ limited_policy days most
        → (check_claim_allowance storage s event_id subject (some e) now).allowed ≡ true
        → count_from (now - window_ms days) (state_of s).history < most
    unfolding check_claim_allowance build_claim_quota_status get_claim_history
    allowed-count s now p h = quota-room days most now (state_of s).history (rw p at h)

    add_claim-IsTracked :
        (before checked added : ℕ) (s : Store) (log : List ℕ) (code : Option Text)
        → most ≤ 500
        → before ≤ checked
        → checked ≤ added
        → 0 < added
        → IsIssued code
        → count_from (checked - window_ms days) (state_of s).history < most
        → IsTracked before s log
        → IsTracked added (add_claim storage s event_id subject code added) (added ∷ log)
    add_claim-IsTracked before checked added s log code small le le' positive issued room t =
        let same =
          read_state-add_claim storage s event_id subject code added t.stored positive issued in
        record {
          stored = rw same (push_claim-IsStored (state_of s) added code t.stored positive issued);
          counted = λ a h. rw same (
              ground (
                arith,
                count_from-push_claim a (state_of s) added code,
                count_from_mono (checked - window_ms days) a (state_of s).history,
                t.counted a (omega arith),
              ));
          limited = λ a h. ground (
            arith,
            count_from_mono (checked - window_ms days) a (state_of s).history,
            t.counted a (omega arith),
            t.limited a (omega arith),
          );
        }

    IsTracked-later :
        (now later : ℕ) (s : Store) (log : List ℕ)
        → now ≤ later
        → IsTracked now s log
        → IsTracked later s log
    IsTracked-later now later s log le t = record {
      stored = t.stored;
      counted = λ a h. t.counted a (omega arith);
      limited = λ a h. t.limited a (omega arith);
    }

    submit_for-cases :
        (s : Store) (code : Option Text) (clock : Clock) (log : List ℕ)
        → (((submit_for storage s event_id e subject code clock).0 ≡ s)
            × (granted (submit_for storage s event_id e subject code clock).1 clock.added log
                ≡ log))
          ⊎ (((check_claim_allowance storage s event_id subject (some e) clock.checked).allowed
                ≡ true)
              × ((submit_for storage s event_id e subject code clock).0
                  ≡ add_claim storage s event_id subject code clock.added)
              × (granted (submit_for storage s event_id e subject code clock).1 clock.added log
                  ≡ clock.added ∷ log))
    unfolding submit_for
    submit_for-cases s code clock log =
        elim (Bool-cases
          (check_claim_allowance storage s event_id subject (some e) clock.checked).allowed) [
            | inl allowed ↦ inr (allowed, rw allowed, rw allowed)
            | inr full ↦ inl (rw full, rw full)
          ]

    fresh-IsTracked :
        (s : Store) (now : ℕ) → get s (claim_key event_id subject) ≡ absent → IsTracked now s []
    unfolding read_state parse_claim_state parse_claim_history parse_pending_claim
    fresh-IsTracked s now fresh = record {
      stored = rw fresh (record {
        entries = tt;
        sorted = tt;
        pending_at = λ p h. cc;
        pending_code = λ p h. cc;
        pending_claim = λ p h. cc;
      });
      counted = λ a h. rw fresh;
      limited = λ a h. omega arith;
    }

    module _ (body : ClaimBody) (for_event : trimmed_or_empty body.event_id ≡ event_id)
        (named : is_empty event_id ≡ false)
        (by_subject : normalize_subject body.wallet_address body.join_token ≡ some subject)
        (taking : is_open e.state ≡ true) where
      submit_with-open :
          (s : Store) (code : Option Text) (clock : Clock) (n : ℕ)
          → submit_with storage s event_id body code clock
              (some (record { event = e; claimed_count = n }))
            ≡ submit_for storage s event_id e subject code clock
      unfolding submit_with
      submit_with-open s code clock n = rw (taking, by_subject)

      submit_claim-submit_for :
          (s : Store) (code : Option Text) (clock : Clock)
          → event_of (get_event storage s event_id) ≡ some e
          → submit_claim storage s body code clock
            ≡ submit_for storage s event_id e subject code clock
      unfolding submit_claim
      submit_claim-submit_for s code clock found =
          elim (Option-cases (get_event storage s event_id)) [
            | inl missing ↦ let none_found : event_of none ≡ some e = rw missing at found in cc
            | inr (there, got) ↦
                let got' : get_event storage s event_id
                    ≡ some (record { event = e; claimed_count = there.claimed_count }) =
                  ground arith in
                rw (for_event, named, got') (submit_with-open s code clock there.claimed_count)
          ]

      -- One submission: refused and without effect, or granted with room in the window.
      submit_claim-cases :
          (s : Store) (code : Option Text) (clock : Clock) (log : List ℕ)
          → event_of (get_event storage s event_id) ≡ some e
          → (((submit_claim storage s body code clock).0 ≡ s)
              × (granted (submit_claim storage s body code clock).1 clock.added log ≡ log))
            ⊎ (((check_claim_allowance storage s event_id subject (some e) clock.checked).allowed
                  ≡ true)
                × ((submit_claim storage s body code clock).0
                    ≡ add_claim storage s event_id subject code clock.added)
                × (granted (submit_claim storage s body code clock).1 clock.added log
                    ≡ clock.added ∷ log))
      submit_claim-cases s code clock log found =
          rw (submit_claim-submit_for s code clock found) (submit_for-cases s code clock log)

      submit_claim-IsTracked :
          (s : Store) (code : Option Text) (clock : Clock) (now : ℕ) (log : List ℕ)
          → resolve_claim_policy (some e) ≡ limited_policy days most
          → most ≤ 500
          → now ≤ clock.checked
          → clock.checked ≤ clock.added
          → 0 < clock.added
          → IsIssued code
          → event_of (get_event storage s event_id) ≡ some e
          → IsTracked now s log
          → IsTracked clock.added
              (submit_claim storage s body code clock).0
              (granted (submit_claim storage s body code clock).1 clock.added log)
            × (event_of (get_event storage (submit_claim storage s body code clock).0 event_id)
                ≡ some e)
      submit_claim-IsTracked s code clock now log policy small le le' positive issued found t =
          elim (submit_claim-cases s code clock log found) [
            | inl (same, kept) ↦
                rw (same, kept) (IsTracked-later now clock.added s log (omega arith) t, found)
            | inr (allowed, added, logged) ↦
                rw (added, logged)
                  (
                    add_claim-IsTracked now clock.checked clock.added s log code small le le'
                        positive issued (allowed-count s clock.checked policy allowed) t,
                    rw (get_event-add_claim storage s event_id subject code clock.added event_id)
                        found,
                  )
          ]

      submit_all-IsTracked :
          (s : Store) (now : ℕ) (log : List ℕ) (rest : Submissions)
          → resolve_claim_policy (some e) ≡ limited_policy days most
          → most ≤ 500
          → InOrder now rest
          → event_of (get_event storage s event_id) ≡ some e
          → IsTracked now s log
          → IsTracked
              (end_of now rest)
              (submit_all storage body s log rest).0
              (submit_all storage body s log rest).1
      unfolding submit_all
      submit_all-IsTracked s now log [] policy small order found t = t
      submit_all-IsTracked s now log ((code, clock) ∷ rest) policy small order found t =
          let (t', found') =
            submit_claim-IsTracked s code clock now log policy small order.0 order.1 order.2 order.3
              found t in
          submit_all-IsTracked (submit_claim storage s body code clock).0 clock.added
            (granted (submit_claim storage s body code clock).1 clock.added log) rest policy small
            order.4 found' t'

      -- Whatever submissions a subject with no record makes for one open event, in clock order at
      -- times above zero and with no codes or trimmed ones, from a policy of at most 500 claims an
      -- interval: at their end and at any later time, the claims granted within the interval are no
      -- more than the policy allows.
      pub submit_all-within_limit :
          (s : Store) (rest : Submissions) (start now : ℕ)
          → resolve_claim_policy (some e) ≡ limited_policy days most
          → most ≤ 500
          → InOrder start rest
          → event_of (get_event storage s event_id) ≡ some e
          → get s (claim_key event_id subject) ≡ absent
          → end_of start rest ≤ now
          → granted_from (now - window_ms days) (submit_all storage body s [] rest).1 ≤ most
      submit_all-within_limit s rest start now policy small order found fresh later =
          let t =
            submit_all-IsTracked s start [] rest policy small order found
              (fresh-IsTracked s start fresh) in
          t.limited (now - window_ms days) (omega arith)
