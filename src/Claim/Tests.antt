-- ===== src/Claim/Tests.antt =====
-- Runs of the claim store over an association list, and its theorems at inputs that meet their
-- hypotheses.
use instant_grant_core.Prelude.{
  ℕ, ◌+◌, ◌-◌, ◌≤◌, ◌<◌, ◌≡◌, refl, subst, true, false, Option, none, some, List, [], ◌∷◌, Text,
  codes, trim, trim_start, trim_end, keep_before, is_space, text_eq, text_eq_iff, starts_with,
  if◌then◌else◌, arith,
}
use instant_grant_core.Claim.Onchain.{ConfirmedOnchainClaim}
use instant_grant_core.Js.{number, finite, pos, integer, undefined, parse_positive_int}
use instant_grant_core.Claim.Event.{SchoolEvent, published}
use instant_grant_core.Claim.State.{
  ClaimState, PendingClaimEntry, parse_claim_state, serialize_claim_state, parse_claim_history,
  parse_pending_claim, parse_history_field, parse_items, parse_entry, parse_code,
  serialize_claim_history, sort_by_at, insert_by_at,
}
use instant_grant_core.Claim.Store.{
  check_claim_allowance, get_claim_quota_status, get_claim_history, read_state, write_state,
  add_claim, push_claim, trim_history, get_claimed_count,
}
use instant_grant_core.Claim.Events.{NewEvent, get_event, find_event, with_policy}
use instant_grant_core.Claim.Quota.{
  quota_of, window_ms, resolve_claim_policy, in_window, build_claim_quota_status,
}
use instant_grant_core.Claim.Storage.{IClaimStorage, Stored, absent, event, listed}
use instant_grant_core.Claim.Keys.{claim_key, event_key, normalize_subject, collapse, claim_prefix}
use instant_grant_core.Claim.Submit.{
  ClaimBody, not_found, Clock, submit_claim, submit_with, submit_for,
}
use instant_grant_core.Claim.Answers.{submit_claim-failure}
use instant_grant_core.Claim.Beyond.{push_claim-never_full}
use instant_grant_core.Claim.Listing.{parse_claim_key}
use instant_grant_core.Claim.KeyLaws.{parse_claim_key-claim_key, parse_claim_key-colon}
use instant_grant_core.Claim.WellFormed.{push_claim-IsStored}
use instant_grant_core.Claim.Availability.{limited_policy, next_available_at-exact}
use instant_grant_core.Claim.RoundTrip.{parse-serialize, IsStored, IsCode}
use instant_grant_core.Claim.Run.{granted_from, Submissions, InOrder, submit_all}
use instant_grant_core.Claim.Window.{submit_all-within_limit}

abbrev Rows : Type 0
Rows = List (Text × Stored)

abbrev keep_prefix : Text → Rows → Rows
keep_prefix prefix [] = []
keep_prefix prefix ((k, v) ∷ rows) =
    let rest = keep_prefix prefix rows in if starts_with prefix k then (k, v) ∷ rest else rest

abbrev put_row : Text → Stored → Rows → Rows
put_row k v [] = (k, v) ∷ []
put_row k v ((j, w) ∷ rows) =
    let rest = put_row k v rows in if text_eq j k then (k, v) ∷ rows else (j, w) ∷ rest

listed-put_row :
    (rows : Rows) (k : Text) (v : Stored) (j : Text)
    → listed j (put_row k v rows) ≡ (if text_eq k j then v else listed j rows)
listed-put_row [] k v j = refl
listed-put_row ((i, w) ∷ rows) k v j =
    ground (arith, text_eq_iff k j, text_eq_iff i k, text_eq_iff i j, listed-put_row rows k v j)

listed-keep_prefix :
    (rows : Rows) (prefix key : Text)
    → listed key (keep_prefix prefix rows)
      ≡ (if starts_with prefix key then listed key rows else absent)
listed-keep_prefix [] prefix key = ground arith
listed-keep_prefix ((k, v) ∷ rows) prefix key =
    ground (arith, text_eq_iff k key, listed-keep_prefix rows prefix key)

-- A store that keeps one row for each key.
abbrev memory : IClaimStorage
memory = record {
  Store = Rows;
  get = λ rows k. listed k rows;
  put = λ rows k v. put_row k v rows;
  list = λ rows prefix. keep_prefix prefix rows;
  get-put = listed-put_row;
  listed-list = listed-keep_prefix;
}

abbrev club : SchoolEvent
club = record {
  id = codes "evt-club";
  title = codes "Club";
  datetime = codes "2026/03/01";
  host = codes "School";
  state = some published;
  risk_profile = none;
  solana_mint = none;
  solana_authority = none;
  solana_grant_id = none;
  ticket_token_amount = none;
  claim_interval_days = integer 1;
  max_claims_per_interval = integer 2;
}

abbrev with_club : Rows
with_club = (event_key (codes "evt-club"), event club) ∷ []

abbrev by_ann : ClaimBody
by_ann = record {
  event_id = some (codes " evt-club ");
  wallet_address = some (codes " ann ");
  join_token = none;
}

abbrev at_time : ℕ → Option Text × Clock
at_time t = (some (codes "AB12CD"), record { checked = t; added = t + 1; answered = t + 2 })

-- The third claim comes too early, the fourth after the first has aged out.
abbrev four_submissions : Submissions
four_submissions = at_time 1000 ∷ at_time 2000 ∷ at_time 3000 ∷ at_time (86400000 + 5000) ∷ []

claim_store : Unit {0}
unfolding submit_all submit_claim submit_with submit_for check_claim_allowance
    get_claim_quota_status build_claim_quota_status get_claim_history quota_of in_window window_ms
    resolve_claim_policy parse_positive_int read_state write_state parse_claim_state
    parse_claim_history parse_pending_claim parse_history_field parse_items parse_entry parse_code
    serialize_claim_state serialize_claim_history add_claim push_claim trim_history sort_by_at
    insert_by_at claim_key event_key normalize_subject collapse trim trim_start trim_end keep_before
    is_space get_event find_event get_claimed_count claim_prefix with_policy
claim_store = tt

four_submissions_test :
    (submit_all memory by_ann with_club [] four_submissions).1 ≡ (86405001 ∷ 2001 ∷ 1001 ∷ [])
unfolding claim_store
four_submissions_test = refl

issued-IsCode : IsCode (codes "AB12CD")
unfolding claim_store
issued-IsCode = (refl, refl)

in_order : InOrder 1 four_submissions
in_order =
    let c = issued-IsCode in
    (
      omega arith,
      omega arith,
      omega arith,
      c,
      (
        omega arith,
        omega arith,
        omega arith,
        c,
        (omega arith, omega arith, omega arith, c, (omega arith, omega arith, omega arith, c, tt)),
      ),
    )

submit_all-within_limit_example :
    granted_from (86405500 - window_ms 1) (submit_all memory by_ann with_club [] four_submissions).1
    ≤ 2
unfolding claim_store
submit_all-within_limit_example =
    submit_all-within_limit memory (codes "evt-club") (codes "ann") club 1 2 by_ann refl refl refl
      refl with_club four_submissions 1 86405500 refl (omega arith) in_order refl refl (omega arith)

abbrev awaited : PendingClaimEntry
awaited = record { at = 2000; code = codes "AB12CD" }

abbrev two_claims : ClaimState
two_claims = record {
  history =
      record { at = 1000; code = none } ∷ record { at = 2000; code = some (codes "AB12CD") } ∷ [];
  pending = some awaited;
}

two_claims-IsStored : IsStored two_claims
two_claims-IsStored = record {
  entries = (
    (omega arith, λ code e. cc),
    (
      (
        omega arith,
        λ code e. let same : codes "AB12CD" ≡ code = cc in subst IsCode same issued-IsCode,
      ),
      tt,
    ),
  );
  sorted = ((omega arith, tt), (tt, tt));
  pending_at = λ p e. let same : awaited ≡ p = cc in subst (λ q. 0 < q.at) same (omega arith);
  pending_code =
      λ p e. let same : awaited ≡ p = cc in subst (λ q. IsCode q.code) same issued-IsCode;
  pending_claim = λ p e nothing. cc;
}

parse-serialize_example : parse_claim_state (serialize_claim_state two_claims) ≡ two_claims
parse-serialize_example = parse-serialize two_claims two_claims-IsStored

push_claim-IsStored_example : IsStored (push_claim two_claims 1500 (some (codes "AB12CD")))
push_claim-IsStored_example =
    push_claim-IsStored two_claims 1500 (some (codes "AB12CD")) two_claims-IsStored (omega arith)
      issued-IsCode

next_available_at-exact_example :
    ((quota_of (limited_policy 1 2) two_claims.history 86401000).can_claim_now ≡ false)
    × ((quota_of (limited_policy 1 2) two_claims.history 86401001).can_claim_now ≡ true)
unfolding claim_store
next_available_at-exact_example =
    next_available_at-exact 1 2 3000 86401000 two_claims.history ((omega arith, tt), (tt, tt)) refl

push_claim-never_full_example :
    (quota_of (limited_policy 1 501) (push_claim two_claims 3000 none).history 3001).can_claim_now
    ≡ true
push_claim-never_full_example = push_claim-never_full 1 501 3000 3001 two_claims none (omega arith)

parse_claim_key-claim_key_example :
    parse_claim_key (claim_key (codes "evt-club") (codes "ann"))
    ≡ some (codes "evt-club", codes "ann")
parse_claim_key-claim_key_example =
    parse_claim_key-claim_key (codes "evt-club") (codes "ann") refl refl refl

parse_claim_key-colon_example :
    (parse_claim_key (claim_key (codes "evt-club") (codes "x:ann"))
      ≡ some (codes "evt-club:x", codes "ann"))
    × (parse_claim_key (claim_key (codes "evt-club") (codes "x:")) ≡ none)
parse_claim_key-colon_example =
    parse_claim_key-colon (codes "evt-club") (codes "x") (codes "ann") refl refl refl

submit_claim-failure_example :
    (get_event memory [] (codes "evt-club") ≡ none)
    × ((submit_claim memory [] by_ann none (record { checked = 1; added = 1; answered = 1 })).0
        ≡ [])
unfolding claim_store
submit_claim-failure_example =
    submit_claim-failure memory [] by_ann none (record { checked = 1; added = 1; answered = 1 })
      not_found refl

abbrev given_club : NewEvent
given_club = record {
  title = codes "Club";
  datetime = codes "2026/03/01";
  host = codes "School";
  state = none;
  risk_profile = none;
  solana_mint = none;
  solana_authority = none;
  solana_grant_id = none;
  ticket_token_amount = none;
  claim_interval_days = integer 7;
  max_claims_per_interval = undefined;
}

abbrev with_two_claims : Rows
with_two_claims = write_state memory [] (claim_key (codes "evt-club") (codes "ann")) two_claims

abbrev confirmed_at : ℕ → ConfirmedOnchainClaim
confirmed_at t = record {
  at = t;
  confirmation_code = none;
  tx_signature = none;
  receipt_pubkey = none;
}

abbrev half_club : SchoolEvent
half_club = record club { max_claims_per_interval = number (finite (pos 0) true) }
