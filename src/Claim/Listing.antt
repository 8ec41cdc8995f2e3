-- ===== src/Claim/Listing.antt =====
-- Listings of claims by event and by subject (api-worker/src/claimLogic.ts, getClaimants and
-- getClaimsBySubject).
use instant_grant_core.Prelude.{
  ℕ, Option, none, some, List, [], ◌∷◌, Text, text_eq, trim, is_empty, starts_with, leb, ◌==◌,
  length, drop, if◌then◌else◌,
}
use instant_grant_core.Claim.State.{ClaimHistoryEntry, parse_claim_state, latest_of}
use instant_grant_core.Claim.Storage.{IClaimStorage, Stored, stored_value}
use instant_grant_core.Claim.Keys.{claim_prefix, claim_prefix_text}
use instant_grant_core.Claim.Store.{Claimant, SubjectClaim}

-- The text before and after the last colon.
unfoldable pub split_last : Text → Option (Text × Text)
split_last [] = none
split_last (c ∷ s) = elim (split_last s) [
  | none ↦ if c == b':' then some ([], s) else none
  | some (before, after) ↦ some (c ∷ before, after)
]

-- Both halves are there: the colon is neither the first nor the last character.
abbrev whole : Option (Text × Text) → Option (Text × Text)
whole none = none
whole (some (before, after)) =
    if is_empty before then none else (if is_empty after then none else some (before, after))

-- The event and the subject that a key is read as.
unfoldable pub parse_claim_key : Text → Option (Text × Text)
unfolding split_last
parse_claim_key key =
    if starts_with claim_prefix_text key
    then whole (split_last (drop (length claim_prefix_text) key))
    else none

abbrev claimant_of : Text → List ClaimHistoryEntry → Claimant
claimant_of subject [] = record { subject = subject; claimed_at = 0; confirmation_code = none }
claimant_of subject (e ∷ es) = record {
  subject = subject;
  claimed_at = (latest_of e es).at;
  confirmation_code = (latest_of e es).code;
}

-- `sort((a, b) => a.claimedAt - b.claimedAt)`
unfoldable pub insert_claimant : Claimant → List Claimant → List Claimant
insert_claimant c [] = c ∷ []
insert_claimant c (d ∷ ds) =
    let rest = insert_claimant c ds in
    if leb c.claimed_at d.claimed_at then c ∷ d ∷ ds else d ∷ rest

unfoldable pub claimants_of : ℕ → List (Text × Stored) → List Claimant
claimants_of prefix_length [] = []
claimants_of prefix_length ((key, v) ∷ rows) =
    insert_claimant
      (claimant_of (drop prefix_length key) (parse_claim_state (stored_value v)).history)
      (claimants_of prefix_length rows)

abbrev claim_of : Text → List ClaimHistoryEntry → Option SubjectClaim
claim_of event_id [] = none
claim_of event_id (e ∷ es) = some (record {
  event_id = event_id;
  claimed_at = (latest_of e es).at;
  confirmation_code = (latest_of e es).code;
})

-- The row of one key, if it is a claim of the subject.
unfoldable pub subject_row : Text → Text → Stored → Option SubjectClaim
subject_row subject key v = elim (parse_claim_key key) [
  | none ↦ none
  | some (event_id, claim_subject) ↦
      if text_eq claim_subject subject
      then claim_of event_id (parse_claim_state (stored_value v)).history
      else none
]

-- `sort((a, b) => b.claimedAt - a.claimedAt)`
unfoldable pub insert_newest : SubjectClaim → List SubjectClaim → List SubjectClaim
insert_newest c [] = c ∷ []
insert_newest c (d ∷ ds) =
    let rest = insert_newest c ds in if leb d.claimed_at c.claimed_at then c ∷ d ∷ ds else d ∷ rest

unfoldable pub subject_rows : Text → List (Text × Stored) → List SubjectClaim
subject_rows subject [] = []
subject_rows subject ((key, v) ∷ rows) =
    let rest = subject_rows subject rows in
    elim (subject_row subject key v) [ none ↦ rest | some c ↦ insert_newest c rest ]

module _ (storage : IClaimStorage) where
  open storage use {Store, list}

  unfoldable pub get_claimants : Store → Text → List Claimant
  get_claimants s event_id =
      claimants_of (length (claim_prefix event_id)) (list s (claim_prefix event_id))

  unfoldable pub get_claims_by_subject : Store → Text → List SubjectClaim
  get_claims_by_subject s subject =
      if is_empty (trim subject) then [] else subject_rows (trim subject) (list s claim_prefix_text)
