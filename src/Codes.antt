-- ===== src/Codes.antt =====
-- Confirmation codes (api-worker/src/storeDO.ts, genConfirmationCode, ConfirmationCodeIndexRecord,
-- confirmationCodeBelongsToSubject and reserveUniqueConfirmationCode to
-- releaseReservedConfirmationCode). The lock makes each operation one step. The random bytes of each
-- attempt, the clock and the keys of the old receipts are arguments.
pub mod Unique
pub mod Service
mod Tests
use instant_grant_core.Prelude.{
  ℕ, zero, suc, ◌+◌, ◌%◌, Bool, false, ◌&&◌, ◌||◌, not, Option, none, some, List, [], ◌∷◌, map,
  Text, codes, text_eq, trim, is_empty, any, length, get_elem?, if◌then◌else◌, ◌≡◌,
}
use instant_grant_core.Claim.Listing.{split_last}

pub record CodeRecord : Type 0 where
  pub code : Text
  pub event_id : Text
  pub subject : Text
  pub issued_at : ℕ

-- The rows of codes in storage. A row's key is a fixed prefix and the code.
pub record CodeIndex : Type 1 where
  pub Index : Type 0
  pub get : Index → Text → Option CodeRecord
  pub put : Index → Text → CodeRecord → Index
  pub delete : Index → Text → Index
  pub get-put :
      (i : Index) (k : Text) (r : CodeRecord) (j : Text)
      → get (put i k r) j ≡ (if text_eq k j then some r else get i j)
  pub get-delete :
      (i : Index) (k : Text) (j : Text)
      → get (delete i k) j ≡ (if text_eq k j then none else get i j)

abbrev alphabet : Text
alphabet = codes "ABCDEFGHJKLMNPQRSTUVWXYZ23456789"

abbrev letter_or : Option ℕ → ℕ
letter_or none = 0
letter_or (some c) = c

-- One letter for each random byte.
unfoldable pub gen_confirmation_code : List ℕ → Text
gen_confirmation_code bytes = map (λ b. letter_or (get_elem? alphabet (b % length alphabet))) bytes

-- A row counts only with a code, an event and a subject; its time is a number that is always there.
unfoldable pub parse_code_record : CodeRecord → Option CodeRecord
parse_code_record r =
    if is_empty (trim r.code) || is_empty (trim r.event_id) || is_empty (trim r.subject)
    then none
    else some (record {
      code = trim r.code;
      event_id = trim r.event_id;
      subject = trim r.subject;
      issued_at = r.issued_at;
    })

-- The code at the end of an old receipt's key.
abbrev legacy_code : Option (Text × Text) → Option Text
legacy_code none = none
legacy_code (some (before, after)) = if is_empty (trim after) then none else some (trim after)

unfoldable pub legacy_codes : List Text → List Text
legacy_codes [] = []
legacy_codes (key ∷ keys) =
    let rest = legacy_codes keys in
    elim (legacy_code (split_last key)) [ none ↦ rest | some code ↦ code ∷ rest ]

abbrev pub is_among : Text → List Text → Bool
is_among code given = any (λ d. text_eq d code) given

-- A code that was reserved, or why there is none.
pub data Reservation : Type 0 where
  reserved : Text → Reservation
  missing_fields exhausted : Reservation

abbrev pub max_attempts : ℕ
max_attempts = 128

abbrev pub legacy_scan_limit : ℕ
legacy_scan_limit = 20000

abbrev pub take_keys : ℕ → List Text → List Text
take_keys zero keys = []
take_keys (suc n) [] = []
take_keys (suc n) (key ∷ keys) = key ∷ take_keys n keys

abbrev pub holds : CodeRecord → Text → Text → Bool
holds r event_id subject = text_eq r.event_id event_id && text_eq r.subject subject

-- Whether a stored row is the subject's for the event.
abbrev pub is_held_by : Text → Text → Option CodeRecord → Bool
is_held_by event_id subject none = false
is_held_by event_id subject (some r) = elim (parse_code_record r) [
  | none ↦ false
  | some p ↦ holds p event_id subject
]

module _ (rows : CodeIndex) where
  open rows use {Index, get, put, delete}

  -- The attempts that are left, from the one of a number on.
  unfoldable pub try_codes :
      List Text → (ℕ → List ℕ) → Text → Text → ℕ → ℕ → ℕ → Index → Index × Reservation
  try_codes old draws event_id subject now zero attempt i = (i, exhausted)
  try_codes old draws event_id subject now (suc left) attempt i =
      let code = gen_confirmation_code (draws attempt) in
      let rest = try_codes old draws event_id subject now left (attempt + 1) i in
      if is_among code old then rest else elim (get i code) [
        | some r ↦ rest
        | none ↦ (
          put i code
              (record { code = code; event_id = event_id; subject = subject; issued_at = now }),
          reserved code,
        )
      ]

  unfoldable pub reserve_unique_confirmation_code :
      List Text → (ℕ → List ℕ) → Text → Text → ℕ → Index → Index × Reservation
  reserve_unique_confirmation_code keys draws event_id subject now i =
      if is_empty (trim event_id) || is_empty (trim subject)
      then (i, missing_fields)
      else try_codes (legacy_codes (take_keys legacy_scan_limit keys)) draws (trim event_id)
          (trim subject) now max_attempts 0 i

  unfoldable pub ensure_confirmation_code_indexed : Text → Text → Text → ℕ → Index → Index
  ensure_confirmation_code_indexed event_id subject confirmation_code now i =
      let code = trim confirmation_code in
      if is_empty code || is_empty (trim event_id) || is_empty (trim subject)
      then i
      else elim (get i code) [
        | some r ↦ i
        | none ↦ put i code (record {
          code = code;
          event_id = trim event_id;
          subject = trim subject;
          issued_at = now;
        })
      ]

  unfoldable pub release_reserved_confirmation_code : Text → Text → Text → Index → Index
  release_reserved_confirmation_code event_id subject confirmation_code i =
      let code = trim confirmation_code in
      if is_empty code || is_empty (trim event_id) || is_empty (trim subject)
      then i
      else (if is_held_by (trim event_id) (trim subject) (get i code) then delete i code else i)

  unfoldable pub confirmation_code_belongs_to_subject : Text → Text → Text → Index → Bool
  confirmation_code_belongs_to_subject event_id subject confirmation_code i =
      not (is_empty (trim confirmation_code) || is_empty (trim event_id) || is_empty (trim subject))
      && is_held_by (trim event_id) (trim subject) (get i (trim confirmation_code))
