-- ===== src/Codes/Tests.antt =====
-- Codes in an index that is a function, and the theorems at inputs that meet their hypotheses.
use instant_grant_core.Prelude.{
  ℕ, ◌==◌, ◌≡◌, refl, false, Option, none, some, List, [], ◌∷◌, Text, codes, text_eq, if◌then◌else◌,
  arith, trim, trim_start, trim_end, keep_before, is_space,
}
use instant_grant_core.Claim.Listing.{split_last}
use instant_grant_core.Codes.{
  CodeRecord, CodeIndex, gen_confirmation_code, parse_code_record, legacy_codes, is_among, reserved,
  try_codes, reserve_unique_confirmation_code, ensure_confirmation_code_indexed,
  release_reserved_confirmation_code, confirmation_code_belongs_to_subject,
}
use instant_grant_core.Codes.Unique.{
  CodeOperation, reserving, ensuring, releasing, operate_all, IsGranted,
  reserve_unique_confirmation_code-IsGranted, operate_all-kept,
}
use instant_grant_core.Codes.Service.{reserve_unique_confirmation_code-reserved}

abbrev in_memory : CodeIndex
in_memory = record {
  Index = Text → Option CodeRecord;
  get = λ i k. i k;
  put = λ i k r j. if text_eq k j then some r else i j;
  delete = λ i k j. if text_eq k j then none else i j;
  get-put = λ i k r j. refl;
  get-delete = λ i k j. refl;
}

abbrev no_codes : Text → Option CodeRecord
no_codes j = none

-- The first two attempts draw A and B, the later ones C.
abbrev draws : ℕ → List ℕ
draws n = (if n == 0 then 0 else (if n == 1 then 33 else 2)) ∷ []

confirmation_codes : Unit {0}
unfolding reserve_unique_confirmation_code try_codes ensure_confirmation_code_indexed
    release_reserved_confirmation_code confirmation_code_belongs_to_subject gen_confirmation_code
    parse_code_record legacy_codes split_last trim trim_start trim_end keep_before is_space
confirmation_codes = tt

abbrev for_ann : CodeRecord
for_ann = record { code = codes "A"; event_id = codes "evt"; subject = codes "ann"; issued_at = 5 }

abbrev held_by_ann : Text → Option CodeRecord
held_by_ann j = if text_eq (codes "A") j then some for_ann else none

-- The old receipt has B, so the reservation gives C.
abbrev old_keys : List Text
old_keys = codes "ticket_receipt:evt:B" ∷ []

abbrev bob_acts : List CodeOperation
bob_acts =
    reserving old_keys draws (codes "evt") (codes "bob") 6
    ∷ releasing (codes "evt") (codes "bob") (codes "A")
    ∷ ensuring (codes "evt") (codes "bob") (codes "A") 7
    ∷ []

bob_acts_test : (operate_all in_memory bob_acts held_by_ann).1 ≡ (codes "C" ∷ [])
unfolding confirmation_codes
bob_acts_test = refl

operate_all-kept_example :
    ((operate_all in_memory bob_acts held_by_ann).0 (codes "A") ≡ some for_ann)
    × (is_among (codes "A") (operate_all in_memory bob_acts held_by_ann).1 ≡ false)
unfolding confirmation_codes
operate_all-kept_example =
    operate_all-kept in_memory bob_acts held_by_ann (codes "A") for_ann refl
      (refl, (refl, (refl, tt)))

reserve_unique_confirmation_code-IsGranted_example :
    IsGranted in_memory (codes "B" ∷ []) (codes "evt") (codes "bob") 6 held_by_ann (
      reserve_unique_confirmation_code in_memory old_keys draws
        (codes " evt")
        (codes "bob")
        6
        held_by_ann)
unfolding confirmation_codes
reserve_unique_confirmation_code-IsGranted_example =
    reserve_unique_confirmation_code-IsGranted in_memory old_keys draws (codes " evt") (codes "bob")
      6 held_by_ann

reserve_unique_confirmation_code-reserved_example :
    (code : Text) × ((reserve_unique_confirmation_code in_memory old_keys draws
        (codes "evt")
        (codes "bob")
        6
        held_by_ann).1
      ≡ reserved code)
unfolding confirmation_codes
reserve_unique_confirmation_code-reserved_example =
    reserve_unique_confirmation_code-reserved in_memory old_keys draws (codes "evt") (codes "bob") 6
      2 held_by_ann refl refl (omega arith) refl refl
