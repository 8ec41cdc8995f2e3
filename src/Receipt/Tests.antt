-- ===== src/Receipt/Tests.antt =====
-- A receipt of a small log, and the theorems at inputs that meet their hypotheses.
use instant_grant_core.Prelude.{
  ℕ, zero, suc, ◌+◌, ◌*◌, ◌%◌, true, false, Option, none, some, List, [], ◌∷◌, Text, codes, text_eq,
  trim, trim_start, trim_end, keep_before, is_space, ◌≡◌, refl, inl, if◌then◌else◌,
}
use instant_grant_core.Js.{string, field, end, undefined}
use instant_grant_core.Codes.{CodeRecord, CodeIndex}
use instant_grant_core.Audit.Canonical.{Platform, canonicalize, stringify, sort_deep, sha256_hex}
use instant_grant_core.Audit.Entry.{AuditEvent, build_audit_hash_input}
use instant_grant_core.Audit.Append.{
  AuditRows, hash_entry, get_audit_entry_by_hash, audit_entry_by_hash_key,
}
use instant_grant_core.Receipt.Record.{
  ParticipationTicketReceipt, build_participation_ticket_receipt,
  compute_participation_ticket_receipt_hash,
}
use instant_grant_core.Receipt.Reading.{
  normalize_string_field, ReceiptRows, store_participation_ticket_receipt,
  get_participation_ticket_receipt,
}
use instant_grant_core.Receipt.Check.{
  sink_signature_set, global_link_valid, stream_link_valid, verify_participation_ticket_receipt,
}
use instant_grant_core.Receipt.Genuine.{
  IsBacked, verify-build_participation_ticket_receipt, verify_participation_ticket_receipt-IsBacked,
}
use instant_grant_core.Receipt.RoundTrip.{IsNormal, get-store_participation_ticket_receipt}

abbrev rolling : ℕ → Text → ℕ
rolling acc [] = acc
rolling acc (c ∷ s) = rolling ((acc * 31 + c) % 251) s

abbrev copies : ℕ → ℕ → List ℕ
copies zero b = []
copies (suc n) b = b ∷ copies n b

-- A digest of 32 bytes.
abbrev small_platform : Platform
small_platform = record {
  number_text = λ n. codes "1";
  encode_uri_component = λ t. t;
  digest = λ t. copies 32 (rolling 7 t);
}

abbrev unhashed : AuditEvent
unhashed = record {
  ts = codes "1";
  event = codes "USER_CLAIM";
  event_id = codes "evt";
  actor = record { type = codes "user"; id = codes "ann" };
  content = field (codes "confirmationCode") (string (codes "A2B3C4")) end;
  prev_hash = codes "GENESIS";
  stream_prev_hash = none;
  entry_hash = [];
  immutable = none;
}

abbrev claimed : AuditEvent
claimed = record unhashed { entry_hash = hash_entry small_platform unhashed }

abbrev log : AuditRows
log = record {
  last_hashes = λ k. none;
  history = [];
  entries =
      λ k. if text_eq (audit_entry_by_hash_key claimed.entry_hash) k then some claimed else none;
}

abbrev receipt : ParticipationTicketReceipt
receipt =
    build_participation_ticket_receipt small_platform (codes "evt") (codes "ann") (codes "A2B3C4")
      claimed

receipts : Unit {0}
unfolding canonicalize stringify sort_deep sha256_hex build_audit_hash_input get_audit_entry_by_hash
    build_participation_ticket_receipt compute_participation_ticket_receipt_hash
    normalize_string_field verify_participation_ticket_receipt global_link_valid stream_link_valid
    trim trim_start trim_end keep_before is_space sink_signature_set
receipts = tt

verify-build_participation_ticket_receipt_example :
    (verify_participation_ticket_receipt small_platform log (
      build_participation_ticket_receipt small_platform
        (codes "evt")
        (codes "ann")
        (codes "A2B3C4")
        claimed)).ok
    ≡ true
unfolding receipts
verify-build_participation_ticket_receipt_example =
    verify-build_participation_ticket_receipt small_platform log (codes "evt") (codes "ann")
      (codes "A2B3C4") claimed refl refl refl refl refl refl (inl refl)

-- Another code does not pass.
other_code_test :
    (verify_participation_ticket_receipt small_platform log (
      build_participation_ticket_receipt small_platform
        (codes "evt")
        (codes "ann")
        (codes "A2B3C5")
        claimed)).ok
    ≡ false
unfolding receipts
other_code_test = refl

verify_participation_ticket_receipt-IsBacked_example :
    (e : AuditEvent) × IsBacked small_platform log receipt e
unfolding receipts
verify_participation_ticket_receipt-IsBacked_example =
    verify_participation_ticket_receipt-IsBacked small_platform log receipt refl

abbrev in_memory : CodeIndex
in_memory = record {
  Index = Text → Option CodeRecord;
  get = λ i k. i k;
  put = λ i k r j. if text_eq k j then some r else i j;
  delete = λ i k j. if text_eq k j then none else i j;
  get-put = λ i k r j. refl;
  get-delete = λ i k j. refl;
}

abbrev no_codes : Text → Option CodeRecord
no_codes k = none

abbrev no_receipts : ReceiptRows
no_receipts k = undefined

receipt-IsNormal : IsNormal receipt
unfolding receipts
receipt-IsNormal = record {
  receipt_id = (refl, refl, refl, refl);
  receipt_hash = (refl, refl, refl, refl);
  issued_at = (refl, refl);
  confirmation_code = (refl, refl);
  subject_commitment = (refl, refl, refl, refl);
  verify_endpoint = (refl, refl);
  audit = record {
    event = (refl, refl);
    event_id = (refl, refl);
    entry_hash = (refl, refl, refl, refl);
    prev_hash = (refl, refl, refl, refl);
    stream_prev_hash = (refl, refl, refl, refl);
    payload_hash = tt;
    sinks = tt;
  };
}

get-store_participation_ticket_receipt_example :
    get_participation_ticket_receipt
      (codes "evt")
      []
      receipt.base.confirmation_code
      (store_participation_ticket_receipt in_memory
        (codes "evt")
        (codes "ann")
        receipt
        5
        (no_codes, no_receipts)).1
    ≡ some receipt
get-store_participation_ticket_receipt_example =
    get-store_participation_ticket_receipt in_memory (codes "evt") (codes "ann") [] receipt 5
      (no_codes, no_receipts) receipt-IsNormal
