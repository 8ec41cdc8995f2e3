-- ===== src/Receipt/RoundTrip.antt =====
-- A receipt that is stored is read back.
use instant_grant_core.Prelude.{
  ℕ, true, false, Option, none, some, List, [], ◌∷◌, ◌++◌, map, Text, codes, text_eq_refl, trim,
  trim_start, trim_end, keep_before, is_space, is_empty, All, ◌≡◌, refl,
}
use instant_grant_core.Js.{string}
use instant_grant_core.Limits.Env.{lower}
use instant_grant_core.Codes.{CodeIndex}
use instant_grant_core.Audit.Entry.{
  AuditImmutableMode, off, best_effort, required, SinkKind, r2_entry, r2_stream, kv_index,
  immutable_ingest, AuditImmutableSink, mode_text, sink_text, sink_items,
}
use instant_grant_core.Audit.Append.{is_hash_hex}
use instant_grant_core.Receipt.Record.{
  ReceiptAudit, ParticipationTicketReceipt, text_or_null, audit_value, receipt_value,
}
use instant_grant_core.Receipt.Reading.{
  normalize_string_field, parse_mode, parse_sink_kind, parse_sink, parse_sinks,
  payload_hash_of_value, is_payload_hash, is_link, lower_link, parse_receipt_audit,
  parse_participation_ticket_receipt, ReceiptRows, store_participation_ticket_receipt,
  get_participation_ticket_receipt,
}

abbrev pub IsTrimmed : Text → Type 0
IsTrimmed t = (trim t ≡ t) × (is_empty t ≡ false)

abbrev pub IsHash : Text → Type 0
IsHash t = (trim t ≡ t) × (is_empty t ≡ false) × (is_hash_hex t ≡ true) × (map lower t ≡ t)

-- GENESIS or a hash.
abbrev pub IsLink : Text → Type 0
IsLink t = (trim t ≡ t) × (is_empty t ≡ false) × (is_link t ≡ true) × (lower_link t ≡ t)

abbrev pub IsPayloadHash : Option Text → Type 0
IsPayloadHash none = Unit
IsPayloadHash (some h) = IsHash h

abbrev pub IsSink : AuditImmutableSink → Type 0
IsSink s = IsTrimmed s.ref × IsTrimmed s.at

pub record IsAudit (a : ReceiptAudit) : Type 0 where
  pub event : IsTrimmed a.event
  pub event_id : IsTrimmed a.event_id
  pub entry_hash : IsHash a.entry_hash
  pub prev_hash : IsLink a.prev_hash
  pub stream_prev_hash : IsLink a.stream_prev_hash
  pub payload_hash : IsPayloadHash a.immutable_payload_hash
  pub sinks : All IsSink a.immutable_sinks

-- A receipt in normal form: texts without spaces around them, hashes in lower case.
pub record IsNormal (r : ParticipationTicketReceipt) : Type 0 where
  pub receipt_id : IsHash r.base.receipt_id
  pub receipt_hash : IsHash r.receipt_hash
  pub issued_at : IsTrimmed r.base.issued_at
  pub confirmation_code : IsTrimmed r.base.confirmation_code
  pub subject_commitment : IsHash r.base.subject_commitment
  pub verify_endpoint : IsTrimmed r.base.verify_endpoint
  pub audit : IsAudit r.base.audit

read_text :
    (t : Text) → trim t ≡ t → is_empty t ≡ false → normalize_string_field (string t) ≡ some t
unfolding normalize_string_field
read_text t trimmed filled = rw (trimmed, filled) refl

read_kind :
    (k : SinkKind)
    → (normalize_string_field (string (sink_text k)) ≡ some (sink_text k))
      × (parse_sink_kind (sink_text k) ≡ some k)
unfolding normalize_string_field parse_sink_kind trim trim_start trim_end keep_before is_space
read_kind r2_entry = (refl, refl)
read_kind r2_stream = (refl, refl)
read_kind kv_index = (refl, refl)
read_kind immutable_ingest = (refl, refl)

read_mode :
    (m : AuditImmutableMode)
    → (normalize_string_field (string (mode_text m)) ≡ some (mode_text m))
      × (parse_mode (map lower (mode_text m)) ≡ some m)
unfolding normalize_string_field parse_mode trim trim_start trim_end keep_before is_space
read_mode off = (refl, refl)
read_mode best_effort = (refl, refl)
read_mode required = (refl, refl)

read_payload_hash :
    (h : Option Text)
    → IsPayloadHash h
    → (payload_hash_of_value (text_or_null h) ≡ h) × (is_payload_hash h ≡ true)
unfolding payload_hash_of_value
read_payload_hash none n = (refl, refl)
read_payload_hash (some h) (trimmed, filled, is_hash, lowered) =
    (rw (trimmed, filled, lowered) refl, is_hash)

read_sinks : (ss : List AuditImmutableSink) → All IsSink ss → parse_sinks (sink_items ss) ≡ some ss
unfolding parse_sinks parse_sink
read_sinks [] n = refl
read_sinks (s ∷ ss) ((ref, at), n) =
    rw
      (
        (read_kind s.sink).0,
        read_text s.ref ref.0 ref.1,
        read_text s.at at.0 at.1,
        (read_kind s.sink).1,
        read_sinks ss n,
      )
      refl

read_audit : (a : ReceiptAudit) → IsAudit a → parse_receipt_audit (audit_value a) ≡ some a
unfolding parse_receipt_audit
read_audit a n =
    let payload_hash = read_payload_hash a.immutable_payload_hash n.payload_hash in
    rw
      (
        read_text a.event n.event.0 n.event.1,
        read_text a.event_id n.event_id.0 n.event_id.1,
        read_text a.entry_hash n.entry_hash.0 n.entry_hash.1,
        read_text a.prev_hash n.prev_hash.0 n.prev_hash.1,
        read_text a.stream_prev_hash n.stream_prev_hash.0 n.stream_prev_hash.1,
        (read_mode a.immutable_mode).0,
        (read_mode a.immutable_mode).1,
        payload_hash.0,
        n.entry_hash.2,
        n.prev_hash.2,
        n.stream_prev_hash.2,
        payload_hash.1,
        read_sinks a.immutable_sinks n.sinks,
        n.entry_hash.3,
        n.prev_hash.3,
        n.stream_prev_hash.3,
      )
      refl

read_receipt :
    (r : ParticipationTicketReceipt)
    → IsNormal r
    → parse_participation_ticket_receipt (receipt_value r) ≡ some r
unfolding parse_participation_ticket_receipt receipt_value
read_receipt r n =
    let b = r.base in
    rw
      (
        read_text b.receipt_id n.receipt_id.0 n.receipt_id.1,
        read_text r.receipt_hash n.receipt_hash.0 n.receipt_hash.1,
        read_text b.issued_at n.issued_at.0 n.issued_at.1,
        read_text b.confirmation_code n.confirmation_code.0 n.confirmation_code.1,
        read_text b.subject_commitment n.subject_commitment.0 n.subject_commitment.1,
        read_text b.verify_endpoint n.verify_endpoint.0 n.verify_endpoint.1,
        n.receipt_id.2,
        n.receipt_hash.2,
        n.subject_commitment.2,
        read_audit b.audit n.audit,
        n.receipt_id.3,
        n.receipt_hash.3,
        n.subject_commitment.3,
      )
      refl

module _ (rows : CodeIndex) where
  open rows use {Index}

  -- A receipt that is stored for an event and a subject is read back as it was, under its code by
  -- any subject, if its texts have no spaces around them and its hashes are hashes in lower case.
  pub get-store_participation_ticket_receipt :
      (event_id subject other : Text) (r : ParticipationTicketReceipt) (now : ℕ)
      (s : Index × ReceiptRows)
      → IsNormal r
      → get_participation_ticket_receipt event_id other r.base.confirmation_code
          (store_participation_ticket_receipt rows event_id subject r now s).1
        ≡ some r
  unfolding get_participation_ticket_receipt store_participation_ticket_receipt
  get-store_participation_ticket_receipt event_id subject other r now (i, receipts) n =
      rw (text_eq_refl (event_id ++ (codes ":" ++ r.base.confirmation_code)), read_receipt r n) refl
