-- ===== src/Receipt/Record.antt =====
-- A receipt, how it is made of an entry of the audit log, and its hash (api-worker/src/storeDO.ts,
-- buildParticipationTicketReceipt, computeParticipationTicketReceiptHash). The version and the type,
-- which never differ, stand in its value alone.
use instant_grant_core.Prelude.{Option, none, some, List, [], Text, codes}
use instant_grant_core.Js.{Value, null, string, array, object, Fields, end, field, integer}
use instant_grant_core.Audit.Canonical.{Platform, canonicalize, sha256_hex}
use instant_grant_core.Audit.Entry.{
  AuditImmutableMode, off, AuditImmutableSink, AuditImmutableReceipt, AuditEvent, mode_text,
  sink_items,
}
use instant_grant_core.Audit.Append.{hash_or_genesis}

pub record ReceiptAudit : Type 0 where
  pub event : Text
  pub event_id : Text
  pub entry_hash : Text
  pub prev_hash : Text
  pub stream_prev_hash : Text
  pub immutable_mode : AuditImmutableMode
  pub immutable_payload_hash : Option Text
  pub immutable_sinks : List AuditImmutableSink

-- A receipt without its hash.
pub record ReceiptBase : Type 0 where
  pub receipt_id : Text
  pub issued_at : Text
  pub confirmation_code : Text
  pub subject_commitment : Text
  pub verify_endpoint : Text
  pub audit : ReceiptAudit

pub record ParticipationTicketReceipt : Type 0 where
  pub base : ReceiptBase
  pub receipt_hash : Text

abbrev pub receipt_type : Text
receipt_type = codes "participation_audit_receipt"

abbrev pub verify_endpoint : Text
verify_endpoint = codes "/api/audit/receipts/verify"

abbrev pub text_or_null : Option Text → Value
text_or_null none = null
text_or_null (some t) = string t

abbrev pub audit_value : ReceiptAudit → Value
audit_value a = object (
    field (codes "event") (string a.event) (
      field (codes "eventId") (string a.event_id) (
        field (codes "entryHash") (string a.entry_hash) (
          field (codes "prevHash") (string a.prev_hash) (
            field (codes "streamPrevHash") (string a.stream_prev_hash) (
              field (codes "immutableMode") (string (mode_text a.immutable_mode)) (
                field (codes "immutablePayloadHash") (text_or_null a.immutable_payload_hash)
                  (field (codes "immutableSinks") (array (sink_items a.immutable_sinks)) end))))))))

-- The fields of a receipt without its hash, in front of other fields.
abbrev pub with_base : ReceiptBase → Fields → Fields
with_base b fs = field (codes "version") (integer 1) (
    field (codes "type") (string receipt_type) (
      field (codes "receiptId") (string b.receipt_id) (
        field (codes "issuedAt") (string b.issued_at) (
          field (codes "confirmationCode") (string b.confirmation_code) (
            field (codes "subjectCommitment") (string b.subject_commitment) (
              field (codes "verifyEndpoint") (string b.verify_endpoint)
                (field (codes "audit") (audit_value b.audit) fs)))))))

unfoldable pub receipt_value : ParticipationTicketReceipt → Value
receipt_value r =
    object (with_base r.base (field (codes "receiptHash") (string r.receipt_hash) end))

abbrev pub sinks_of_entry : Option AuditImmutableReceipt → List AuditImmutableSink
sinks_of_entry none = []
sinks_of_entry (some r) = r.sinks

abbrev pub mode_of_entry : Option AuditImmutableReceipt → AuditImmutableMode
mode_of_entry none = off
mode_of_entry (some r) = r.mode

abbrev pub payload_hash_of_entry : Option AuditImmutableReceipt → Option Text
payload_hash_of_entry none = none
payload_hash_of_entry (some r) = some r.payload_hash

module _ (platform : Platform) where
  unfoldable pub compute_participation_ticket_receipt_hash : ReceiptBase → Text
  compute_participation_ticket_receipt_hash b =
      sha256_hex platform (canonicalize platform (object (with_base b end)))

  abbrev commitment : Text → Text → Text
  commitment event_id subject = sha256_hex platform (
      canonicalize platform (
        object (
          field (codes "version") (integer 1) (
            field (codes "eventId") (string event_id)
              (field (codes "subject") (string subject) end)))))

  abbrev pub receipt_base : Text → Text → Text → AuditEvent → ReceiptBase
  receipt_base event_id subject confirmation_code e = record {
    receipt_id = e.entry_hash;
    issued_at = e.ts;
    confirmation_code = confirmation_code;
    subject_commitment = commitment event_id subject;
    verify_endpoint = verify_endpoint;
    audit = record {
      event = e.event;
      event_id = e.event_id;
      entry_hash = e.entry_hash;
      prev_hash = e.prev_hash;
      stream_prev_hash = hash_or_genesis e.stream_prev_hash;
      immutable_mode = mode_of_entry e.immutable;
      immutable_payload_hash = payload_hash_of_entry e.immutable;
      immutable_sinks = sinks_of_entry e.immutable;
    };
  }

  unfoldable pub build_participation_ticket_receipt :
      Text → Text → Text → AuditEvent → ParticipationTicketReceipt
  unfolding compute_participation_ticket_receipt_hash
  build_participation_ticket_receipt event_id subject confirmation_code e =
      let b = receipt_base event_id subject confirmation_code e in
      record { base = b; receipt_hash = compute_participation_ticket_receipt_hash b }
