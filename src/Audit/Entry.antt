-- ===== src/Audit/Entry.antt =====
-- The entries of the audit log as values, and what is hashed of them (api-worker/src/audit/types.ts;
-- buildAuditHashInput and buildImmutablePayload of api-worker/src/storeDO.ts).
use instant_grant_core.Prelude.{Option, none, some, List, [], ◌∷◌, Text, codes}
use instant_grant_core.Js.{
  Value, string, array, object, Items, nil, cons, Fields, end, field, integer,
}
use instant_grant_core.Audit.Canonical.{Platform, canonicalize}

pub data AuditImmutableMode : Type 0 where
  off best_effort required : AuditImmutableMode

pub data SinkKind : Type 0 where
  r2_entry r2_stream kv_index immutable_ingest : SinkKind

pub record AuditImmutableSink : Type 0 where
  pub sink : SinkKind
  pub ref : Text
  pub at : Text

pub record AuditImmutableReceipt : Type 0 where
  pub mode : AuditImmutableMode
  pub payload_hash : Text
  pub sinks : List AuditImmutableSink
  pub warnings : List Text

pub record AuditActor : Type 0 where
  pub type : Text
  pub id : Text

-- `content` is the field `data`.
pub record AuditEvent : Type 0 where
  pub ts : Text
  pub event : Text
  pub event_id : Text
  pub actor : AuditActor
  pub content : Fields
  pub prev_hash : Text
  pub stream_prev_hash : Option Text
  pub entry_hash : Text
  pub immutable : Option AuditImmutableReceipt

abbrev pub mode_text : AuditImmutableMode → Text
mode_text off = codes "off"
mode_text best_effort = codes "best_effort"
mode_text required = codes "required"

abbrev pub sink_text : SinkKind → Text
sink_text r2_entry = codes "r2_entry"
sink_text r2_stream = codes "r2_stream"
sink_text kv_index = codes "kv_index"
sink_text immutable_ingest = codes "immutable_ingest"

abbrev text_items : List Text → Items
text_items [] = nil
text_items (t ∷ ts) = cons (string t) (text_items ts)

abbrev pub sink_items : List AuditImmutableSink → Items
sink_items [] = nil
sink_items (s ∷ ss) =
    cons
      (object (
        field (codes "sink") (string (sink_text s.sink))
          (field (codes "ref") (string s.ref) (field (codes "at") (string s.at) end))))
      (sink_items ss)

-- A receipt has its warnings only if there are any.
abbrev warning_fields : List Text → Fields
warning_fields [] = end
warning_fields (w ∷ ws) = field (codes "warnings") (array (text_items (w ∷ ws))) end

abbrev receipt_value : AuditImmutableReceipt → Value
receipt_value r = object (
    field (codes "mode") (string (mode_text r.mode)) (
      field (codes "payload_hash") (string r.payload_hash)
        (field (codes "sinks") (array (sink_items r.sinks)) (warning_fields r.warnings))))

abbrev pub actor_value : AuditActor → Value
actor_value a = object (field (codes "type") (string a.type) (field (codes "id") (string a.id) end))

-- The field of a stream's last hash, in front of other fields.
abbrev with_stream_prev_hash : Option Text → Fields → Fields
with_stream_prev_hash none fs = fs
with_stream_prev_hash (some h) fs = field (codes "stream_prev_hash") (string h) fs

-- The fields that are hashed, in front of other fields.
abbrev with_hash_input : AuditEvent → Fields → Fields
with_hash_input e fs = field (codes "ts") (string e.ts) (
    field (codes "event") (string e.event) (
      field (codes "eventId") (string e.event_id) (
        field (codes "actor") (actor_value e.actor) (
          field (codes "data") (object e.content) (
            field (codes "prev_hash") (string e.prev_hash)
              (with_stream_prev_hash e.stream_prev_hash fs))))))

unfoldable pub build_audit_hash_input : AuditEvent → Value
build_audit_hash_input e = object (with_hash_input e end)

abbrev with_receipt : Option AuditImmutableReceipt → Fields
with_receipt none = end
with_receipt (some r) = field (codes "immutable") (receipt_value r) end

-- A whole entry as a value.
unfoldable pub entry_value : AuditEvent → Value
entry_value e = object (
    with_hash_input e (field (codes "entry_hash") (string e.entry_hash) (with_receipt e.immutable)))

-- What is sealed of an entry's value.
abbrev pub sealed : Text → Value → Value
sealed source entry = object (
    field (codes "version") (integer 1)
      (field (codes "source") (string source) (field (codes "entry") entry end)))

abbrev pub immutable_audit_source : Text
immutable_audit_source = codes "school-store"

module _ (platform : Platform) where
  -- An entry's payload, without its receipt.
  unfoldable pub build_immutable_payload : AuditEvent → Text
  build_immutable_payload e = canonicalize platform (
      sealed immutable_audit_source
        (object (with_hash_input e (field (codes "entry_hash") (string e.entry_hash) end))))
