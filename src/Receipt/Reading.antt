-- ===== src/Receipt/Reading.antt =====
-- Receipts read back from storage, and where they are kept (api-worker/src/storeDO.ts,
-- parseParticipationTicketReceipt, storeParticipationTicketReceipt, getParticipationTicketReceipt).
use instant_grant_core.Prelude.{
  ℕ, Bool, true, false, ◌||◌, ◌==◌, Option, none, some, List, [], ◌∷◌, ◌++◌, map, Text, codes,
  text_eq, trim, is_empty, if◌then◌else◌,
}
use instant_grant_core.Js.{
  Value, string, number, finite, pos, array, object, Items, nil, cons, get_field,
}
use instant_grant_core.Limits.Env.{lower}
use instant_grant_core.Codes.{CodeIndex, ensure_confirmation_code_indexed}
use instant_grant_core.Audit.Entry.{
  AuditImmutableMode, off, best_effort, required, SinkKind, r2_entry, r2_stream, kv_index,
  immutable_ingest, AuditImmutableSink, mode_text, sink_text,
}
use instant_grant_core.Audit.Append.{genesis, is_hash_hex}
use instant_grant_core.Receipt.Record.{
  ReceiptAudit, ParticipationTicketReceipt, receipt_type, receipt_value,
}

infixl 5 ◌>>=◌ ◌>>◌
abbrev pub ◌>>=◌ {ℓ κ} : {A : Type ℓ} {B : Type κ} → Option A → (A → Option B) → Option B
none >>= f = none
some a >>= f = f a

abbrev pub ◌>>◌ {ℓ} : {B : Type ℓ} → Option (Unit {0}) → Option B → Option B
m >> k = m >>= λ _. k

abbrev pub guard : Bool → Option (Unit {0})
guard true = some tt
guard false = none

-- A text that is not empty, without the spaces around it.
unfoldable pub normalize_string_field : Value → Option Text
normalize_string_field (string s) = if is_empty (trim s) then none else some (trim s)
normalize_string_field _ = none

abbrev is_version_one : Value → Bool
is_version_one (number (finite (pos n) false)) = n == 1
is_version_one _ = false

abbrev is_text : Text → Value → Bool
is_text t (string s) = text_eq s t
is_text t _ = false

unfoldable pub parse_mode : Text → Option AuditImmutableMode
parse_mode t =
    if text_eq t (mode_text off)
    then some off
    else if text_eq t (mode_text best_effort)
    then some best_effort
    else if text_eq t (mode_text required)
    then some required
    else none

unfoldable pub parse_sink_kind : Text → Option SinkKind
parse_sink_kind t =
    if text_eq t (sink_text r2_entry)
    then some r2_entry
    else if text_eq t (sink_text r2_stream)
    then some r2_stream
    else if text_eq t (sink_text kv_index)
    then some kv_index
    else if text_eq t (sink_text immutable_ingest)
    then some immutable_ingest
    else none

unfoldable pub parse_sink : Value → Option AuditImmutableSink
parse_sink (object o) = do
  sink ← normalize_string_field (get_field (codes "sink") o)
  ref ← normalize_string_field (get_field (codes "ref") o)
  at ← normalize_string_field (get_field (codes "at") o)
  kind ← parse_sink_kind sink
  some (record { sink = kind; ref = ref; at = at })
parse_sink _ = none

abbrev and_sink :
    Option AuditImmutableSink → Option (List AuditImmutableSink) → Option (List AuditImmutableSink)
and_sink none ss = none
and_sink (some s) none = none
and_sink (some s) (some ss) = some (s ∷ ss)

unfoldable pub parse_sinks : Items → Option (List AuditImmutableSink)
unfolding parse_sink
parse_sinks nil = some []
parse_sinks (cons v vs) = and_sink (parse_sink v) (parse_sinks vs)

abbrev pub sinks_of_value : Value → Option (List AuditImmutableSink)
sinks_of_value (array vs) = parse_sinks vs
sinks_of_value _ = none

abbrev hash_or_none : Text → Option Text
hash_or_none t = if is_empty t then none else some (map lower t)

-- A payload's hash in lower case; any other value counts as null.
unfoldable pub payload_hash_of_value : Value → Option Text
payload_hash_of_value (string s) = hash_or_none (trim s)
payload_hash_of_value _ = none

abbrev pub is_payload_hash : Option Text → Bool
is_payload_hash none = true
is_payload_hash (some h) = is_hash_hex h

-- GENESIS or a hash.
abbrev pub is_link : Text → Bool
is_link t = text_eq t genesis || is_hash_hex t

abbrev pub lower_link : Text → Text
lower_link t = if text_eq t genesis then genesis else map lower t

unfoldable pub parse_receipt_audit : Value → Option ReceiptAudit
parse_receipt_audit (object o) = do
  event ← normalize_string_field (get_field (codes "event") o)
  event_id ← normalize_string_field (get_field (codes "eventId") o)
  entry_hash ← normalize_string_field (get_field (codes "entryHash") o)
  prev_hash ← normalize_string_field (get_field (codes "prevHash") o)
  stream_prev_hash ← normalize_string_field (get_field (codes "streamPrevHash") o)
  mode ← normalize_string_field (get_field (codes "immutableMode") o)
  immutable_mode ← parse_mode (map lower mode)
  let payload_hash = payload_hash_of_value (get_field (codes "immutablePayloadHash") o)
  guard (is_hash_hex entry_hash)
  guard (is_link prev_hash)
  guard (is_link stream_prev_hash)
  guard (is_payload_hash payload_hash)
  sinks ← sinks_of_value (get_field (codes "immutableSinks") o)
  some (record {
    event = event;
    event_id = event_id;
    entry_hash = map lower entry_hash;
    prev_hash = lower_link prev_hash;
    stream_prev_hash = lower_link stream_prev_hash;
    immutable_mode = immutable_mode;
    immutable_payload_hash = payload_hash;
    immutable_sinks = sinks;
  })
parse_receipt_audit _ = none

unfoldable pub parse_participation_ticket_receipt : Value → Option ParticipationTicketReceipt
parse_participation_ticket_receipt (object o) = do
  guard (is_version_one (get_field (codes "version") o))
  guard (is_text receipt_type (get_field (codes "type") o))
  receipt_id ← normalize_string_field (get_field (codes "receiptId") o)
  receipt_hash ← normalize_string_field (get_field (codes "receiptHash") o)
  issued_at ← normalize_string_field (get_field (codes "issuedAt") o)
  confirmation_code ← normalize_string_field (get_field (codes "confirmationCode") o)
  subject_commitment ← normalize_string_field (get_field (codes "subjectCommitment") o)
  verify_endpoint ← normalize_string_field (get_field (codes "verifyEndpoint") o)
  guard (is_hash_hex receipt_id)
  guard (is_hash_hex receipt_hash)
  guard (is_hash_hex subject_commitment)
  audit ← parse_receipt_audit (get_field (codes "audit") o)
  some (record {
    base = record {
      receipt_id = map lower receipt_id;
      issued_at = issued_at;
      confirmation_code = confirmation_code;
      subject_commitment = map lower subject_commitment;
      verify_endpoint = verify_endpoint;
      audit = audit;
    };
    receipt_hash = map lower receipt_hash;
  })
parse_participation_ticket_receipt _ = none

abbrev pub ticket_receipt_by_code_key : Text → Text → Text
ticket_receipt_by_code_key event_id code =
    codes "ticket_receipt:" ++ (event_id ++ (codes ":" ++ code))

abbrev pub ticket_receipt_by_subject_key : Text → Text → Text
ticket_receipt_by_subject_key event_id subject =
    codes "ticket_receipt_subject:" ++ (event_id ++ (codes ":" ++ subject))

-- The rows of receipts under their keys; a missing row is undefined.
abbrev pub ReceiptRows : Type 0
ReceiptRows = Text → Value

abbrev pub put_row : Text → Value → ReceiptRows → ReceiptRows
put_row k v rows j = if text_eq k j then v else rows j

module _ (rows : CodeIndex) where
  open rows use {Index}

  unfoldable pub store_participation_ticket_receipt :
      Text → Text → ParticipationTicketReceipt → ℕ → Index × ReceiptRows → Index × ReceiptRows
  unfolding receipt_value
  store_participation_ticket_receipt event_id subject r now (i, receipts) = (
    ensure_confirmation_code_indexed rows event_id subject r.base.confirmation_code now i,
    put_row (ticket_receipt_by_subject_key event_id subject) (receipt_value r) (
        put_row (ticket_receipt_by_code_key event_id r.base.confirmation_code) (receipt_value r)
          receipts),
  )

abbrev for_code : Text → Option ParticipationTicketReceipt → Option ParticipationTicketReceipt
for_code code none = none
for_code code (some r) = if text_eq r.base.confirmation_code code then some r else none

abbrev first_of {ℓ} : {A : Type ℓ} → Option A → Option A → Option A
first_of (some a) other = some a
first_of none other = other

unfoldable pub get_participation_ticket_receipt :
    Text → Text → Text → ReceiptRows → Option ParticipationTicketReceipt
get_participation_ticket_receipt event_id subject code receipts =
    first_of
      (parse_participation_ticket_receipt (receipts (ticket_receipt_by_code_key event_id code)))
      (for_code code (
        parse_participation_ticket_receipt
          (receipts (ticket_receipt_by_subject_key event_id subject))))
