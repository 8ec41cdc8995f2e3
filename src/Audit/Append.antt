-- ===== src/Audit/Append.antt =====
-- Appending to the audit log and reading it (api-worker/src/storeDO.ts, appendAuditLog, getAuditLogs,
-- getAuditStatus and getAuditEntryByHash). The lock makes an append one step; the clock is an
-- argument.
use instant_grant_core.Prelude.{
  ℕ, zero, suc, Bool, true, false, ◌||◌, Option, none, some, List, [], ◌∷◌, ◌++◌, map, Text, codes,
  text_eq, trim, is_empty, all, is_digit, ◌==◌, leb, length, ◌&&◌, not, if◌then◌else◌,
}
use instant_grant_core.Js.{Value, string, object, Fields, end, field}
use instant_grant_core.Limits.Env.{lower}
use instant_grant_core.Audit.Canonical.{Platform, canonicalize, sha256_hex, text_lt}
use instant_grant_core.Audit.Entry.{
  AuditImmutableMode, off, AuditActor, AuditImmutableReceipt, AuditEvent, actor_value,
  build_audit_hash_input, immutable_audit_source,
}
use instant_grant_core.Audit.Services.{Services, ImmutableBindings, trimmed_or_empty}
use instant_grant_core.Audit.Sinks.{
  Persisted, switched_off, receipt, not_persisted, is_required, persist_immutable_audit_entry,
}

-- The rows of the log: last hashes and entries under their keys, and the history, whose keys hold
-- the time, from its latest key on.
pub record AuditRows : Type 0 where
  pub last_hashes : Text → Option Text
  pub history : List (Text × AuditEvent)
  pub entries : Text → Option AuditEvent

abbrev pub genesis : Text
genesis = codes "GENESIS"

abbrev pub audit_last_hash_global_key : Text
audit_last_hash_global_key = codes "audit:lastHash:global"

abbrev pub stream_last_hash_key : Text → Text
stream_last_hash_key event_id = codes "audit:lastHash:" ++ event_id

abbrev pub audit_entry_by_hash_key : Text → Text
audit_entry_by_hash_key entry_hash = codes "audit_entry:" ++ entry_hash

abbrev pub history_key : Text → Text → Text
history_key ts entry_hash = codes "audit_history:" ++ (ts ++ (codes ":" ++ entry_hash))

abbrev pub hash_or_genesis : Option Text → Text
hash_or_genesis none = genesis
hash_or_genesis (some h) = h

abbrev pub put {ℓ} : {A : Type ℓ} → Text → A → (Text → Option A) → Text → Option A
put k v rows j = if text_eq k j then some v else rows j

-- A row of the history in its place.
unfoldable pub put_history : Text → AuditEvent → List (Text × AuditEvent) → List (Text × AuditEvent)
put_history k e [] = (k, e) ∷ []
put_history k e ((j, f) ∷ rows) =
    let rest = put_history k e rows in
    if text_eq k j
    then (k, e) ∷ rows
    else (if text_lt j k then (k, e) ∷ (j, f) ∷ rows else (j, f) ∷ rest)

pub record AuditLogRequest : Type 0 where
  pub event : Text
  pub event_id : Text
  pub actor : AuditActor
  pub content : Fields

pub data Appended : Type 0 where
  appended : AuditEvent → Appended
  append_failed : Text → Appended

module _ (platform : Platform) where
  -- The entry without its hash and its receipt.
  abbrev pub base_entry : AuditLogRequest → Text → AuditRows → AuditEvent
  base_entry q ts rows = record {
    ts = ts;
    event = q.event;
    event_id = q.event_id;
    actor = q.actor;
    content = q.content;
    prev_hash = hash_or_genesis (rows.last_hashes audit_last_hash_global_key);
    stream_prev_hash = some (hash_or_genesis (rows.last_hashes (stream_last_hash_key q.event_id)));
    entry_hash = [];
    immutable = none;
  }

  abbrev pub hash_entry : AuditEvent → Text
  hash_entry e = sha256_hex platform (canonicalize platform (build_audit_hash_input e))

  -- The entry as the value that an append hashes, `baseEntry`.
  abbrev base_value : AuditLogRequest → Text → AuditRows → Value
  base_value q ts rows =
      let prev_hash = hash_or_genesis (rows.last_hashes audit_last_hash_global_key) in
      let stream_prev_hash = hash_or_genesis (rows.last_hashes (stream_last_hash_key q.event_id)) in
      object (
        field (codes "ts") (string ts) (
          field (codes "event") (string q.event) (
            field (codes "eventId") (string q.event_id) (
              field (codes "actor") (actor_value q.actor) (
                field (codes "data") (object q.content) (
                  field (codes "prev_hash") (string prev_hash)
                    (field (codes "stream_prev_hash") (string stream_prev_hash) end)))))))

  abbrev pub full_entry : AuditLogRequest → Text → AuditRows → AuditEvent
  full_entry q ts rows = record (base_entry q ts rows) {
    entry_hash = sha256_hex platform (canonicalize platform (base_value q ts rows));
  }

abbrev pub with_immutable : AuditEvent → Option AuditImmutableReceipt → AuditEvent
with_immutable e r = record e { immutable = r }

abbrev pub store_entry : AuditEvent → AuditRows → AuditRows
store_entry e rows = record {
  last_hashes =
      put (stream_last_hash_key e.event_id) e.entry_hash
        (put audit_last_hash_global_key e.entry_hash rows.last_hashes);
  history = put_history (history_key e.ts e.entry_hash) e rows.history;
  entries = put (audit_entry_by_hash_key e.entry_hash) e rows.entries;
}

-- What is stored once the sinks have answered; a refusal stores nothing.
abbrev pub after_persist {ℓ} :
    {W : Type ℓ} → AuditEvent → AuditRows → W × Persisted → (W × AuditRows) × Appended
after_persist e rows (w, switched_off) =
    ((w, store_entry (with_immutable e none) rows), appended (with_immutable e none))
after_persist e rows (w, receipt r) =
    ((w, store_entry (with_immutable e (some r)) rows), appended (with_immutable e (some r)))
after_persist e rows (w, not_persisted message) = ((w, rows), append_failed message)

module _ (platform : Platform) (services : Services) where
  open services use {World}

  unfoldable pub append_audit_log :
      AuditImmutableMode
      → ImmutableBindings
      → AuditLogRequest
      → Text
      → Text
      → World × AuditRows
      → (World × AuditRows) × Appended
  append_audit_log mode b q ts at (w, rows) =
      let e = full_entry platform q ts rows in
      after_persist e rows
        (persist_immutable_audit_entry platform services mode immutable_audit_source b e at w)

abbrev pub take {ℓ} : {A : Type ℓ} → ℕ → List A → List A
take zero xs = []
take (suc n) [] = []
take (suc n) (x ∷ xs) = x ∷ take n xs

abbrev pub rows_of : List (Text × AuditEvent) → List AuditEvent
rows_of [] = []
rows_of ((k, e) ∷ rows) = e ∷ rows_of rows

abbrev pub newest : ℕ → AuditRows → List AuditEvent
newest limit rows = rows_of (take limit rows.history)

unfoldable pub get_audit_logs : AuditRows → List AuditEvent
get_audit_logs rows = newest 50 rows

pub record AuditStatus : Type 0 where
  pub mode : AuditImmutableMode
  pub fail_closed_for_mutating_requests : Bool
  pub operational_ready : Bool
  pub primary_immutable_sink_configured : Bool
  pub r2_configured : Bool
  pub kv_configured : Bool
  pub ingest_configured : Bool

abbrev is_off : AuditImmutableMode → Bool
is_off off = true
is_off _ = false

unfoldable pub get_audit_status : AuditImmutableMode → ImmutableBindings → AuditStatus
get_audit_status mode b =
    let ingest = not (is_empty (trimmed_or_empty b.ingest_url)) in
    record {
      mode = mode;
      fail_closed_for_mutating_requests = is_required mode;
      operational_ready = if is_off mode then true else b.audit_logs || ingest;
      primary_immutable_sink_configured = b.audit_logs || ingest;
      r2_configured = b.audit_logs;
      kv_configured = b.audit_index;
      ingest_configured = ingest;
    }

-- `/^[0-9a-f]{64}$/.test(raw.trim().toLowerCase())`
abbrev pub is_hash_hex : Text → Bool
is_hash_hex raw =
    let s = map lower (trim raw) in
    length s == 64 && all (λ c. is_digit c || (leb b'a' c && leb c b'f')) s

abbrev find_hash : Text → List AuditEvent → Option AuditEvent
find_hash hash [] = none
find_hash hash (e ∷ es) =
    if text_eq (map lower e.entry_hash) hash then some e else find_hash hash es

abbrev pub audit_entry_scan_limit : ℕ
audit_entry_scan_limit = 5000

abbrev direct_or_scan : AuditRows → Text → Option AuditEvent → Option AuditEvent
direct_or_scan rows hash (some e) = some e
direct_or_scan rows hash none = find_hash hash (newest audit_entry_scan_limit rows)

unfoldable pub get_audit_entry_by_hash : Text → AuditRows → Option AuditEvent
get_audit_entry_by_hash entry_hash rows =
    let hash = map lower (trim entry_hash) in
    if is_hash_hex hash
    then direct_or_scan rows hash (rows.entries (audit_entry_by_hash_key hash))
    else none
