-- ===== src/Audit/Sinks.antt =====
-- Copies of an entry outside the log (api-worker/src/audit/immutable.ts). The clock of the sinks is an
-- argument.
use instant_grant_core.Prelude.{
  Bool, true, false, ◌&&◌, ◌||◌, ◌==◌, not, Option, none, some, List, [], ◌∷◌, ◌++◌, map, ℕ, Text,
  codes, text_eq, is_empty, any, if◌then◌else◌,
}
use instant_grant_core.Js.{Value, string, object, end, field, integer}
use instant_grant_core.Audit.Canonical.{Platform, stringify, canonicalize, sha256_hex, join}
use instant_grant_core.Audit.Entry.{
  AuditImmutableMode, off, best_effort, required, r2_entry, r2_stream, kv_index, immutable_ingest,
  AuditImmutableSink, AuditImmutableReceipt, AuditEvent, entry_value, sealed,
}
use instant_grant_core.Audit.Services.{
  if_absent, PutAnswer, stored, refused, put_failed, Fetched, found, missing, get_failed,
  IngestAnswer, answered, not_answered, Services, ImmutableBindings, parse_timeout,
  trimmed_or_empty, has_primary_immutable_sink,
}

-- The sinks that took an entry, or the message of what was thrown.
pub data Written : Type 0 where
  sinks_of : List AuditImmutableSink → Written
  failed : Text → Written

pub data Persisted : Type 0 where
  switched_off : Persisted
  receipt : AuditImmutableReceipt → Persisted
  not_persisted : Text → Persisted

-- What has been gathered from the sinks so far.
pub record Gathered : Type 0 where
  pub sinks : List AuditImmutableSink
  pub blocking_errors : List Text
  pub warnings : List Text

abbrev pub gather_primary : Text → Gathered → Written → Gathered
gather_primary name g (sinks_of ss) = record g { sinks = g.sinks ++ ss }
gather_primary name g (failed message) = record g {
  blocking_errors = g.blocking_errors ++ (name ++ message) ∷ [];
  warnings = g.warnings ++ (name ++ message) ∷ [];
}

abbrev pub gather_index : Gathered → Written → Gathered
gather_index g (sinks_of ss) = record g { sinks = g.sinks ++ ss }
gather_index g (failed message) = record g {
  warnings = g.warnings ++ (codes "kv:" ++ message) ∷ [];
}

abbrev pub is_primary : AuditImmutableSink → Bool
is_primary s = elim s.sink [ r2_entry ↦ true | immutable_ingest ↦ true | _ ↦ false ]

-- Without a primary sink that took the entry there is one more blocking error.
abbrev pub check_primary : Gathered → Gathered
check_primary g = if any is_primary g.sinks then g else record g {
  blocking_errors = g.blocking_errors ++ codes "no immutable sink accepted this entry" ∷ [];
  warnings = g.warnings ++ codes "no immutable sink accepted this entry" ∷ [];
}

abbrev pub is_required : AuditImmutableMode → Bool
is_required required = true
is_required _ = false

abbrev pub no_errors : List Text → Bool
no_errors [] = true
no_errors (e ∷ es) = false

abbrev pub not_configured : Text
not_configured =
    codes "immutable audit sink is not configured (AUDIT_LOGS or AUDIT_IMMUTABLE_INGEST_URL)"

-- The end of `persistImmutableAuditEntry`.
abbrev pub conclude : AuditImmutableMode → Text → Gathered → Persisted
conclude mode payload_hash g =
    if is_required mode && not (no_errors g.blocking_errors)
    then not_persisted
        (codes "immutable audit persistence failed: " ++ join (codes "; ") g.blocking_errors)
    else receipt (record {
      mode = mode;
      payload_hash = payload_hash;
      sinks = g.sinks;
      warnings = g.warnings;
    })

module _ (platform : Platform) (services : Services) where
  open services use {World, bucket_put, bucket_get, kv_put, ingest}

  -- What is found where a conditional put was refused; `none` is success.
  abbrev pub same_object : Text → Text → Fetched → Option Text
  same_object key payload missing =
      some (codes "conditional put failed and object is missing: " ++ key)
  same_object key payload (get_failed message) = some message
  same_object key payload (found text) =
      if text_eq text payload then none else some (codes "immutable conflict detected for " ++ key)

  abbrev pub after_put : Text → Text → World × PutAnswer → World × Option Text
  after_put key payload (w, stored) = (w, none)
  after_put key payload (w, put_failed message) = (w, some message)
  after_put key payload (w, refused) = (w, same_object key payload (bucket_get key w))

  unfoldable pub put_if_absent_or_verify : Text → Text → World → World × Option Text
  put_if_absent_or_verify key payload w = after_put key payload (bucket_put if_absent key payload w)

  abbrev pub entry_key : AuditEvent → Text
  entry_key e = codes "audit/immutable/entry/" ++ (e.entry_hash ++ codes ".json")

  -- `:` and `.` become `-`.
  abbrev dashed : Text → Text
  dashed = map (λ c. if c == b':' || c == b'.' then b'-' else c)

  abbrev pub stream_key : AuditEvent → Text
  stream_key e =
      codes "audit/immutable/stream/"
      ++ (platform.encode_uri_component e.event_id
          ++ (codes "/" ++ (dashed e.ts ++ (codes "_" ++ (e.entry_hash ++ codes ".json")))))

  abbrev pub after_stream_copy : AuditEvent → Text → World × Option Text → World × Written
  after_stream_copy e at (w, some message) = (w, failed message)
  after_stream_copy e at (w, none) = (
    w,
    sinks_of (
        record { sink = r2_entry; ref = entry_key e; at = at }
        ∷ record { sink = r2_stream; ref = stream_key e; at = at }
        ∷ []),
  )

  abbrev pub after_entry_copy : AuditEvent → Text → Text → World × Option Text → World × Written
  after_entry_copy e payload at (w, some message) = (w, failed message)
  after_entry_copy e payload at (w, none) =
      after_stream_copy e at (put_if_absent_or_verify (stream_key e) payload w)

  unfoldable pub write_r2_immutable_copies : AuditEvent → Text → Text → World → World × Written
  unfolding put_if_absent_or_verify
  write_r2_immutable_copies e payload at w =
      after_entry_copy e payload at (put_if_absent_or_verify (entry_key e) payload w)

  abbrev or_genesis : Option Text → Text
  or_genesis none = codes "GENESIS"
  or_genesis (some h) = h

  abbrev index_value : AuditEvent → Text → Value
  index_value e payload_hash = object (
      field (codes "ts") (string e.ts) (
        field (codes "eventId") (string e.event_id) (
          field (codes "prev_hash") (string e.prev_hash) (
            field (codes "stream_prev_hash") (string (or_genesis e.stream_prev_hash))
              (field (codes "payload_hash") (string payload_hash) end)))))

  abbrev pub after_index : Text → Text → World × Option Text → World × Written
  after_index key at (w, some message) = (w, failed message)
  after_index key at (w, none) = (w, sinks_of (record { sink = kv_index; ref = key; at = at } ∷ []))

  unfoldable pub write_kv_index : AuditEvent → Text → Text → World → World × Written
  write_kv_index e payload_hash at w =
      let key = codes "audit:immutable:" ++ e.entry_hash in
      after_index key at (kv_put key (stringify platform (index_value e payload_hash)) w)

  abbrev pub accepted : Text → World × IngestAnswer → World × Written
  accepted at (w, not_answered message) = (w, failed message)
  accepted at (w, answered false status header) =
      (w, failed (codes "immutable ingest failed with status " ++ status))
  accepted at (w, answered true status header) = (
    w,
    sinks_of (
        record {
          sink = immutable_ingest;
          ref = if is_empty header then codes "http:" ++ status else header;
          at = at;
        }
        ∷ []),
  )

  abbrev ingest_body : Text → AuditEvent → Text → Value
  ingest_body source e payload_hash = object (
      field (codes "version") (integer 1) (
        field (codes "source") (string source) (
          field (codes "payload_hash") (string payload_hash)
            (field (codes "entry") (entry_value e) end))))

  unfoldable pub write_immutable_webhook :
      Text → Text → ℕ → Text → AuditEvent → Text → Text → World → World × Written
  write_immutable_webhook url token timeout_ms source e payload_hash at w = accepted at (
      ingest
        (record {
          url = url;
          token = token;
          timeout_ms = timeout_ms;
          entry_hash = e.entry_hash;
          payload_sha256 = payload_hash;
          body = stringify platform (ingest_body source e payload_hash);
        })
        w)

  -- Each sink that is configured, in the order of the program.
  abbrev pub to_bucket :
      ImmutableBindings → AuditEvent → Text → Text → World × Gathered → World × Gathered
  to_bucket b e payload at (w, g) =
      if b.audit_logs
      then (let r = write_r2_immutable_copies e payload at w in
          (r.0, gather_primary (codes "r2:") g r.1))
      else (w, g)

  abbrev pub to_index :
      ImmutableBindings → AuditEvent → Text → Text → World × Gathered → World × Gathered
  to_index b e payload_hash at (w, g) =
      if b.audit_index
      then (let r = write_kv_index e payload_hash at w in (r.0, gather_index g r.1))
      else (w, g)

  abbrev pub to_ingest :
      ImmutableBindings → Text → AuditEvent → Text → Text → World × Gathered → World × Gathered
  to_ingest b source e payload_hash at (w, g) =
      let url = trimmed_or_empty b.ingest_url in
      if is_empty url
      then (w, g)
      else (let r =
            write_immutable_webhook url (trimmed_or_empty b.ingest_token)
              (parse_timeout b.ingest_timeout_ms) source e payload_hash at w in
          (r.0, gather_primary (codes "ingest:") g r.1))

  abbrev pub nothing_gathered : Gathered
  nothing_gathered = record { sinks = []; blocking_errors = []; warnings = [] }

  abbrev pub finished : AuditImmutableMode → Text → World × Gathered → World × Persisted
  finished mode payload_hash (w, g) = (w, conclude mode payload_hash (check_primary g))

  abbrev pub not_sealed : AuditImmutableMode → Text → World → World × Persisted
  not_sealed mode payload_hash w = if is_required mode then (w, not_persisted not_configured) else (
    w,
    receipt (record {
      mode = mode;
      payload_hash = payload_hash;
      sinks = [];
      warnings = not_configured ∷ [];
    }),
  )

  abbrev pub persist_to_sinks :
      AuditImmutableMode → Text → ImmutableBindings → AuditEvent → Text → World → World × Persisted
  persist_to_sinks mode source b e at w =
      let payload = canonicalize platform (sealed source (entry_value e)) in
      let payload_hash = sha256_hex platform payload in
      if has_primary_immutable_sink b
      then finished mode payload_hash (
          to_ingest b source e payload_hash at
            (to_index b e payload_hash at (to_bucket b e payload at (w, nothing_gathered))))
      else not_sealed mode payload_hash w

  unfoldable pub persist_immutable_audit_entry :
      AuditImmutableMode → Text → ImmutableBindings → AuditEvent → Text → World → World × Persisted
  persist_immutable_audit_entry off source b e at w = (w, switched_off)
  persist_immutable_audit_entry best_effort source b e at w =
      persist_to_sinks best_effort source b e at w
  persist_immutable_audit_entry required source b e at w = persist_to_sinks required source b e at w
