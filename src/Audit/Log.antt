-- ===== src/Audit/Log.antt =====
-- The rows of the audit log as an abstract log: a list of entries from the newest on, of which each
-- names the hash of the one before it, in the whole log and in its event's stream.
use instant_grant_core.Prelude.{
  ℕ, Bool, true, false, ◌&&◌, not, Option, none, some, List, [], ◌∷◌, Text, codes, text_eq, keep_if,
  ◌≡◌, ◌∙◌, refl, ap, arith,
}
use instant_grant_core.Audit.Canonical.{Platform, sha256_hex, hex_bytes, text_lt}
use instant_grant_core.Audit.Entry.{
  AuditImmutableMode, AuditImmutableReceipt, AuditEvent, build_audit_hash_input,
}
use instant_grant_core.Audit.Services.{Services, ImmutableBindings}
use instant_grant_core.Audit.Sinks.{Persisted, switched_off, receipt, not_persisted}
use instant_grant_core.Audit.Append.{
  AuditRows, AuditLogRequest, Appended, appended, append_failed, genesis, hash_or_genesis,
  put_history, history_key, audit_last_hash_global_key, stream_last_hash_key, full_entry,
  hash_entry, with_immutable, store_entry, after_persist, append_audit_log, rows_of,
}
use instant_grant_core.Audit.Verify.{is_of}
use instant_grant_core.Audit.Windows.{top_or, text_eq_comm}

abbrev pub entries_of : AuditRows → List AuditEvent
entries_of rows = rows_of rows.history

abbrev pub last_of : List AuditEvent → Text
last_of es = top_or genesis es

abbrev pub stream_of : Text → List AuditEvent → List AuditEvent
stream_of event_id es = keep_if (is_of event_id) es

abbrev pub global_id : Text
global_id = codes "global"

-- Whether a key comes after all the keys of a history.
abbrev pub is_after : Text → List (Text × AuditEvent) → Bool
is_after key [] = true
is_after key ((k, e) ∷ rows) = not (text_eq key k) && text_lt k key

-- A hash is a text of hexadecimal digits.
hex_bytes-ne-genesis :
    (platform : Platform) (bs : List ℕ) → text_eq (hex_bytes platform bs) genesis ≡ false
hex_bytes-ne-genesis platform [] = refl
hex_bytes-ne-genesis platform (b ∷ bs) = ground arith

pub sha256_hex-ne-genesis :
    (platform : Platform) (t : Text) → text_eq (sha256_hex platform t) genesis ≡ false
unfolding sha256_hex
sha256_hex-ne-genesis platform t = hex_bytes-ne-genesis platform (platform.digest t)

module _ (platform : Platform) where
  -- An entry that continues a log.
  pub record Continues (e : AuditEvent) (es : List AuditEvent) : Type 0 where
    pub prev_hash : e.prev_hash ≡ last_of es
    pub stream_prev_hash : e.stream_prev_hash ≡ some (last_of (stream_of e.event_id es))
    pub hash : hash_entry platform e ≡ e.entry_hash

  -- The rows hold the last hashes of the log and of the streams. The stream of the event `global`
  -- shares its row with the whole log and is left aside.
  pub record HoldsLast (rows : AuditRows) : Type 0 where
    pub global_last :
        hash_or_genesis (rows.last_hashes audit_last_hash_global_key) ≡ last_of (entries_of rows)
    pub stream_last :
        (event_id : Text)
        → text_eq event_id global_id ≡ false
        → hash_or_genesis (rows.last_hashes (stream_last_hash_key event_id))
          ≡ last_of (stream_of event_id (entries_of rows))

  -- What an append does to the log.
  abbrev pub Extends : AuditLogRequest → Text → AuditRows → AuditRows → Appended → Type 0
  Extends q ts rows rows' (append_failed message) = rows' ≡ rows
  Extends q ts rows rows' (appended e) =
      (entries_of rows' ≡ e ∷ entries_of rows)
      × Continues e (entries_of rows)
      × (e.ts ≡ ts)
      × (e.event ≡ q.event)
      × (e.event_id ≡ q.event_id)
      × (e.actor ≡ q.actor)
      × (e.content ≡ q.content)
      × HoldsLast rows'

  rows_of-put_history :
      (key : Text) (e : AuditEvent) (rows : List (Text × AuditEvent))
      → is_after key rows ≡ true
      → rows_of (put_history key e rows) ≡ e ∷ rows_of rows
  unfolding put_history
  rows_of-put_history key e [] after = refl
  rows_of-put_history key e ((j, f) ∷ rows) after = ground arith

  full_entry-Continues :
      (q : AuditLogRequest) (ts : Text) (rows : AuditRows) (r : Option AuditImmutableReceipt)
      → HoldsLast rows
      → text_eq q.event_id global_id ≡ false
      → Continues (with_immutable (full_entry platform q ts rows) r) (entries_of rows)
  unfolding build_audit_hash_input
  full_entry-Continues q ts rows r holds named = record {
    prev_hash = holds.global_last;
    stream_prev_hash = ap some (holds.stream_last q.event_id named);
    hash = refl;
  }

  store_entry-HoldsLast :
      (e : AuditEvent) (rows : AuditRows)
      → HoldsLast rows
      → text_eq e.event_id global_id ≡ false
      → is_after (history_key e.ts e.entry_hash) rows.history ≡ true
      → HoldsLast (store_entry e rows)
  store_entry-HoldsLast e rows holds named after =
      let longer = rows_of-put_history (history_key e.ts e.entry_hash) e rows.history after in
      record {
        global_last = rw (longer, named) refl;
        stream_last = λ event_id other. rw longer (
            let other' : text_eq global_id event_id ≡ false =
              text_eq_comm global_id event_id ∙ other in
            ground (arith, holds.stream_last event_id other));
      }

  -- What is appended continues the log.
  after_persist-Extends {ℓ} :
      {W : Type ℓ} (q : AuditLogRequest) (ts : Text) (rows : AuditRows) (p : W × Persisted)
      → HoldsLast rows
      → text_eq q.event_id global_id ≡ false
      → is_after (history_key ts (full_entry platform q ts rows).entry_hash) rows.history ≡ true
      → Extends q ts rows
          (after_persist (full_entry platform q ts rows) rows p).0.1
          (after_persist (full_entry platform q ts rows) rows p).1
  after_persist-Extends q ts rows (w, not_persisted message) holds named after = refl
  after_persist-Extends q ts rows (w, switched_off) holds named after = (
    rows_of-put_history _ _ rows.history after,
    full_entry-Continues q ts rows none holds named,
    refl,
    refl,
    refl,
    refl,
    refl,
    store_entry-HoldsLast _ rows holds named after,
  )
  after_persist-Extends q ts rows (w, receipt r) holds named after = (
    rows_of-put_history _ _ rows.history after,
    full_entry-Continues q ts rows (some r) holds named,
    refl,
    refl,
    refl,
    refl,
    refl,
    store_entry-HoldsLast _ rows holds named after,
  )

module _ (platform : Platform) (services : Services) where
  open services use {World}

  -- Appending implements the abstract log. While the rows hold the last hashes, an append whose
  -- history key comes after the keys that are there, for an event that is not called `global`,
  -- either fails and leaves the rows as they were, or puts one entry in front of the history: the
  -- entry has the request's content and the time, its hash is that of its own fields, it names the
  -- newest entry of the log and the newest of its event's stream, or GENESIS, and the rows hold the
  -- last hashes again.
  pub append_audit_log-Extends :
      (mode : AuditImmutableMode) (b : ImmutableBindings) (q : AuditLogRequest) (ts at : Text)
      (w : World) (rows : AuditRows)
      → HoldsLast platform rows
      → text_eq q.event_id global_id ≡ false
      → is_after (history_key ts (full_entry platform q ts rows).entry_hash) rows.history ≡ true
      → Extends platform q ts rows
          (append_audit_log platform services mode b q ts at (w, rows)).0.1
          (append_audit_log platform services mode b q ts at (w, rows)).1
  unfolding append_audit_log
  append_audit_log-Extends mode b q ts at w rows holds named after =
      after_persist-Extends platform q ts rows _ holds named after
