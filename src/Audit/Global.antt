-- ===== src/Audit/Global.antt =====
-- The event whose id is `global`: the row of its stream's last hash is that of the whole log
-- (api-worker/src/storeDO.ts, appendAuditLog).
use instant_grant_core.Prelude.{none, some, Text, ◌≡◌, refl, arith}
use instant_grant_core.Audit.Canonical.{Platform}
use instant_grant_core.Audit.Entry.{AuditImmutableMode, AuditEvent, immutable_audit_source}
use instant_grant_core.Audit.Services.{Services, ImmutableBindings}
use instant_grant_core.Audit.Sinks.{
  Persisted, switched_off, receipt, not_persisted, persist_immutable_audit_entry,
}
use instant_grant_core.Audit.Append.{
  AuditRows, AuditLogRequest, Appended, appended, append_failed, full_entry, after_persist,
  append_audit_log, store_entry, with_immutable, audit_last_hash_global_key,
}
use instant_grant_core.Audit.Log.{global_id}

-- What the second of two appends names, in the log and in its stream: the entry of the first.
abbrev pub NamesTwice : Appended → Appended → Type 0
NamesTwice (append_failed message) r = Unit
NamesTwice (appended e) (append_failed message) = Unit
NamesTwice (appended e) (appended f) =
    (f.prev_hash ≡ e.entry_hash) × (f.stream_prev_hash ≡ some e.entry_hash)

module _ (platform : Platform) (services : Services) where
  open services use {World}

  store_entry-last :
      (e : AuditEvent) (rows : AuditRows)
      → (store_entry e rows).last_hashes audit_last_hash_global_key ≡ some e.entry_hash
  store_entry-last e rows = ground arith

  after_persist-NamesTwice {ℓ} :
      {W : Type ℓ} (e f : AuditEvent) (rows : AuditRows) (p : W × Persisted)
      → f.prev_hash ≡ e.entry_hash
      → f.stream_prev_hash ≡ some e.entry_hash
      → NamesTwice (appended e) (after_persist f rows p).1
  after_persist-NamesTwice e f rows (w, switched_off) prev stream = (prev, stream)
  after_persist-NamesTwice e f rows (w, receipt r) prev stream = (prev, stream)
  after_persist-NamesTwice e f rows (w, not_persisted message) prev stream = tt

  after_entry-NamesTwice :
      (mode : AuditImmutableMode) (b : ImmutableBindings) (q : AuditLogRequest) (ts at : Text)
      (w : World) (rows : AuditRows) (e : AuditEvent)
      → q.event_id ≡ global_id
      → NamesTwice
          (appended e)
          (append_audit_log platform services mode b q ts at (w, store_entry e rows)).1
  unfolding append_audit_log
  after_entry-NamesTwice mode b q ts at w rows e named =
      let last = store_entry-last e rows in
      after_persist-NamesTwice e (full_entry platform q ts (store_entry e rows))
        (store_entry e rows) _ (rw last refl) (rw (named, last) refl)

  after_first-NamesTwice :
      (mode : AuditImmutableMode) (b : ImmutableBindings) (q : AuditLogRequest) (ts at : Text)
      (rows : AuditRows) (e : AuditEvent) (p : World × Persisted)
      → q.event_id ≡ global_id
      → NamesTwice
          (after_persist e rows p).1
          (append_audit_log platform services mode b q ts at (after_persist e rows p).0).1
  after_first-NamesTwice mode b q ts at rows e (w, switched_off) named =
      after_entry-NamesTwice mode b q ts at w rows (with_immutable e none) named
  after_first-NamesTwice mode b q ts at rows e (w, receipt r) named =
      after_entry-NamesTwice mode b q ts at w rows (with_immutable e (some r)) named
  after_first-NamesTwice mode b q ts at rows e (w, not_persisted message) named = tt

  -- Of two appends, one after the other, where the second is for an event whose id is `global` and
  -- the first is for any event: where both succeed, the entry of the second names that of the first
  -- both as the one before it in the log and as the one before it in its own stream, also where the
  -- first is of another event.
  pub append_audit_log-global :
      (mode mode' : AuditImmutableMode) (b b' : ImmutableBindings) (q q' : AuditLogRequest)
      (ts at ts' at' : Text) (w : World) (rows : AuditRows)
      → q'.event_id ≡ global_id
      → NamesTwice
          (append_audit_log platform services mode b q ts at (w, rows)).1
          (append_audit_log platform services mode' b' q' ts' at'
            (append_audit_log platform services mode b q ts at (w, rows)).0).1
  unfolding append_audit_log
  append_audit_log-global mode mode' b b' q q' ts at ts' at' w rows named =
      after_first-NamesTwice mode' b' q' ts' at' rows (full_entry platform q ts rows)
        (persist_immutable_audit_entry platform services mode immutable_audit_source b
          (full_entry platform q ts rows) at w)
        named
