-- ===== src/Audit/Immutable.antt =====
-- The copies outside the log are immutable (api-worker/src/audit/immutable.ts, appendAuditLog in
-- api-worker/src/storeDO.ts).
use instant_grant_core.Prelude.{
  Bool, true, false, ◌&&◌, ◌||◌, not, text_eq, text_eq_sound, Text, text_eq_refl, ◌≡◌, refl, inl,
  inr, Bool-cases,
}
use instant_grant_core.Audit.Canonical.{Platform}
use instant_grant_core.Audit.Entry.{
  AuditImmutableMode, required, best_effort, off, AuditEvent, immutable_audit_source,
}
use instant_grant_core.Audit.Services.{Services, found, ImmutableBindings}
use instant_grant_core.Audit.Sinks.{
  entry_key, stream_key, is_required, Persisted, receipt, not_persisted, switched_off,
  persist_immutable_audit_entry,
}
use instant_grant_core.Audit.Append.{
  AuditRows, AuditLogRequest, Appended, appended, append_failed, after_persist, full_entry,
  append_audit_log,
}
use instant_grant_core.Audit.SinkLaws.{AreCopied}
use instant_grant_core.Audit.Conflicts.{is_persisted, persist_to_sinks-AreCopied}
use instant_grant_core.Audit.Copies.{persist-IsPersisted, IsPersisted-Keeps, payload_of}

abbrev pub is_appended : Appended → Bool
is_appended (appended e) = true
is_appended (append_failed message) = false

never :
    (needed bound conflict done : Bool)
    → (needed ≡ true → bound ≡ true → done ≡ true → conflict ≡ false)
    → (needed && (bound && (conflict && done))) ≡ false
never false bound conflict done h = refl
never true false conflict done h = refl
never true true false done h = refl
never true true true false h = refl
never true true true true h = h refl refl refl

module _ (platform : Platform) (services : Services) where
  open services use {World, bucket_get}

  after_persist-world :
      (e : AuditEvent) (rows : AuditRows) (p : World × Persisted)
      → (after_persist e rows p).0.0 ≡ p.0
  after_persist-world e rows (w, switched_off) = refl
  after_persist-world e rows (w, receipt r) = refl
  after_persist-world e rows (w, not_persisted message) = refl

  after_persist-is_appended :
      (e : AuditEvent) (rows : AuditRows) (p : World × Persisted)
      → is_appended (after_persist e rows p).1 ≡ is_persisted p.1
  after_persist-is_appended e rows (w, switched_off) = refl
  after_persist-is_appended e rows (w, receipt r) = refl
  after_persist-is_appended e rows (w, not_persisted message) = refl

  -- Whether an object stands where an entry's copy belongs and is not the entry's payload.
  abbrev pub is_conflict : AuditEvent → Text → Text → Bool
  is_conflict e key object =
      (text_eq key (entry_key platform services e) || text_eq key (stream_key platform services e))
      && not (text_eq object (payload_of platform services immutable_audit_source e))

  AreCopied-conflict :
      (e : AuditEvent) (w : World) (key object : Text)
      → AreCopied platform services e (payload_of platform services immutable_audit_source e) w
      → bucket_get key w ≡ found object
      → is_conflict e key object ≡ false
  AreCopied-conflict e w key object (first, second) there =
      let payload = payload_of platform services immutable_audit_source e in
      elim (Bool-cases (text_eq key (entry_key platform services e))) [
        | inl named ↦
            let at : key ≡ entry_key platform services e = text_eq_sound key _ named in
            let same : object ≡ payload = cc (rw at at there, first) in
            rw (named, same, text_eq_refl payload) refl
        | inr other ↦ elim (Bool-cases (text_eq key (stream_key platform services e))) [
          | inr neither ↦ rw (other, neither) refl
          | inl named ↦
              let at : key ≡ stream_key platform services e = text_eq_sound key _ named in
              let same : object ≡ payload = cc (rw at at there, second) in
              rw (other, named, same, text_eq_refl payload) refl
        ]
      ]

  AreCopied-appended :
      (mode : AuditImmutableMode) (b : ImmutableBindings) (e : AuditEvent) (at : Text) (w : World)
      (key object : Text)
      → bucket_get key
          (persist_immutable_audit_entry platform services mode immutable_audit_source b e at w).0
        ≡ found object
      → is_required mode ≡ true
      → b.audit_logs ≡ true
      → is_persisted
          (persist_immutable_audit_entry platform services mode immutable_audit_source b e at w).1
        ≡ true
      → is_conflict e key object ≡ false
  unfolding persist_immutable_audit_entry
  AreCopied-appended off b e at w key object there needed bound persisted = cc
  AreCopied-appended best_effort b e at w key object there needed bound persisted = cc
  AreCopied-appended required b e at w key object there needed bound persisted =
      AreCopied-conflict e _ key object
        (persist_to_sinks-AreCopied platform services immutable_audit_source b e at w bound
          persisted)
        there

  -- The copies are immutable. In every mode and with every configuration, an append leaves each
  -- object that the bucket holds as it was, whether it succeeds or fails. In the mode `required`
  -- with the bucket bound, an append does not succeed where one of these objects stands under the key
  -- of the entry's copy or of its copy in the stream and is not the entry's payload.
  pub append_audit_log-Keeps :
      (mode : AuditImmutableMode) (b : ImmutableBindings) (q : AuditLogRequest) (ts at : Text)
      (w : World) (rows : AuditRows) (key object : Text)
      → bucket_get key w ≡ found object
      → (bucket_get key (append_audit_log platform services mode b q ts at (w, rows)).0.0
          ≡ found object)
        × ((is_required mode
              && (b.audit_logs
                  && (is_conflict (full_entry platform q ts rows) key object
                      && is_appended
                          (append_audit_log platform services mode b q ts at (w, rows)).1)))
            ≡ false)
  unfolding append_audit_log
  append_audit_log-Keeps mode b q ts at w rows key object there =
      let e = full_entry platform q ts rows in
      let p =
        persist_immutable_audit_entry platform services mode immutable_audit_source b e at w in
      let kept =
        IsPersisted-Keeps platform services mode _ w p
          (persist-IsPersisted platform services mode immutable_audit_source b e at w) key object
          there in
      (
        rw (after_persist-world e rows p) kept,
        rw (after_persist-is_appended e rows p) (
            never (is_required mode) b.audit_logs (is_conflict e key object) (is_persisted p.1)
              (AreCopied-appended mode b e at w key object kept)),
      )
