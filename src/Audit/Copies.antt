-- ===== src/Audit/Copies.antt =====
-- What the copies of an entry leave behind (api-worker/src/audit/immutable.ts).
use instant_grant_core.Prelude.{
  true, false, ◌&&◌, not, List, [], ◌∷◌, ◌++◌, Text, codes, is_empty, any, All, All-append, ◌≡◌,
  refl, inl, inr, Bool-cases,
}
use instant_grant_core.Audit.Canonical.{Platform, canonicalize, sha256_hex}
use instant_grant_core.Audit.Entry.{
  AuditImmutableMode, required, best_effort, off, AuditImmutableSink, AuditEvent, entry_value,
  sealed,
}
use instant_grant_core.Audit.Services.{
  Services, ImmutableBindings, has_primary_immutable_sink, trimmed_or_empty, parse_timeout,
}
use instant_grant_core.Audit.Sinks.{
  Written, sinks_of, failed, Persisted, receipt, not_persisted, switched_off, Gathered, to_bucket,
  to_index, to_ingest, persist_to_sinks, persist_immutable_audit_entry, is_primary,
  nothing_gathered, finished, gather_primary, gather_index, is_required, no_errors, not_sealed,
}
use instant_grant_core.Audit.SinkLaws.{
  Keeps, Keeps-trans, IsSealed, IsSealed-kept, IsWritten, copies-IsWritten, index-IsWritten,
  webhook-IsWritten,
}

pub no_errors-add : (es : List Text) (e : Text) → no_errors (es ++ (e ∷ [])) ≡ false
no_errors-add [] e = refl
no_errors-add (d ∷ es) e = refl

module _ (platform : Platform) (services : Services) where
  open services use {World, bucket_get}

  abbrev IsGathered : Text → World → World × Gathered → Type 0
  IsGathered payload w (w', g) =
      Keeps platform services w w' × All (IsSealed platform services payload w') g.sinks

  more-IsGathered :
      (payload : Text) (w w' w'' : World) (ss ts : List AuditImmutableSink)
      → Keeps platform services w w' × All (IsSealed platform services payload w') ss
      → Keeps platform services w' w''
      → All (IsSealed platform services payload w'') ts
      → Keeps platform services w w'' × All (IsSealed platform services payload w'') (ss ++ ts)
  more-IsGathered payload w w' w'' ss ts (keeps, h) kept new = (
    Keeps-trans platform services w w' w'' keeps kept,
    All-append (IsSealed platform services payload w'') ss ts
        (IsSealed-kept platform services payload w' w'' ss kept h) new,
  )

  same-IsGathered :
      (payload : Text) (w w' w'' : World) (ss : List AuditImmutableSink)
      → Keeps platform services w w' × All (IsSealed platform services payload w') ss
      → Keeps platform services w' w''
      → Keeps platform services w w'' × All (IsSealed platform services payload w'') ss
  same-IsGathered payload w w' w'' ss (keeps, h) kept = (
    Keeps-trans platform services w w' w'' keeps kept,
    IsSealed-kept platform services payload w' w'' ss kept h,
  )

  gather_primary-IsGathered :
      (payload name : Text) (w w' : World) (g : Gathered) (r : World × Written)
      → IsGathered payload w (w', g)
      → IsWritten platform services payload w' r
      → IsGathered payload w (r.0, gather_primary name g r.1)
  gather_primary-IsGathered payload name w w' g (w'', failed message) h kept =
      same-IsGathered payload w w' w'' g.sinks h kept
  gather_primary-IsGathered payload name w w' g (w'', sinks_of ss) h (kept, new) =
      more-IsGathered payload w w' w'' g.sinks ss h kept new

  gather_index-IsGathered :
      (payload : Text) (w w' : World) (g : Gathered) (r : World × Written)
      → IsGathered payload w (w', g)
      → IsWritten platform services payload w' r
      → IsGathered payload w (r.0, gather_index g r.1)
  gather_index-IsGathered payload w w' g (w'', failed message) h kept =
      same-IsGathered payload w w' w'' g.sinks h kept
  gather_index-IsGathered payload w w' g (w'', sinks_of ss) h (kept, new) =
      more-IsGathered payload w w' w'' g.sinks ss h kept new

  to_bucket-IsGathered :
      (b : ImmutableBindings) (e : AuditEvent) (payload at : Text) (w : World)
      (s : World × Gathered)
      → IsGathered payload w s
      → IsGathered payload w (to_bucket platform services b e payload at s)
  to_bucket-IsGathered b e payload at w (w', g) h = elim (Bool-cases b.audit_logs) [
    | inr unbound ↦ rw unbound h
    | inl bound ↦ rw bound (
        gather_primary-IsGathered payload (codes "r2:") w w' g _ h
          (copies-IsWritten platform services e payload at w'))
  ]

  to_index-IsGathered :
      (b : ImmutableBindings) (e : AuditEvent) (payload payload_hash at : Text) (w : World)
      (s : World × Gathered)
      → IsGathered payload w s
      → IsGathered payload w (to_index platform services b e payload_hash at s)
  to_index-IsGathered b e payload payload_hash at w (w', g) h = elim (Bool-cases b.audit_index) [
    | inr unbound ↦ rw unbound h
    | inl bound ↦ rw bound (
        gather_index-IsGathered payload w w' g _ h
          (index-IsWritten platform services e payload payload_hash at w'))
  ]

  to_ingest-IsGathered :
      (b : ImmutableBindings) (source : Text) (e : AuditEvent) (payload payload_hash at : Text)
      (w : World) (s : World × Gathered)
      → IsGathered payload w s
      → IsGathered payload w (to_ingest platform services b source e payload_hash at s)
  to_ingest-IsGathered b source e payload payload_hash at w (w', g) h =
      elim (Bool-cases (is_empty (trimmed_or_empty b.ingest_url))) [
        | inl unset ↦ rw unset h
        | inr set ↦ rw set (
            gather_primary-IsGathered payload (codes "ingest:") w w' g _ h (
              webhook-IsWritten platform services (trimmed_or_empty b.ingest_url)
                (trimmed_or_empty b.ingest_token) (parse_timeout b.ingest_timeout_ms) source e
                payload payload_hash at w'))
      ]

  -- What the copies of an entry leave behind, and what a receipt says.
  abbrev pub IsPersisted : AuditImmutableMode → Text → World → World × Persisted → Type 0
  IsPersisted mode payload w (w', switched_off) =
      Keeps platform services w w' × (is_required mode ≡ false)
  IsPersisted mode payload w (w', not_persisted message) = Keeps platform services w w'
  IsPersisted mode payload w (w', receipt r) =
      Keeps platform services w w'
      × All (IsSealed platform services payload w') r.sinks
      × (r.payload_hash ≡ sha256_hex platform payload)
      × (is_required mode ≡ true → any is_primary r.sinks ≡ true)

  finished-IsPersisted :
      (mode : AuditImmutableMode) (payload : Text) (w : World) (s : World × Gathered)
      → IsGathered payload w s
      → IsPersisted mode payload w (finished platform services mode (sha256_hex platform payload) s)
  finished-IsPersisted mode payload w (w', g) (keeps, h) =
      elim (Bool-cases (any is_primary g.sinks)) [
        | inl primary ↦
            rw primary (elim (Bool-cases (is_required mode && not (no_errors g.blocking_errors))) [
              | inl refuse ↦ rw refuse keeps
              | inr accept ↦ rw accept (keeps, h, refl, λ needed. primary)
            ])
        | inr missing_sink ↦
            rw (missing_sink, no_errors-add g.blocking_errors _)
              (elim (Bool-cases (is_required mode)) [
                | inl needed ↦ rw needed keeps
                | inr relaxed ↦
                    rw relaxed (keeps, h, refl, λ needed. absurd (cc (rw relaxed at needed)))
              ])
      ]

  not_sealed-IsPersisted :
      (mode : AuditImmutableMode) (payload : Text) (w : World)
      → IsPersisted mode payload w
          (not_sealed platform services mode (sha256_hex platform payload) w)
  not_sealed-IsPersisted mode payload w = elim (Bool-cases (is_required mode)) [
    | inl needed ↦ rw needed (λ j q there. there)
    | inr relaxed ↦
        rw relaxed ((λ j q there. there), tt, refl, λ needed. absurd (cc (rw relaxed at needed)))
  ]

  abbrev pub payload_of : Text → AuditEvent → Text
  payload_of source e = canonicalize platform (sealed source (entry_value e))

  persist_to_sinks-IsPersisted :
      (mode : AuditImmutableMode) (source : Text) (b : ImmutableBindings) (e : AuditEvent)
      (at : Text) (w : World)
      → IsPersisted mode
          (payload_of source e)
          w
          (persist_to_sinks platform services mode source b e at w)
  persist_to_sinks-IsPersisted mode source b e at w =
      let payload = payload_of source e in
      let hash = sha256_hex platform payload in
      let in_bucket =
        to_bucket-IsGathered b e payload at w (w, nothing_gathered platform services)
          ((λ j q there. there), tt) in
      let in_index = to_index-IsGathered b e payload hash at w _ in_bucket in
      elim (Bool-cases (has_primary_immutable_sink b)) [
        | inl configured ↦ rw configured (
            finished-IsPersisted mode payload w _
              (to_ingest-IsGathered b source e payload hash at w _ in_index))
        | inr unconfigured ↦ rw unconfigured (not_sealed-IsPersisted mode payload w)
      ]

  pub persist-IsPersisted :
      (mode : AuditImmutableMode) (source : Text) (b : ImmutableBindings) (e : AuditEvent)
      (at : Text) (w : World)
      → IsPersisted mode
          (payload_of source e)
          w
          (persist_immutable_audit_entry platform services mode source b e at w)
  unfolding persist_immutable_audit_entry
  persist-IsPersisted off source b e at w = ((λ j q there. there), refl)
  persist-IsPersisted best_effort source b e at w =
      persist_to_sinks-IsPersisted best_effort source b e at w
  persist-IsPersisted required source b e at w =
      persist_to_sinks-IsPersisted required source b e at w

  pub IsPersisted-Keeps :
      (mode : AuditImmutableMode) (payload : Text) (w : World) (p : World × Persisted)
      → IsPersisted mode payload w p
      → Keeps platform services w p.0
  IsPersisted-Keeps mode payload w (w', switched_off) h = h.0
  IsPersisted-Keeps mode payload w (w', not_persisted message) h = h
  IsPersisted-Keeps mode payload w (w', receipt r) h = h.0
