-- ===== src/Audit/Conflicts.antt =====
-- What is in the bucket once an append that needs its copies has succeeded
-- (api-worker/src/audit/immutable.ts).
use instant_grant_core.Prelude.{
  Bool, true, false, Text, codes, is_empty, any, ◌≡◌, refl, inl, inr, Bool-cases,
}
use instant_grant_core.Audit.Canonical.{Platform, sha256_hex}
use instant_grant_core.Audit.Entry.{required, AuditEvent}
use instant_grant_core.Audit.Services.{
  Services, ImmutableBindings, has_primary_immutable_sink, trimmed_or_empty, parse_timeout,
}
use instant_grant_core.Audit.Sinks.{
  Written, sinks_of, failed, Persisted, not_persisted, Gathered, conclude, check_primary, to_bucket,
  to_index, to_ingest, persist_to_sinks, is_primary, nothing_gathered, finished, gather_primary,
  gather_index, no_errors,
}
use instant_grant_core.Audit.SinkLaws.{
  Keeps, AreCopied, AreCopied-kept, IsTaken, IsWritten, copies-IsTaken, index-IsWritten,
  webhook-IsWritten,
}
use instant_grant_core.Audit.Copies.{no_errors-add, payload_of}

abbrev pub is_persisted : Persisted → Bool
is_persisted (not_persisted message) = false
is_persisted _ = true

check_primary-no_errors :
    (g : Gathered)
    → no_errors (check_primary g).blocking_errors ≡ true
    → no_errors g.blocking_errors ≡ true
check_primary-no_errors g h = elim (Bool-cases (any is_primary g.sinks)) [
  | inl primary ↦ rw primary at h
  | inr missing_sink ↦ absurd (
      cc (
        rw
          (
            missing_sink,
            no_errors-add g.blocking_errors (codes "no immutable sink accepted this entry"),
          )
          at h))
]

conclude-no_errors :
    (payload_hash : Text) (g : Gathered)
    → is_persisted (conclude required payload_hash g) ≡ true
    → no_errors g.blocking_errors ≡ true
conclude-no_errors payload_hash g h = elim (Bool-cases (no_errors g.blocking_errors)) [
  | inl clean ↦ clean
  | inr errors ↦ absurd (cc (rw errors at h))
]

module _ (platform : Platform) (services : Services) where
  open services use {World}

  written-Keeps :
      (payload : Text) (w : World) (r : World × Written)
      → IsWritten platform services payload w r
      → Keeps platform services w r.0
  written-Keeps payload w (w', failed message) keeps = keeps
  written-Keeps payload w (w', sinks_of ss) (keeps, h) = keeps

  -- Without a blocking error the copies are there.
  abbrev IsCovered : AuditEvent → Text → World × Gathered → Type 0
  IsCovered e payload (w, g) =
      no_errors g.blocking_errors ≡ true → AreCopied platform services e payload w

  gather_copies-IsCovered :
      (e : AuditEvent) (payload : Text) (r : World × Written)
      → IsTaken platform services e payload r
      → IsCovered e payload
          (r.0, gather_primary (codes "r2:") (nothing_gathered platform services) r.1)
  gather_copies-IsCovered e payload (w, failed message) taken clean = cc
  gather_copies-IsCovered e payload (w, sinks_of ss) taken clean = taken

  gather_primary-IsCovered :
      (e : AuditEvent) (payload name : Text) (w : World) (g : Gathered) (r : World × Written)
      → IsCovered e payload (w, g)
      → Keeps platform services w r.0
      → IsCovered e payload (r.0, gather_primary name g r.1)
  gather_primary-IsCovered e payload name w g (w', failed message) covered keeps clean =
      absurd (cc (rw (no_errors-add g.blocking_errors _) at clean))
  gather_primary-IsCovered e payload name w g (w', sinks_of ss) covered keeps clean =
      AreCopied-kept platform services e payload w w' keeps (covered clean)

  gather_index-IsCovered :
      (e : AuditEvent) (payload : Text) (w : World) (g : Gathered) (r : World × Written)
      → IsCovered e payload (w, g)
      → Keeps platform services w r.0
      → IsCovered e payload (r.0, gather_index g r.1)
  gather_index-IsCovered e payload w g (w', failed message) covered keeps clean =
      AreCopied-kept platform services e payload w w' keeps (covered clean)
  gather_index-IsCovered e payload w g (w', sinks_of ss) covered keeps clean =
      AreCopied-kept platform services e payload w w' keeps (covered clean)

  to_index-IsCovered :
      (b : ImmutableBindings) (e : AuditEvent) (payload payload_hash at : Text)
      (s : World × Gathered)
      → IsCovered e payload s
      → IsCovered e payload (to_index platform services b e payload_hash at s)
  to_index-IsCovered b e payload payload_hash at (w, g) covered = elim (Bool-cases b.audit_index) [
    | inr unbound ↦ rw unbound covered
    | inl bound ↦ rw bound (
        gather_index-IsCovered e payload w g _ covered (
          written-Keeps payload w _
            (index-IsWritten platform services e payload payload_hash at w)))
  ]

  to_ingest-IsCovered :
      (b : ImmutableBindings) (source : Text) (e : AuditEvent) (payload payload_hash at : Text)
      (s : World × Gathered)
      → IsCovered e payload s
      → IsCovered e payload (to_ingest platform services b source e payload_hash at s)
  to_ingest-IsCovered b source e payload payload_hash at (w, g) covered =
      elim (Bool-cases (is_empty (trimmed_or_empty b.ingest_url))) [
        | inl unset ↦ rw unset covered
        | inr set ↦ rw set (
            gather_primary-IsCovered e payload (codes "ingest:") w g _ covered (
              written-Keeps payload w _ (
                webhook-IsWritten platform services (trimmed_or_empty b.ingest_url)
                  (trimmed_or_empty b.ingest_token) (parse_timeout b.ingest_timeout_ms) source e
                  payload payload_hash at w)))
      ]

  finished-AreCopied :
      (e : AuditEvent) (payload payload_hash : Text) (s : World × Gathered)
      → IsCovered e payload s
      → is_persisted (finished platform services required payload_hash s).1 ≡ true
      → AreCopied platform services e payload (finished platform services required payload_hash s).0
  finished-AreCopied e payload payload_hash (w, g) covered persisted =
      covered
        (check_primary-no_errors g (conclude-no_errors payload_hash (check_primary g) persisted))

  bound-configured :
      (b : ImmutableBindings) → b.audit_logs ≡ true → has_primary_immutable_sink b ≡ true
  unfolding has_primary_immutable_sink
  bound-configured b bound = rw bound refl

  -- With the bucket bound, an entry that was persisted in the mode `required` has both its copies.
  pub persist_to_sinks-AreCopied :
      (source : Text) (b : ImmutableBindings) (e : AuditEvent) (at : Text) (w : World)
      → b.audit_logs ≡ true
      → is_persisted (persist_to_sinks platform services required source b e at w).1 ≡ true
      → AreCopied platform services e
          (payload_of platform services source e)
          (persist_to_sinks platform services required source b e at w).0
  persist_to_sinks-AreCopied source b e at w bound persisted =
      let payload = payload_of platform services source e in
      let hash = sha256_hex platform payload in
      let in_bucket =
        to_bucket platform services b e payload at (w, nothing_gathered platform services) in
      let in_index = to_index platform services b e hash at in_bucket in
      let in_ingest = to_ingest platform services b source e hash at in_index in
      let configured = bound-configured b bound in
      let copied : IsCovered e payload in_bucket =
        rw bound
          (gather_copies-IsCovered e payload _ (copies-IsTaken platform services e payload at w)) in
      rw configured (
        finished-AreCopied e payload hash in_ingest
          (to_ingest-IsCovered b source e payload hash at in_index
            (to_index-IsCovered b e payload hash at in_bucket copied))
          (rw configured at persisted))
