-- ===== src/Audit/FailClosed.antt =====
-- Where the log needs its copies, an entry is stored only with them.
use instant_grant_core.Prelude.{Bool, true, Option, none, some, List, [], All, keep_if, ◌≡◌}
use instant_grant_core.Audit.Canonical.{Platform}
use instant_grant_core.Audit.Entry.{
  AuditImmutableSink, AuditImmutableReceipt, build_immutable_payload,
}
use instant_grant_core.Audit.Services.{Services, found}
use instant_grant_core.Audit.Append.{Appended, appended, append_failed}
use instant_grant_core.Audit.Chain.{AuditIntegrityIssue}
use instant_grant_core.Audit.Rows.{entry_issues}
use instant_grant_core.Audit.SinkLaws.{is_in_bucket}

abbrev pub sinks_of_receipt : Option AuditImmutableReceipt → List AuditImmutableSink
sinks_of_receipt none = []
sinks_of_receipt (some r) = r.sinks

module _ (platform : Platform) (services : Services) where
  open services use {World, bucket_get}

  -- The issues of what an append gives; a failure has none.
  abbrev pub issues_of_appended : Bool → World → Appended → List AuditIntegrityIssue
  issues_of_appended audit_logs w (append_failed message) = []
  issues_of_appended audit_logs w (appended e) = entry_issues platform services true audit_logs w e

  -- Every object of the bucket that the receipt of an entry names is the entry's payload.
  abbrev pub AreThere : World → Appended → Type 0
  AreThere w (append_failed message) = Unit
  AreThere w (appended e) =
      All (λ s. bucket_get s.ref w ≡ found (build_immutable_payload platform e))
        (keep_if is_in_bucket (sinks_of_receipt e.immutable))
