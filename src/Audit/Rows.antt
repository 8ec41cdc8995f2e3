-- ===== src/Audit/Rows.antt =====
-- The rows of the audit history and what is said of each by itself (api-worker/src/storeDO.ts,
-- verifyAuditIntegrity).
use instant_grant_core.Prelude.{
  Bool, true, false, not, Option, none, some, List, [], ◌∷◌, ◌++◌, Text, codes, text_eq, is_empty,
  any, keep_if, if◌then◌else◌,
}
use instant_grant_core.Audit.Canonical.{Platform, sha256_hex}
use instant_grant_core.Audit.Entry.{
  SinkKind, r2_entry, AuditImmutableSink, AuditImmutableReceipt, AuditEvent,
  build_immutable_payload,
}
use instant_grant_core.Audit.Services.{Services, Fetched, found, missing, get_failed}
use instant_grant_core.Audit.Sinks.{is_primary}
use instant_grant_core.Audit.Append.{hash_entry}
use instant_grant_core.Audit.Chain.{
  IssueCode, AuditIntegrityIssue, issue_with, invalid_entry_shape, entry_hash_mismatch,
  immutable_receipt_missing, immutable_payload_hash_mismatch, immutable_primary_sink_missing,
  immutable_r2_object_missing, immutable_r2_object_mismatch,
}

-- What a row of the history holds. An entry's other fields are those of the program.
pub data HistoryRow : Type 0 where
  no_entry : HistoryRow
  no_event_id : (entry_hash : Text) → HistoryRow
  no_prev_hash : (entry_hash event_id : Text) → HistoryRow
  entry : AuditEvent → HistoryRow

abbrev shape_issue : Text → Option Text → Option Text → AuditIntegrityIssue
shape_issue message entry_hash event_id = record {
  code = invalid_entry_shape;
  message = codes "invalid " ++ (message ++ codes "audit history entry");
  entry_hash = entry_hash;
  event_id = event_id;
  ref = none;
}

-- The issue of a row that is no entry, or its entry.
pub data Shape : Type 0 where
  ill_formed : AuditIntegrityIssue → Shape
  well_formed : AuditEvent → Shape

abbrev pub entry_shape : AuditEvent → Shape
entry_shape e =
    if is_empty e.event_id
    then ill_formed (shape_issue (codes "eventId in ") (some e.entry_hash) none)
    else (if is_empty e.prev_hash
        then ill_formed (shape_issue (codes "prev_hash in ") (some e.entry_hash) (some e.event_id))
        else well_formed e)

unfoldable pub check_shape : HistoryRow → Shape
check_shape no_entry = ill_formed (shape_issue [] none none)
check_shape (no_event_id hash) = ill_formed (shape_issue (codes "eventId in ") (some hash) none)
check_shape (no_prev_hash hash event_id) = ill_formed (
    if is_empty event_id
    then shape_issue (codes "eventId in ") (some hash) none
    else shape_issue (codes "prev_hash in ") (some hash) (some event_id))
check_shape (entry e) = entry_shape e

abbrev pub issues_if : Bool → AuditIntegrityIssue → List AuditIntegrityIssue
issues_if true issue = issue ∷ []
issues_if false issue = []

abbrev pub is_entry_copy : SinkKind → Bool
is_entry_copy r2_entry = true
is_entry_copy _ = false

abbrev pub is_r2_entry : AuditImmutableSink → Bool
is_r2_entry s = is_entry_copy s.sink

module _ (platform : Platform) where
  unfoldable pub entry_hash_issues : AuditEvent → List AuditIntegrityIssue
  entry_hash_issues e =
      issues_if (not (text_eq (hash_entry platform e) e.entry_hash))
        (issue_with entry_hash_mismatch (codes "entry hash mismatch") e)

module _ (platform : Platform) (services : Services) where
  open services use {World, bucket_get}

  abbrev ref_issue : IssueCode → Text → AuditEvent → Text → AuditIntegrityIssue
  ref_issue code message e ref = record (issue_with code message e) { ref = some ref }

  -- A read that fails throws, see `verify_audit_integrity`.
  abbrev pub object_issues : Text → AuditEvent → Text → Fetched → List AuditIntegrityIssue
  object_issues payload e ref (get_failed message) = []
  object_issues payload e ref (found text) =
      issues_if (not (text_eq text payload)) (
        ref_issue immutable_r2_object_mismatch (codes "immutable R2 object content mismatch") e ref)
  object_issues payload e ref missing =
      ref_issue immutable_r2_object_missing (codes "immutable R2 object is missing") e ref ∷ []

  abbrev pub sink_issues :
      World → Text → AuditEvent → List AuditImmutableSink → List AuditIntegrityIssue
  sink_issues w payload e [] = []
  sink_issues w payload e (s ∷ ss) =
      object_issues payload e s.ref (bucket_get s.ref w) ++ sink_issues w payload e ss

  abbrev pub receipt_issues :
      Bool → World → AuditEvent → Option AuditImmutableReceipt → List AuditIntegrityIssue
  receipt_issues audit_logs w e none =
      issue_with immutable_receipt_missing (codes "immutable receipt is missing") e ∷ []
  receipt_issues audit_logs w e (some r) =
      let payload = build_immutable_payload platform e in
      issues_if (not (text_eq r.payload_hash (sha256_hex platform payload)))
        (issue_with immutable_payload_hash_mismatch (codes "immutable payload hash mismatch") e)
      ++ (issues_if (not (any is_primary r.sinks)) (
            issue_with immutable_primary_sink_missing
              (codes "immutable receipt has no accepted primary sink") e)
          ++ (if audit_logs then sink_issues w payload e (keep_if is_r2_entry r.sinks) else []))

  -- What is said of an entry by itself.
  unfoldable pub entry_issues : Bool → Bool → World → AuditEvent → List AuditIntegrityIssue
  unfolding entry_hash_issues
  entry_issues verify_immutable audit_logs w e =
      entry_hash_issues platform e
      ++ (if verify_immutable then receipt_issues audit_logs w e e.immutable else [])

  abbrev row_issues : Bool → Bool → World → Shape → List AuditIntegrityIssue
  row_issues verify_immutable audit_logs w (ill_formed issue) = issue ∷ []
  row_issues verify_immutable audit_logs w (well_formed e) =
      entry_issues verify_immutable audit_logs w e

  abbrev pub all_row_issues : Bool → Bool → World → List HistoryRow → List AuditIntegrityIssue
  all_row_issues verify_immutable audit_logs w [] = []
  all_row_issues verify_immutable audit_logs w (row ∷ rows) =
      row_issues verify_immutable audit_logs w (check_shape row)
      ++ all_row_issues verify_immutable audit_logs w rows
