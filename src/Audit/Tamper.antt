-- ===== src/Audit/Tamper.antt =====
-- The check of the audit log notices an entry that was changed and entries that were taken out.
use instant_grant_core.Prelude.{
  ℕ, Bool, false, ◌&&◌, not, if◌then◌else◌, none, some, List, [], ◌∷◌, ◌++◌, text_eq, text_eq_sound,
  ◌≡◌, ◌≢◌, ◌∙◌, refl, sym, inl, inr, codes, Bool-cases,
}
use mathlib.Core.List.{append_assoc}
use instant_grant_core.Audit.Canonical.{Platform, canonicalize}
use instant_grant_core.Audit.Entry.{AuditImmutableMode, AuditEvent, build_audit_hash_input}
use instant_grant_core.Audit.Services.{Services}
use instant_grant_core.Audit.Append.{hash_entry}
use instant_grant_core.Audit.Chain.{AuditIntegrityIssue, issue_with, entry_hash_mismatch}
use instant_grant_core.Audit.Rows.{
  entry_issues, entry_hash_issues, all_row_issues, HistoryRow, entry, well_formed, check_shape,
}
use instant_grant_core.Audit.Verify.{
  is_nil, is_off, check_throws, integrity_issues, AuditIntegrityReport, verify_audit_integrity,
}

-- Whether an issue is among others.
abbrev pub IsAmong : AuditIntegrityIssue → List AuditIntegrityIssue → Type 0
IsAmong issue issues =
    (before : List AuditIntegrityIssue) × (after : List AuditIntegrityIssue) × (issues
      ≡ before ++ (issue ∷ after))

pub IsAmong-left :
    (issue : AuditIntegrityIssue) (xs ys : List AuditIntegrityIssue)
    → IsAmong issue xs
    → IsAmong issue (xs ++ ys)
IsAmong-left issue xs ys (before, after, e) =
    (before, after ++ ys, rw e (append_assoc before (issue ∷ after) ys))

pub IsAmong-right :
    (issue : AuditIntegrityIssue) (xs ys : List AuditIntegrityIssue)
    → IsAmong issue ys
    → IsAmong issue (xs ++ ys)
IsAmong-right issue xs ys (before, after, e) =
    (xs ++ before, after, rw e (sym (append_assoc xs before (issue ∷ after))))

pub is_nil-IsAmong :
    (issue : AuditIntegrityIssue) (xs : List AuditIntegrityIssue)
    → IsAmong issue xs
    → is_nil xs ≡ false
is_nil-IsAmong issue xs ([], after, e) = rw e refl
is_nil-IsAmong issue xs (i ∷ before, after, e) = rw e refl

-- A report is given where no read throws.
pub noticed :
    (issue : AuditIntegrityIssue) (throws : Bool) (r : AuditIntegrityReport)
    → throws ≡ false
    → r.ok ≡ false
    → IsAmong issue r.issues
    → (report : AuditIntegrityReport) × ((if throws then none else some r) ≡ some report)
      × (report.ok ≡ false)
      × IsAmong issue report.issues
noticed issue throws r readable bad among = (r, rw readable refl, bad, among)

module _ (platform : Platform) (services : Services) where
  open services use {World}

  all_row_issues-IsAmong :
      (issue : AuditIntegrityIssue) (immutable audit_logs : Bool) (w : World) (e : AuditEvent)
      (before after : List HistoryRow)
      → check_shape (entry e) ≡ well_formed e
      → IsAmong issue (entry_issues platform services immutable audit_logs w e)
      → IsAmong issue
          (all_row_issues platform services immutable audit_logs w (before ++ (entry e ∷ after)))
  all_row_issues-IsAmong issue immutable audit_logs w e [] after shape among =
      rw shape (IsAmong-left issue _ _ among)
  all_row_issues-IsAmong issue immutable audit_logs w e (row ∷ before) after shape among =
      IsAmong-right issue _ _
        (all_row_issues-IsAmong issue immutable audit_logs w e before after shape among)

  -- An entry that was changed is noticed. Where a row of the checked window has the shape of an entry
  -- and still has the hash of an entry `original`, but the text that is hashed is another, and the
  -- hash does not collide on these two texts, the report is not ok and names the row's hash as one
  -- that does not fit, whatever the other rows are. It holds with and without the check of the
  -- immutable copies, where no read of the bucket that the check makes throws.
  pub verify_audit_integrity-changed :
      (mode : AuditImmutableMode) (audit_logs : Bool) (limit : ℕ) (verify_immutable : Bool)
      (w : World) (original changed : AuditEvent) (before after : List HistoryRow)
      → check_shape (entry changed) ≡ well_formed changed
      → changed.entry_hash ≡ hash_entry platform original
      → canonicalize platform (build_audit_hash_input changed)
        ≢ canonicalize platform (build_audit_hash_input original)
      → (hash_entry platform changed ≡ hash_entry platform original
          → canonicalize platform (build_audit_hash_input changed)
            ≡ canonicalize platform (build_audit_hash_input original))
      → check_throws platform services mode audit_logs verify_immutable w
          (before ++ (entry changed ∷ after))
        ≡ false
      → (report : AuditIntegrityReport) × (verify_audit_integrity platform services mode audit_logs
            limit verify_immutable w
            (before ++ (entry changed ∷ after))
          ≡ some report)
        × (report.ok ≡ false)
        × IsAmong
            (issue_with entry_hash_mismatch (codes "entry hash mismatch") changed)
            report.issues
  unfolding verify_audit_integrity integrity_issues entry_issues entry_hash_issues
  verify_audit_integrity-changed mode audit_logs limit verify_immutable w original changed before
        after shape kept differs collision_free readable =
      let issue = issue_with entry_hash_mismatch (codes "entry hash mismatch") changed in
      let mismatch : text_eq (hash_entry platform changed) changed.entry_hash ≡ false =
        elim (Bool-cases (text_eq (hash_entry platform changed) changed.entry_hash)) [
          | inr other ↦ other
          | inl same ↦
              absurd (differs (collision_free (text_eq_sound _ changed.entry_hash same ∙ kept)))
        ] in
      let found : IsAmong issue (
          entry_issues platform services (verify_immutable && not (is_off mode)) audit_logs w
            changed) =
        rw mismatch ([], _, refl) in
      let among = IsAmong-left issue _ _ (
        all_row_issues-IsAmong issue (verify_immutable && not (is_off mode)) audit_logs w changed
          before after shape found) in
      noticed issue _ _ readable (is_nil-IsAmong issue _ among) among
