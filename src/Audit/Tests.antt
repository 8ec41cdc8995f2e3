-- ===== src/Audit/Tests.antt =====
-- The log over a small platform and a bucket that is a function, and the theorems at inputs that
-- meet their hypotheses.
use instant_grant_core.Prelude.{
  ◌&&◌, ◌≤◌, true, false, none, some, [], ◌∷◌, map, Text, codes, text_eq, text_eq_refl, subst,
  length, ◌≡◌, ◌≢◌, ap, refl, if◌then◌else◌, arith,
}
use instant_grant_core.Js.{string, object, end, field}
use instant_grant_core.Audit.Canonical.{canonicalize, sha256_hex}
use instant_grant_core.Audit.CanonicalLaws.{swapped, canonicalize-Reordered}
use instant_grant_core.Audit.Entry.{off, required, AuditEvent}
use instant_grant_core.Audit.Services.{found}
use instant_grant_core.Audit.Sinks.{is_required, entry_key}
use instant_grant_core.Audit.Append.{
  full_entry, AuditRows, Appended, appended, append_failed, append_audit_log, hash_entry, newest,
}
use instant_grant_core.Audit.Chain.{Walk, issue_with, entry_hash_mismatch}
use instant_grant_core.Audit.Honest.{no_rows, Logged-IsHonest, Logged, empty_log, and_then}
use instant_grant_core.Audit.Walks.{walk_from-ends}
use instant_grant_core.Audit.Log.{Extends, append_audit_log-Extends}
use instant_grant_core.Audit.Sound.{verify_audit_integrity-Logged}
use instant_grant_core.Audit.Tamper.{IsAmong, verify_audit_integrity-changed}
use instant_grant_core.Audit.Removed.{verify_audit_integrity-removed}
use instant_grant_core.Audit.Immutable.{is_conflict, is_appended, append_audit_log-Keeps}
use instant_grant_core.Audit.Global.{NamesTwice, append_audit_log-global}
use instant_grant_core.Audit.Rows.{entry}
use instant_grant_core.Audit.Verify.{
  AuditIntegrityReport, verify_audit_integrity, global_chain, walk_from, global_head_issue,
}
use instant_grant_core.Audit.Sample.{
  after_one, after_two, is_ok, audits, run, request_for, Bucket, small_platform, after_three,
  bucket_only, in_memory, empty_bucket, report_of,
}

three_are_ok : is_ok (report_of after_three) ≡ true
unfolding audits
three_are_ok = refl

-- Two entries of the event `global` with another between them.
abbrev with_global : Bucket × AuditRows
with_global =
    (run (codes "global") (codes "3")
      (run (codes "evt") (codes "2")
        (run (codes "global") (codes "1") (empty_bucket, no_rows)).0).0).0

global_is_not_ok : is_ok (report_of with_global) ≡ false
unfolding audits
global_is_not_ok = refl

-- An object of another's under the key of an entry's copy.
abbrev taken_key : Text
taken_key =
    entry_key small_platform in_memory
      (full_entry small_platform (request_for (codes "evt")) (codes "1") no_rows)

abbrev some_bucket : Bucket
some_bucket k = if text_eq k taken_key then some (codes "object") else none

conflict_fails :
    is_appended
      (append_audit_log small_platform in_memory required bucket_only
        (request_for (codes "evt"))
        (codes "1")
        (codes "later")
        (some_bucket, no_rows)).1
    ≡ false
unfolding audits
conflict_fails = refl

Logged-one : Logged small_platform in_memory after_one.1
unfolding audits
Logged-one =
    and_then empty_log required bucket_only (request_for (codes "evt")) (codes "1") (codes "later")
      empty_bucket refl refl refl refl (refl, refl)

Logged-two : Logged small_platform in_memory after_two.1
unfolding audits
Logged-two =
    and_then Logged-one required bucket_only (request_for (codes "fair")) (codes "2")
      (codes "later") after_one.0 refl refl refl refl (refl, refl)

Logged-three : Logged small_platform in_memory after_three.1
unfolding audits
Logged-three =
    and_then Logged-two required bucket_only (request_for (codes "evt")) (codes "3") (codes "later")
      after_two.0 refl refl refl refl (refl, refl)

verify_audit_integrity-Logged_example :
    (report : AuditIntegrityReport) × (verify_audit_integrity small_platform in_memory required true
        2 false after_three.0
        (map entry (newest 2 after_three.1))
      ≡ some report)
    × (report.ok ≡ true)
    × (report.issues ≡ [])
verify_audit_integrity-Logged_example =
    verify_audit_integrity-Logged small_platform in_memory required true 2 after_three.0
      Logged-three

append_audit_log-Extends_example :
    Extends small_platform
      (request_for (codes "fair"))
      (codes "2")
      after_one.1
      (run (codes "fair") (codes "2") after_one).0.1
      (run (codes "fair") (codes "2") after_one).1
unfolding audits
append_audit_log-Extends_example =
    append_audit_log-Extends small_platform in_memory required bucket_only
      (request_for (codes "fair")) (codes "2") (codes "later") after_one.0 after_one.1
      (Logged-IsHonest small_platform in_memory Logged-one).holds refl refl

append_audit_log-Keeps_example :
    (in_memory.bucket_get taken_key
        (append_audit_log small_platform in_memory required bucket_only
          (request_for (codes "evt"))
          (codes "1")
          (codes "later")
          (some_bucket, no_rows)).0.0
      ≡ found (codes "object"))
    × ((is_required required
          && (bucket_only.audit_logs
              && (is_conflict small_platform in_memory
                    (full_entry small_platform (request_for (codes "evt")) (codes "1") no_rows)
                    taken_key
                    (codes "object")
                  && is_appended
                      (append_audit_log small_platform in_memory required bucket_only
                        (request_for (codes "evt"))
                        (codes "1")
                        (codes "later")
                        (some_bucket, no_rows)).1)))
        ≡ false)
unfolding audits
append_audit_log-Keeps_example =
    append_audit_log-Keeps small_platform in_memory required bucket_only (request_for (codes "evt"))
      (codes "1") (codes "later") some_bucket no_rows taken_key (codes "object") refl

append_audit_log-global_example :
    NamesTwice
      (append_audit_log small_platform in_memory required bucket_only
        (request_for (codes "fair"))
        (codes "2")
        (codes "later")
        after_one).1
      (append_audit_log small_platform in_memory off bucket_only
        (request_for (codes "global"))
        (codes "3")
        (codes "later")
        (append_audit_log small_platform in_memory required bucket_only
          (request_for (codes "fair"))
          (codes "2")
          (codes "later")
          after_one).0).1
append_audit_log-global_example =
    append_audit_log-global small_platform in_memory required off bucket_only bucket_only
      (request_for (codes "fair")) (request_for (codes "global")) (codes "2") (codes "later")
      (codes "3") (codes "later") after_one.0 after_one.1 refl

canonicalize-Reordered_example :
    canonicalize small_platform
      (object (field (codes "b") (string (codes "1")) (field (codes "a") (string (codes "2")) end)))
    ≡ canonicalize small_platform (
        object
          (field (codes "a") (string (codes "2")) (field (codes "b") (string (codes "1")) end)))
canonicalize-Reordered_example =
    canonicalize-Reordered small_platform
      (swapped (codes "b") (codes "a") (string (codes "1")) (string (codes "2")) end refl)

-- An entry that names itself.
abbrev named_itself : AuditEvent
named_itself = record {
  ts = codes "1";
  event = codes "USER_CLAIM";
  event_id = codes "evt";
  actor = record { type = codes "user"; id = codes "ann" };
  content = end;
  prev_hash = codes "ab";
  stream_prev_hash = none;
  entry_hash = codes "ab";
  immutable = none;
}

walk_from-ends_example :
    (walk : Walk) × (walk_from global_chain (named_itself ∷ []) named_itself ≡ some walk)
    × (length walk.visited ≤ length (named_itself ∷ []))
walk_from-ends_example = walk_from-ends global_chain (named_itself ∷ []) named_itself refl

-- The entry of a run, or another where it failed.
abbrev entry_or : AuditEvent → Appended → AuditEvent
entry_or e (appended f) = f
entry_or e (append_failed message) = e

abbrev first_entry : AuditEvent
first_entry = entry_or named_itself (run (codes "evt") (codes "1") (empty_bucket, no_rows)).1

abbrev second_entry : AuditEvent
second_entry = entry_or named_itself (run (codes "fair") (codes "2") after_one).1

abbrev third_entry : AuditEvent
third_entry = entry_or named_itself (run (codes "evt") (codes "3") after_two).1

verify_audit_integrity-removed_example :
    (report : AuditIntegrityReport) × (verify_audit_integrity small_platform in_memory required true
        50 true after_three.0
        (map entry (third_entry ∷ first_entry ∷ []))
      ≡ some report)
    × (report.ok ≡ false)
    × IsAmong global_head_issue report.issues
unfolding audits
verify_audit_integrity-removed_example =
    verify_audit_integrity-removed small_platform in_memory required true 50 true after_three.0
      third_entry second_entry first_entry [] [] [] Logged-three refl refl

abbrev changed_entry : AuditEvent
changed_entry = record first_entry { event = codes "USER_JOIN" }

text_ne : (s t : Text) → text_eq s t ≡ false → s ≢ t
text_ne s t other same =
    let other' : text_eq t t ≡ false = subst (λ x. text_eq x t ≡ false) same other in
    ground (arith, text_eq_refl t)

changed_hash : hash_entry small_platform changed_entry ≢ hash_entry small_platform first_entry
unfolding audits
changed_hash =
    text_ne (hash_entry small_platform changed_entry) (hash_entry small_platform first_entry) refl

verify_audit_integrity-changed_example :
    (report : AuditIntegrityReport) × (verify_audit_integrity small_platform in_memory required true
        50 true empty_bucket
        (map entry (changed_entry ∷ []))
      ≡ some report)
    × (report.ok ≡ false)
    × IsAmong
        (issue_with entry_hash_mismatch (codes "entry hash mismatch") changed_entry)
        report.issues
unfolding audits
verify_audit_integrity-changed_example =
    verify_audit_integrity-changed small_platform in_memory required true 50 true empty_bucket
      first_entry changed_entry [] [] refl refl
      (λ same. changed_hash (ap (sha256_hex small_platform) same))
      (λ same. absurd (changed_hash same)) refl
