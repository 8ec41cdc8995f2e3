-- ===== src/Audit/Sample.antt =====
-- A small platform, a bucket that is a function, and the logs that some appends make over them.
use instant_grant_core.Prelude.{
  ℕ, ◌+◌, ◌*◌, ◌/◌, ◌%◌, Bool, true, false, Option, none, some, [], ◌∷◌, map, Text, codes, text_eq,
  text_eq_refl, trim, trim_start, trim_end, keep_before, is_space, ◌≡◌, refl, if◌then◌else◌,
}
use instant_grant_core.Js.{string, end, field}
use instant_grant_core.Audit.Canonical.{Platform, canonicalize, stringify, sort_deep, sha256_hex}
use instant_grant_core.Audit.Entry.{
  required, build_audit_hash_input, entry_value, build_immutable_payload,
}
use instant_grant_core.Audit.Services.{
  PutCondition, unconditional, if_absent, Services, PutAnswer, stored, refused, Fetched, found,
  missing, answered, ImmutableBindings, has_primary_immutable_sink, parse_timeout,
}
use instant_grant_core.Audit.Sinks.{
  put_if_absent_or_verify, write_r2_immutable_copies, write_kv_index, write_immutable_webhook,
  persist_immutable_audit_entry,
}
use instant_grant_core.Audit.Append.{
  AuditRows, AuditLogRequest, Appended, append_audit_log, put_history, newest,
}
use instant_grant_core.Audit.Chain.{
  link_issues, duplicate_issues, fork_issues, chain_heads, walk_back,
}
use instant_grant_core.Audit.Honest.{no_rows}
use instant_grant_core.Audit.Rows.{entry_issues, entry_hash_issues, entry, check_shape}
use instant_grant_core.Audit.Verify.{
  global_issues, stream_issues, integrity_issues, AuditIntegrityReport, verify_audit_integrity,
}

-- A digest of two bytes.
abbrev rolling : ℕ → Text → ℕ
rolling acc [] = acc
rolling acc (c ∷ s) = rolling ((acc * 31 + c) % 65536) s

abbrev pub small_platform : Platform
small_platform = record {
  number_text = λ n. codes "1";
  encode_uri_component = λ t. t;
  digest = λ t. rolling 7 t / 256 ∷ rolling 7 t % 256 ∷ [];
}

abbrev pub Bucket : Type 0
Bucket = Text → Option Text

abbrev read : Option Text → Fetched
read none = missing
read (some t) = found t

abbrev put_anyway : Text → Text → Bucket → Bucket
put_anyway k p w j = if text_eq k j then some p else w j

abbrev put_into : PutCondition → Text → Text → Bucket → Option Text → Bucket × PutAnswer
put_into unconditional k p w o = (put_anyway k p w, stored)
put_into if_absent k p w none = (put_anyway k p w, stored)
put_into if_absent k p w (some q) = (w, refused)

pub put_into-stored :
    (c : PutCondition) (k p : Text) (w : Bucket) (o : Option Text)
    → (put_into c k p w o).1 ≡ stored
    → read ((put_into c k p w o).0 k) ≡ found p
put_into-stored unconditional k p w o h = rw (text_eq_refl k) refl
put_into-stored if_absent k p w none h = rw (text_eq_refl k) refl
put_into-stored if_absent k p w (some q) h = cc

pub put_into-other :
    (c : PutCondition) (k p j q : Text) (w : Bucket) (o : Option Text)
    → text_eq k j ≡ false
    → read (w j) ≡ found q
    → read ((put_into c k p w o).0 j) ≡ found q
put_into-other unconditional k p j q w o other h = rw other h
put_into-other if_absent k p j q w none other h = rw other h
put_into-other if_absent k p j q w (some old) other h = h

pub put_into-present :
    (k p q : Text) (w : Bucket) (o : Option Text)
    → w k ≡ o
    → read (w k) ≡ found q
    → read ((put_into if_absent k p w o).0 k) ≡ found q
put_into-present k p q w none free h = absurd (cc (rw free at h))
put_into-present k p q w (some old) there h = h

abbrev pub in_memory : Services
in_memory = record {
  World = Bucket;
  bucket_put = λ c k p w. put_into c k p w (w k);
  bucket_get = λ k w. read (w k);
  kv_put = λ k v w. (w, none);
  ingest = λ r w. (w, answered true (codes "200") []);
  bucket_put-stored = λ c k p w. put_into-stored c k p w (w k);
  bucket_put-other = λ c k p j q w. put_into-other c k p j q w (w k);
  bucket_put-present = λ k p q w. put_into-present k p q w (w k) refl;
  kv_put-kept = λ k v j q w h. h;
  ingest-kept = λ r j q w h. h;
}

unfoldable pub audits : Unit {0}
unfolding append_audit_log persist_immutable_audit_entry put_if_absent_or_verify
    write_r2_immutable_copies write_kv_index write_immutable_webhook has_primary_immutable_sink
    parse_timeout canonicalize stringify sort_deep sha256_hex build_audit_hash_input entry_value
    build_immutable_payload put_history check_shape entry_issues entry_hash_issues global_issues
    stream_issues integrity_issues verify_audit_integrity link_issues duplicate_issues fork_issues
    chain_heads walk_back trim trim_start trim_end keep_before is_space
audits = tt

abbrev pub bucket_only : ImmutableBindings
bucket_only = record {
  audit_logs = true;
  audit_index = false;
  ingest_url = none;
  ingest_token = none;
  ingest_timeout_ms = none;
}

abbrev unconfigured : ImmutableBindings
unconfigured = record bucket_only { audit_logs = false }

abbrev pub request_for : Text → AuditLogRequest
request_for event_id = record {
  event = codes "USER_CLAIM";
  event_id = event_id;
  actor = record { type = codes "user"; id = codes "ann" };
  content = field (codes "status") (string (codes "ok")) end;
}

abbrev pub empty_bucket : Bucket
empty_bucket k = none

abbrev pub run : Text → Text → Bucket × AuditRows → (Bucket × AuditRows) × Appended
run event_id ts s =
    append_audit_log small_platform in_memory required bucket_only (request_for event_id) ts
      (codes "later") s

abbrev pub after_one : Bucket × AuditRows
after_one = (run (codes "evt") (codes "1") (empty_bucket, no_rows)).0

abbrev pub after_two : Bucket × AuditRows
after_two = (run (codes "fair") (codes "2") after_one).0

abbrev pub after_three : Bucket × AuditRows
after_three = (run (codes "evt") (codes "3") after_two).0

abbrev pub report_of : Bucket × AuditRows → Option AuditIntegrityReport
report_of s =
    verify_audit_integrity small_platform in_memory required true 50 true s.0
      (map entry (newest 50 s.1))

abbrev pub is_ok : Option AuditIntegrityReport → Bool
is_ok none = false
is_ok (some r) = r.ok
