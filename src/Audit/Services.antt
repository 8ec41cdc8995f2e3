-- ===== src/Audit/Services.antt =====
-- The services that keep copies of the audit log, and how they are configured
-- (api-worker/src/audit/immutable.ts). The bucket, the index and the ingest service are a world whose
-- operations are parameters.
use instant_grant_core.Prelude.{
  Bool, ◌||◌, ltb, not, Option, none, some, List, [], ◌∷◌, map, ℕ, Text, codes, text_eq, trim,
  is_empty, any, if◌then◌else◌, ◌≡◌, false,
}
use instant_grant_core.Js.{pos, negsuc, ℤ}
use instant_grant_core.Limits.Env.{lower, parse_int}
use instant_grant_core.Audit.Entry.{AuditImmutableMode, off, best_effort, required}

-- What a conditional put answers, what a read finds, what the ingest service answers.
pub data PutAnswer : Type 0 where
  stored refused : PutAnswer
  put_failed : Text → PutAnswer

pub data Fetched : Type 0 where
  found : Text → Fetched
  missing : Fetched
  get_failed : Text → Fetched

pub data IngestAnswer : Type 0 where
  answered : (ok : Bool) (status receipt_header : Text) → IngestAnswer
  not_answered : Text → IngestAnswer

pub record IngestRequest : Type 0 where
  pub url : Text
  pub token : Text
  pub timeout_ms : ℕ
  pub entry_hash : Text
  pub payload_sha256 : Text
  pub body : Text

-- The condition of a put: none, or `onlyIf: { etagDoesNotMatch: '*' }`, no object under the key.
pub data PutCondition : Type 0 where
  unconditional if_absent : PutCondition

-- A put that is made leaves the payload under its key, and the objects under other keys stay. Only a
-- put on the condition that there is no object keeps an object under its own key. The other services
-- leave the bucket alone.
pub record Services : Type 1 where
  pub World : Type 0
  pub bucket_put : PutCondition → Text → Text → World → World × PutAnswer
  pub bucket_get : Text → World → Fetched
  pub kv_put : Text → Text → World → World × Option Text
  pub ingest : IngestRequest → World → World × IngestAnswer
  pub bucket_put-stored :
      (c : PutCondition) (k p : Text) (w : World)
      → (bucket_put c k p w).1 ≡ stored
      → bucket_get k (bucket_put c k p w).0 ≡ found p
  pub bucket_put-other :
      (c : PutCondition) (k p j q : Text) (w : World)
      → text_eq k j ≡ false
      → bucket_get j w ≡ found q
      → bucket_get j (bucket_put c k p w).0 ≡ found q
  pub bucket_put-present :
      (k p q : Text) (w : World)
      → bucket_get k w ≡ found q
      → bucket_get k (bucket_put if_absent k p w).0 ≡ found q
  pub kv_put-kept :
      (k v j q : Text) (w : World)
      → bucket_get j w ≡ found q
      → bucket_get j (kv_put k v w).0 ≡ found q
  pub ingest-kept :
      (r : IngestRequest) (j q : Text) (w : World)
      → bucket_get j w ≡ found q
      → bucket_get j (ingest r w).0 ≡ found q

-- Whether the bucket and the index are bound, and the variables of the ingest service.
pub record ImmutableBindings : Type 0 where
  pub audit_logs : Bool
  pub audit_index : Bool
  pub ingest_url : Option Text
  pub ingest_token : Option Text
  pub ingest_timeout_ms : Option Text

abbrev pub default_ingest_timeout_ms : ℕ
default_ingest_timeout_ms = 5000

abbrev positive_or_default : Option ℤ → ℕ
positive_or_default none = default_ingest_timeout_ms
positive_or_default (some (negsuc n)) = default_ingest_timeout_ms
positive_or_default (some (pos n)) = if ltb 0 n then n else default_ingest_timeout_ms

unfoldable pub parse_timeout : Option Text → ℕ
parse_timeout none = default_ingest_timeout_ms
parse_timeout (some raw) =
    if is_empty raw then default_ingest_timeout_ms else positive_or_default (parse_int raw)

abbrev pub trimmed_or_empty : Option Text → Text
trimmed_or_empty none = []
trimmed_or_empty (some t) = trim t

unfoldable pub has_primary_immutable_sink : ImmutableBindings → Bool
has_primary_immutable_sink b = b.audit_logs || not (is_empty (trimmed_or_empty b.ingest_url))

abbrev off_words : List Text
off_words = codes "off" ∷ codes "false" ∷ codes "0" ∷ codes "disabled" ∷ codes "no" ∷ []

abbrev best_effort_words : List Text
best_effort_words = codes "best_effort" ∷ codes "best-effort" ∷ codes "relaxed" ∷ codes "warn" ∷ []

unfoldable pub parse_audit_immutable_mode : Option Text → AuditImmutableMode
parse_audit_immutable_mode raw =
    let value = map lower (trimmed_or_empty raw) in
    if is_empty value
    then required
    else if any (text_eq value) off_words
    then off
    else if any (text_eq value) best_effort_words
    then best_effort
    else required
