-- ===== src/Audit/Verify.antt =====
-- The check of a window of the audit log (api-worker/src/storeDO.ts, verifyAuditIntegrity). The time
-- of the inspection is left out.
use instant_grant_core.Prelude.{
  ℕ, suc, Bool, true, false, ◌&&◌, not, ◌==◌, Option, none, some, List, [], ◌∷◌, ◌++◌, Text, codes,
  text_eq, any, keep_if, length, if◌then◌else◌,
}
use instant_grant_core.Audit.Canonical.{Platform}
use instant_grant_core.Audit.Entry.{
  AuditImmutableMode, off, AuditImmutableSink, AuditImmutableReceipt, AuditEvent,
}
use instant_grant_core.Audit.Services.{Services, Fetched, get_failed}
use instant_grant_core.Audit.Append.{hash_or_genesis}
use instant_grant_core.Audit.Chain.{
  AuditIntegrityIssue, issue_with, ChainKind, link_issues, chain_heads, Walk, walk_back,
  global_chain_break, stream_chain_break,
}
use instant_grant_core.Audit.Rows.{
  entry_issues, all_row_issues, HistoryRow, well_formed, Shape, check_shape, issues_if, ill_formed,
  is_r2_entry,
}

abbrev pub global_chain : ChainKind
global_chain = record {
  prev = λ e. e.prev_hash;
  code = global_chain_break;
  duplicate = codes "duplicate entry_hash detected in audit window";
  forked = codes "multiple newer entries point to the same global predecessor";
  outside = codes "multiple entries point outside of current global audit window";
  cycle = codes "cycle detected in global chain";
  disconnected = codes "global chain is disconnected within audit window";
}

abbrev pub stream_chain : ChainKind
stream_chain = record {
  prev = λ e. hash_or_genesis e.stream_prev_hash;
  code = stream_chain_break;
  duplicate = codes "duplicate entry_hash detected in event stream";
  forked = codes "multiple newer stream entries point to the same predecessor";
  outside = codes "multiple stream entries point outside of current event window";
  cycle = codes "cycle detected in event stream chain";
  disconnected = codes "event stream chain is disconnected within audit window";
}

abbrev kept : Shape → List AuditEvent
kept (ill_formed issue) = []
kept (well_formed e) = e ∷ []

abbrev pub valid_entries : List HistoryRow → List AuditEvent
valid_entries [] = []
valid_entries (row ∷ rows) = kept (check_shape row) ++ valid_entries rows

abbrev first_hash : List AuditEvent → Option Text
first_hash [] = none
first_hash (e ∷ es) = some e.entry_hash

abbrev came_round_issues : ChainKind → Option AuditEvent → List AuditIntegrityIssue
came_round_issues kind none = []
came_round_issues kind (some e) = issue_with kind.code kind.cycle e ∷ []

-- The issues of a walk over a window from a head.
abbrev pub walk_issues :
    ChainKind → List AuditEvent → AuditEvent → Option Walk → List AuditIntegrityIssue
walk_issues kind window head none = []
walk_issues kind window head (some walk) =
    came_round_issues kind walk.came_round
    ++ issues_if (not (length walk.visited == length window))
        (issue_with kind.code kind.disconnected head)

abbrev pub walk_from : ChainKind → List AuditEvent → AuditEvent → Option Walk
walk_from kind window head = walk_back kind (suc (length window)) window [] head head

abbrev pub one_head : List AuditEvent → Bool
one_head heads = length heads == 1

abbrev pub global_head_issue : AuditIntegrityIssue
global_head_issue = record {
  code = global_chain_break;
  message = codes "global chain must have exactly one head in audit window";
  entry_hash = none;
  event_id = none;
  ref = none;
}

abbrev pub global_walk_issues : List AuditEvent → List AuditEvent → List AuditIntegrityIssue
global_walk_issues window [] = []
global_walk_issues window (head ∷ heads) =
    walk_issues global_chain window head (walk_from global_chain window head)

unfoldable pub global_issues : List AuditEvent → List AuditIntegrityIssue
unfolding chain_heads
global_issues window =
    link_issues global_chain window
    ++ (issues_if (not (length window == 0) && not (one_head (chain_heads global_chain window)))
          global_head_issue
        ++ global_walk_issues window (chain_heads global_chain window))

abbrev stream_head_issue : Text → List AuditEvent → AuditIntegrityIssue
stream_head_issue event_id heads = record {
  code = stream_chain_break;
  message = codes "event stream must have exactly one head in audit window";
  entry_hash = first_hash heads;
  event_id = some event_id;
  ref = none;
}

abbrev pub stream_head_issues : Text → List AuditEvent → List AuditEvent → List AuditIntegrityIssue
stream_head_issues event_id stream (head ∷ []) =
    walk_issues stream_chain stream head (walk_from stream_chain stream head)
stream_head_issues event_id stream heads = stream_head_issue event_id heads ∷ []

unfoldable pub stream_issues : Text → List AuditEvent → List AuditIntegrityIssue
unfolding chain_heads
stream_issues event_id stream =
    link_issues stream_chain stream
    ++ stream_head_issues event_id stream (chain_heads stream_chain stream)

abbrev pub is_of : Text → AuditEvent → Bool
is_of event_id e = text_eq e.event_id event_id

-- The streams of a window, each where its first entry stands.
abbrev pub all_stream_issues :
    List AuditEvent → List AuditEvent → List AuditEvent → List AuditIntegrityIssue
all_stream_issues window seen [] = []
all_stream_issues window seen (e ∷ es) =
    (if any (is_of e.event_id) seen
      then []
      else stream_issues e.event_id (keep_if (is_of e.event_id) window))
    ++ all_stream_issues window (e ∷ seen) es

pub record AuditIntegrityReport : Type 0 where
  pub ok : Bool
  pub mode : AuditImmutableMode
  pub checked : ℕ
  pub limit : ℕ
  pub global_head : Option Text
  pub oldest_in_window : Option Text
  pub verify_immutable : Bool
  pub issues : List AuditIntegrityIssue
  pub warnings : List Text

abbrev r2_refs : Option AuditImmutableReceipt → List AuditImmutableSink
r2_refs none = []
r2_refs (some r) = keep_if is_r2_entry r.sinks

abbrev pub is_off : AuditImmutableMode → Bool
is_off off = true
is_off _ = false

abbrev pub is_nil {ℓ} : {A : Type ℓ} → List A → Bool
is_nil [] = true
is_nil (x ∷ xs) = false

abbrev oldest_of : Option Walk → Option Text
oldest_of none = none
oldest_of (some walk) = some walk.oldest.entry_hash

abbrev oldest_from : List AuditEvent → List AuditEvent → Option Text
oldest_from window [] = none
oldest_from window (head ∷ heads) = oldest_of (walk_from global_chain window head)

module _ (platform : Platform) (services : Services) where
  open services use {World, bucket_get}

  abbrev read_fails : Fetched → Bool
  read_fails (get_failed message) = true
  read_fails _ = false

  abbrev pub any_read_fails : World → List AuditEvent → Bool
  any_read_fails w es =
      any (λ e. any (λ s. read_fails (bucket_get s.ref w)) (r2_refs e.immutable)) es

  -- All the issues of a window of rows.
  unfoldable pub integrity_issues : Bool → Bool → World → List HistoryRow → List AuditIntegrityIssue
  unfolding check_shape entry_issues global_issues stream_issues
  integrity_issues verify_immutable audit_logs w rows =
      let window = valid_entries rows in
      all_row_issues platform services verify_immutable audit_logs w rows
      ++ (global_issues window ++ all_stream_issues window [] window)

  -- Whether a read of the bucket throws that the check makes.
  abbrev pub check_throws : AuditImmutableMode → Bool → Bool → World → List HistoryRow → Bool
  check_throws mode audit_logs verify_immutable w rows =
      (verify_immutable && not (is_off mode))
      && (audit_logs && any_read_fails w (valid_entries rows))

  -- The report on the rows of a window; `none` if a read of the bucket throws.
  unfoldable pub verify_audit_integrity :
      AuditImmutableMode → Bool → ℕ → Bool → World → List HistoryRow → Option AuditIntegrityReport
  unfolding integrity_issues
  verify_audit_integrity mode audit_logs limit verify_immutable w rows =
      let window = valid_entries rows in
      let immutable = verify_immutable && not (is_off mode) in
      let issues = integrity_issues immutable audit_logs w rows in
      if check_throws mode audit_logs verify_immutable w rows
      then none
      else some (record {
        ok = is_nil issues;
        mode = mode;
        checked = length rows;
        limit = limit;
        global_head = first_hash (chain_heads global_chain window);
        oldest_in_window = oldest_from window (chain_heads global_chain window);
        verify_immutable = immutable;
        issues = issues;
        warnings =
            if immutable && not audit_logs && any (λ e. not (is_nil (r2_refs e.immutable))) window
            then codes "AUDIT_LOGS binding is not configured, skipped R2 object checks" ∷ []
            else [];
      })
