-- ===== src/Audit/Chain.antt =====
-- The links between the entries of a window of the audit log (api-worker/src/storeDO.ts, the chain
-- checks of verifyAuditIntegrity, which treat the whole log and each event's stream alike).
use instant_grant_core.Prelude.{
  ℕ, zero, suc, Bool, ◌&&◌, not, ltb, Option, none, some, List, [], ◌∷◌, ◌++◌, Text, text_eq, any,
  keep_if, length, if◌then◌else◌,
}
use instant_grant_core.Audit.Entry.{AuditEvent}
use instant_grant_core.Audit.Append.{genesis}

pub data IssueCode : Type 0 where
  invalid_entry_shape entry_hash_mismatch immutable_receipt_missing : IssueCode
  immutable_payload_hash_mismatch immutable_primary_sink_missing : IssueCode
  immutable_r2_object_missing immutable_r2_object_mismatch : IssueCode
  global_chain_break stream_chain_break : IssueCode

pub record AuditIntegrityIssue : Type 0 where
  pub code : IssueCode
  pub message : Text
  pub entry_hash : Option Text
  pub event_id : Option Text
  pub ref : Option Text

-- An issue with an entry.
abbrev pub issue_with : IssueCode → Text → AuditEvent → AuditIntegrityIssue
issue_with code message e = record {
  code = code;
  message = message;
  entry_hash = some e.entry_hash;
  event_id = some e.event_id;
  ref = none;
}

-- What differs between the chain of all entries and the chain of a stream.
pub record ChainKind : Type 0 where
  pub prev : AuditEvent → Text
  pub code : IssueCode
  pub duplicate : Text
  pub forked : Text
  pub outside : Text
  pub cycle : Text
  pub disconnected : Text

abbrev pub has_hash : Text → List AuditEvent → Bool
has_hash hash es = any (λ e. text_eq e.entry_hash hash) es

-- The entry that a map by hash holds: a later one replaces an earlier one.
abbrev or_else : Option AuditEvent → Bool → AuditEvent → Option AuditEvent
or_else (some f) here e = some f
or_else none here e = if here then some e else none

abbrev pub find_by_hash : Text → List AuditEvent → Option AuditEvent
find_by_hash hash [] = none
find_by_hash hash (e ∷ es) = or_else (find_by_hash hash es) (text_eq e.entry_hash hash) e

-- Where a walk ended: the hashes on the way, its last entry, and where it came round.
pub record Walk : Type 0 where
  pub visited : List Text
  pub oldest : AuditEvent
  pub came_round : Option AuditEvent

abbrev pub is_visited : Text → List Text → Bool
is_visited hash visited = any (λ h. text_eq h hash) visited

module _ (kind : ChainKind) where
  open kind use {prev, code}

  -- Entries whose hash an earlier entry has.
  unfoldable pub duplicate_issues : List AuditEvent → List AuditEvent → List AuditIntegrityIssue
  duplicate_issues seen [] = []
  duplicate_issues seen (e ∷ es) =
      let rest = duplicate_issues (e ∷ seen) es in
      if has_hash e.entry_hash seen then issue_with code kind.duplicate e ∷ rest else rest

  abbrev pub is_child : Text → AuditEvent → Bool
  is_child hash e = not (text_eq (prev e) genesis) && text_eq (prev e) hash

  -- How many entries name a hash as the one before them.
  abbrev pub child_count : Text → List AuditEvent → ℕ
  child_count hash es = length (keep_if (is_child hash) es)

  -- The hashes that entries of the window name and that are in it, each once.
  abbrev pub parents : List AuditEvent → List AuditEvent → List AuditEvent → List Text
  parents window seen [] = []
  parents window seen (e ∷ es) =
      let rest = parents window (e ∷ seen) es in
      if is_child (prev e) e && has_hash (prev e) window && not (any (is_child (prev e)) seen)
      then prev e ∷ rest
      else rest

  abbrev event_id_of : Option AuditEvent → Option Text
  event_id_of none = none
  event_id_of (some e) = some e.event_id

  unfoldable pub fork_issues : List AuditEvent → List Text → List AuditIntegrityIssue
  fork_issues window [] = []
  fork_issues window (hash ∷ hashes) =
      let rest = fork_issues window hashes in
      if ltb 1 (child_count hash window)
      then record {
        code = code;
        message = kind.forked;
        entry_hash = some hash;
        event_id = event_id_of (find_by_hash hash window);
        ref = none;
      }
        ∷ rest
      else rest

  abbrev pub is_external : List AuditEvent → AuditEvent → Bool
  is_external window e = not (text_eq (prev e) genesis) && not (has_hash (prev e) window)

  abbrev pub outside_issues : List AuditEvent → List AuditIntegrityIssue
  outside_issues [] = []
  outside_issues (e ∷ []) = []
  outside_issues (e ∷ f ∷ es) = issue_with code kind.outside e ∷ []

  -- The issues up to the search for a head.
  unfoldable pub link_issues : List AuditEvent → List AuditIntegrityIssue
  unfolding duplicate_issues fork_issues
  link_issues window =
      duplicate_issues [] window
      ++ (fork_issues window (parents window [] window)
          ++ outside_issues (keep_if (is_external window) window))

  -- The entries that no entry names.
  unfoldable pub chain_heads : List AuditEvent → List AuditEvent
  chain_heads window = keep_if (λ e. not (any (is_child e.entry_hash) window)) window

  -- The walk from an entry to the ones before it; `none` is a walk that has not ended.
  unfoldable pub walk_back : ℕ → List AuditEvent → List Text → AuditEvent → AuditEvent → Option Walk
  walk_back zero window visited oldest current = none
  walk_back (suc fuel) window visited oldest current =
      if is_visited current.entry_hash visited
      then some (record { visited = visited; oldest = oldest; came_round = some current })
      else (if text_eq (prev current) genesis
          then some (record {
            visited = current.entry_hash ∷ visited;
            oldest = current;
            came_round = none;
          })
          else elim (find_by_hash (prev current) window) [
            | none ↦ some (record {
              visited = current.entry_hash ∷ visited;
              oldest = current;
              came_round = none;
            })
            | some before ↦ walk_back fuel window (current.entry_hash ∷ visited) current before
          ])
