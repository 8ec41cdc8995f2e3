-- ===== src/Receipt/Check.antt =====
-- The check of a receipt against the audit log (api-worker/src/storeDO.ts,
-- verifyParticipationTicketReceipt). The time of the check and the texts of the messages are left
-- out.
use instant_grant_core.Prelude.{
  Bool, true, false, ◌||◌, ◌&&◌, ◌==◌, not, Option, none, some, List, [], ◌∷◌, ◌++◌, Text, codes,
  text_eq, any, all, length, is_empty, if◌then◌else◌,
}
use instant_grant_core.Js.{get_field}
use instant_grant_core.Audit.Canonical.{Platform, sha256_hex}
use instant_grant_core.Audit.Entry.{
  AuditImmutableMode, AuditImmutableSink, AuditEvent, sink_text, build_immutable_payload, mode_text,
}
use instant_grant_core.Audit.Append.{
  AuditRows, genesis, hash_or_genesis, hash_entry, get_audit_entry_by_hash,
}
use instant_grant_core.Receipt.Record.{
  ParticipationTicketReceipt, compute_participation_ticket_receipt_hash, sinks_of_entry,
  mode_of_entry, payload_hash_of_entry,
}
use instant_grant_core.Receipt.Reading.{normalize_string_field}

pub data ReceiptIssue : Type 0 where
  receipt_hash_mismatch entry_not_found entry_hash_mismatch receipt_id_mismatch : ReceiptIssue
  confirmation_code_mismatch event_id_mismatch prev_hash_mismatch : ReceiptIssue
  stream_prev_hash_mismatch global_chain_link_missing stream_chain_link_missing : ReceiptIssue
  immutable_payload_hash_mismatch immutable_sinks_mismatch immutable_mode_mismatch : ReceiptIssue

pub record ReceiptChecks : Type 0 where
  pub receipt_hash_valid : Bool
  pub entry_exists : Bool
  pub entry_hash_valid : Bool
  pub confirmation_code_matches : Bool
  pub event_id_matches : Bool
  pub global_chain_link_valid : Bool
  pub stream_chain_link_valid : Bool
  pub immutable_payload_hash_matches : Bool
  pub immutable_sinks_match : Bool

pub record ReceiptProof : Type 0 where
  pub entry_hash : Text
  pub prev_hash : Text
  pub stream_prev_hash : Text
  pub immutable_payload_hash : Option Text
  pub immutable_sinks : List AuditImmutableSink

pub record ReceiptVerification : Type 0 where
  pub ok : Bool
  pub receipt_id : Text
  pub event_id : Text
  pub confirmation_code : Text
  pub checks : ReceiptChecks
  pub issues : List ReceiptIssue
  pub proof : ReceiptProof

abbrev pub unless : Bool → ReceiptIssue → List ReceiptIssue
unless true issue = []
unless false issue = issue ∷ []

abbrev pub no_issues : List ReceiptIssue → Bool
no_issues [] = true
no_issues (i ∷ is) = false

abbrev pub option_text_eq : Option Text → Option Text → Bool
option_text_eq none none = true
option_text_eq none (some t) = false
option_text_eq (some s) none = false
option_text_eq (some s) (some t) = text_eq s t

-- The signatures of sinks, each once.
abbrev pub signature : AuditImmutableSink → Text
signature s = sink_text s.sink ++ (codes "|" ++ s.ref)

abbrev add_signature : Text → List Text → List Text
add_signature s ss = if any (text_eq s) ss then ss else s ∷ ss

unfoldable pub sink_signature_set : List AuditImmutableSink → List Text
sink_signature_set [] = []
sink_signature_set (s ∷ ss) = add_signature (signature s) (sink_signature_set ss)

abbrev pub same_sinks : List AuditImmutableSink → List AuditImmutableSink → Bool
same_sinks of_entry of_receipt =
    (length (sink_signature_set of_entry) == length (sink_signature_set of_receipt))
    && all (λ s. any (text_eq s) (sink_signature_set of_entry)) (sink_signature_set of_receipt)

abbrev mode_eq : AuditImmutableMode → AuditImmutableMode → Bool
mode_eq m n = text_eq (mode_text m) (mode_text n)

abbrev pub has_entry_hash : Text → Option AuditEvent → Bool
has_entry_hash h none = false
has_entry_hash h (some e) = text_eq e.entry_hash h

abbrev pub is_stream_entry : Text → Text → Option AuditEvent → Bool
is_stream_entry h event_id none = false
is_stream_entry h event_id (some e) = text_eq e.entry_hash h && text_eq e.event_id event_id

-- Whether the entry before in the whole log is there.
unfoldable pub global_link_valid : AuditRows → AuditEvent → Bool
global_link_valid rows e =
    if text_eq e.prev_hash genesis
    then true
    else has_entry_hash e.prev_hash (get_audit_entry_by_hash e.prev_hash rows)

-- Whether the entry before in the event's stream is there and is of the event.
unfoldable pub stream_link_valid : AuditRows → AuditEvent → Bool
stream_link_valid rows e =
    let prev = hash_or_genesis e.stream_prev_hash in
    if text_eq prev genesis
    then true
    else is_stream_entry prev e.event_id (get_audit_entry_by_hash prev rows)

abbrev both_none : Option Text → Option Text → Bool
both_none none none = true
both_none _ _ = false

abbrev is_recomputed : Text → Option Text → Bool
is_recomputed hash none = false
is_recomputed hash (some h) = text_eq h hash

module _ (platform : Platform) where
  unfoldable pub payload_hash_matches : ParticipationTicketReceipt → AuditEvent → Bool
  payload_hash_matches r e =
      let recomputed = sha256_hex platform (build_immutable_payload platform e) in
      let of_entry = payload_hash_of_entry e.immutable in
      let of_receipt = r.base.audit.immutable_payload_hash in
      both_none of_entry of_receipt
      || (is_recomputed recomputed of_entry && is_recomputed recomputed of_receipt)

  abbrev pub hash_valid : ParticipationTicketReceipt → Bool
  hash_valid r = text_eq (compute_participation_ticket_receipt_hash platform r.base) r.receipt_hash

  -- The checks against an entry that is there.
  unfoldable pub entry_checks : AuditRows → ParticipationTicketReceipt → AuditEvent → ReceiptChecks
  unfolding global_link_valid stream_link_valid payload_hash_matches
  entry_checks rows r e = record {
    receipt_hash_valid = hash_valid r;
    entry_exists = true;
    entry_hash_valid =
        text_eq (hash_entry platform e) e.entry_hash
        && text_eq e.entry_hash r.base.audit.entry_hash;
    confirmation_code_matches =
        option_text_eq (normalize_string_field (get_field (codes "confirmationCode") e.content))
          (some r.base.confirmation_code);
    event_id_matches = text_eq e.event_id r.base.audit.event_id && not (is_empty e.event_id);
    global_chain_link_valid = global_link_valid rows e;
    stream_chain_link_valid = stream_link_valid rows e;
    immutable_payload_hash_matches = payload_hash_matches r e;
    immutable_sinks_match = same_sinks (sinks_of_entry e.immutable) r.base.audit.immutable_sinks;
  }

  unfoldable pub receipt_entry_issues :
      ReceiptChecks → ParticipationTicketReceipt → AuditEvent → List ReceiptIssue
  receipt_entry_issues c r e =
      unless c.receipt_hash_valid receipt_hash_mismatch
      ++ (unless c.entry_hash_valid entry_hash_mismatch
          ++ (unless
                (text_eq r.base.receipt_id r.base.audit.entry_hash
                  && text_eq r.base.receipt_id e.entry_hash)
                receipt_id_mismatch
              ++ (unless c.confirmation_code_matches confirmation_code_mismatch
                  ++ (unless c.event_id_matches event_id_mismatch
                      ++ (unless (text_eq e.prev_hash r.base.audit.prev_hash) prev_hash_mismatch
                          ++ (unless
                                (text_eq (hash_or_genesis e.stream_prev_hash)
                                  r.base.audit.stream_prev_hash)
                                stream_prev_hash_mismatch
                              ++ (unless c.global_chain_link_valid global_chain_link_missing
                                  ++ (unless c.stream_chain_link_valid stream_chain_link_missing
                                      ++ (unless c.immutable_payload_hash_matches
                                            immutable_payload_hash_mismatch
                                          ++ (unless c.immutable_sinks_match
                                                immutable_sinks_mismatch
                                              ++ unless
                                                  (mode_eq (mode_of_entry e.immutable)
                                                    r.base.audit.immutable_mode)
                                                  immutable_mode_mismatch))))))))))

  abbrev without_entry : ParticipationTicketReceipt → ReceiptVerification
  without_entry r = record {
    ok = false;
    receipt_id = r.base.receipt_id;
    event_id = r.base.audit.event_id;
    confirmation_code = r.base.confirmation_code;
    checks = record {
      receipt_hash_valid = hash_valid r;
      entry_exists = false;
      entry_hash_valid = false;
      confirmation_code_matches = false;
      event_id_matches = false;
      global_chain_link_valid = false;
      stream_chain_link_valid = false;
      immutable_payload_hash_matches = false;
      immutable_sinks_match = false;
    };
    issues = unless (hash_valid r) receipt_hash_mismatch ++ (entry_not_found ∷ []);
    proof = record {
      entry_hash = r.base.audit.entry_hash;
      prev_hash = r.base.audit.prev_hash;
      stream_prev_hash = r.base.audit.stream_prev_hash;
      immutable_payload_hash = r.base.audit.immutable_payload_hash;
      immutable_sinks = r.base.audit.immutable_sinks;
    };
  }

  abbrev pub with_entry :
      AuditRows → ParticipationTicketReceipt → Option AuditEvent → ReceiptVerification
  with_entry rows r none = without_entry r
  with_entry rows r (some e) =
      let checks = entry_checks rows r e in
      let issues = receipt_entry_issues checks r e in
      record {
        ok = no_issues issues;
        receipt_id = r.base.receipt_id;
        event_id = r.base.audit.event_id;
        confirmation_code = r.base.confirmation_code;
        checks = checks;
        issues = issues;
        proof = record {
          entry_hash = e.entry_hash;
          prev_hash = e.prev_hash;
          stream_prev_hash = hash_or_genesis e.stream_prev_hash;
          immutable_payload_hash = payload_hash_of_entry e.immutable;
          immutable_sinks = sinks_of_entry e.immutable;
        };
      }

  unfoldable pub verify_participation_ticket_receipt :
      AuditRows → ParticipationTicketReceipt → ReceiptVerification
  unfolding entry_checks receipt_entry_issues
  verify_participation_ticket_receipt rows r =
      with_entry rows r (get_audit_entry_by_hash r.base.audit.entry_hash rows)
