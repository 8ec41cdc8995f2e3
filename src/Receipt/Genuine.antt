-- ===== src/Receipt/Genuine.antt =====
-- Which receipts pass the check: those made of an entry of the log, and only with such an entry.
use instant_grant_core.Prelude.{
  Bool, true, false, ◌&&◌, not, none, some, List, [], ◌∷◌, ◌++◌, Text, codes, text_eq,
  text_eq_sound, text_eq_refl, any, all, is_empty, ◌≡◌, ◌⊎◌, refl, sym, inl, inr, Option-cases,
  arith,
}
use instant_grant_core.Js.{get_field}
use instant_grant_core.Audit.Canonical.{Platform, sha256_hex}
use instant_grant_core.Audit.Entry.{
  AuditImmutableSink, AuditEvent, build_immutable_payload, mode_text,
}
use instant_grant_core.Audit.Append.{
  AuditRows, hash_or_genesis, hash_entry, get_audit_entry_by_hash,
}
use instant_grant_core.Receipt.Record.{
  ParticipationTicketReceipt, receipt_base, build_participation_ticket_receipt,
  compute_participation_ticket_receipt_hash, sinks_of_entry, mode_of_entry, payload_hash_of_entry,
}
use instant_grant_core.Receipt.Reading.{normalize_string_field}
use instant_grant_core.Receipt.Check.{
  ReceiptIssue, option_text_eq, no_issues, unless, same_sinks, sink_signature_set,
  global_link_valid, stream_link_valid, payload_hash_matches, entry_checks, receipt_entry_issues,
  verify_participation_ticket_receipt,
}

all_among :
    (ss ts : List Text)
    → ((s : Text) → any (text_eq s) ss ≡ true → any (text_eq s) ts ≡ true)
    → all (λ s. any (text_eq s) ts) ss ≡ true
all_among [] ts inside = refl
all_among (s ∷ ss) ts inside =
    let here : any (text_eq s) ts ≡ true = inside s (ground (arith, text_eq_refl s)) in
    rw here (all_among ss ts (λ t there. inside t (ground (arith, there))))

same_sinks_refl : (ss : List AuditImmutableSink) → same_sinks ss ss ≡ true
same_sinks_refl ss =
    let set = sink_signature_set ss in ground (arith, all_among set set (λ s there. there))

module _ (platform : Platform) where
  built-payload_hash_matches :
      (event_id subject confirmation_code : Text) (e : AuditEvent)
      → (payload_hash_of_entry e.immutable ≡ none)
        ⊎ (payload_hash_of_entry e.immutable
            ≡ some (sha256_hex platform (build_immutable_payload platform e)))
      → payload_hash_matches platform
          (build_participation_ticket_receipt platform event_id subject confirmation_code e)
          e
        ≡ true
  unfolding payload_hash_matches build_participation_ticket_receipt
  built-payload_hash_matches event_id subject code e sealed = elim sealed [
    | inl unsealed ↦ rw unsealed refl
    | inr hashed ↦
        rw (hashed, text_eq_refl (sha256_hex platform (build_immutable_payload platform e))) refl
  ]

  built-no_issues :
      (rows : AuditRows) (event_id subject confirmation_code : Text) (e : AuditEvent)
      → hash_entry platform e ≡ e.entry_hash
      → is_empty e.event_id ≡ false
      → normalize_string_field (get_field (codes "confirmationCode") e.content)
        ≡ some confirmation_code
      → global_link_valid rows e ≡ true
      → stream_link_valid rows e ≡ true
      → payload_hash_matches platform
          (build_participation_ticket_receipt platform event_id subject confirmation_code e)
          e
        ≡ true
      → no_issues (
          receipt_entry_issues platform
            (entry_checks platform rows
              (build_participation_ticket_receipt platform event_id subject confirmation_code e)
              e)
            (build_participation_ticket_receipt platform event_id subject confirmation_code e)
            e)
        ≡ true
  unfolding receipt_entry_issues entry_checks build_participation_ticket_receipt
  built-no_issues rows event_id subject code e fits named coded global stream payload =
      let own_hash : text_eq e.entry_hash e.entry_hash ≡ true = text_eq_refl e.entry_hash in
      let entry_fits : text_eq (hash_entry platform e) e.entry_hash ≡ true = rw fits own_hash in
      let code_fits : option_text_eq
            (normalize_string_field (get_field (codes "confirmationCode") e.content)) (some code)
          ≡ true =
        rw coded (text_eq_refl code) in
      let has_id : not (is_empty e.event_id) ≡ true = rw named refl in
      rw
        (
          text_eq_refl (
              compute_participation_ticket_receipt_hash platform
                (receipt_base platform event_id subject code e)),
          entry_fits,
          own_hash,
          code_fits,
          text_eq_refl e.event_id,
          has_id,
          text_eq_refl e.prev_hash,
          text_eq_refl (hash_or_genesis e.stream_prev_hash),
          global,
          stream,
          payload,
          same_sinks_refl (sinks_of_entry e.immutable),
          text_eq_refl (mode_text (mode_of_entry e.immutable)),
        )
        refl

  -- A receipt made of an entry passes. Its hash is the one that its check finds; where the entry is
  -- found under its own hash, fits it, is for an event with an id, has the confirmation code in its
  -- content, names entries that are found, the second in the same stream, and has the hash of its
  -- payload on its own receipt or no such receipt, the receipt made of it has no issue.
  pub verify-build_participation_ticket_receipt :
      (rows : AuditRows) (event_id subject confirmation_code : Text) (e : AuditEvent)
      → get_audit_entry_by_hash e.entry_hash rows ≡ some e
      → hash_entry platform e ≡ e.entry_hash
      → is_empty e.event_id ≡ false
      → normalize_string_field (get_field (codes "confirmationCode") e.content)
        ≡ some confirmation_code
      → global_link_valid rows e ≡ true
      → stream_link_valid rows e ≡ true
      → (payload_hash_of_entry e.immutable ≡ none)
        ⊎ (payload_hash_of_entry e.immutable
            ≡ some (sha256_hex platform (build_immutable_payload platform e)))
      → (verify_participation_ticket_receipt platform rows
          (build_participation_ticket_receipt platform event_id subject confirmation_code e)).ok
        ≡ true
  unfolding verify_participation_ticket_receipt build_participation_ticket_receipt
  verify-build_participation_ticket_receipt rows event_id subject code e there fits named coded
        global stream sealed =
      let r = build_participation_ticket_receipt platform event_id subject code e in
      rw there (
        built-no_issues rows event_id subject code e fits named coded global stream
          (built-payload_hash_matches event_id subject code e sealed))

unless-true :
    (b : Bool) (issue : ReceiptIssue) (issues : List ReceiptIssue)
    → no_issues (unless b issue ++ issues) ≡ true
    → (b ≡ true) × (no_issues issues ≡ true)
unless-true true issue issues h = (refl, h)
unless-true false issue issues h = cc

&&_true : (a b : Bool) → (a && b) ≡ true → (a ≡ true) × (b ≡ true)
&&_true true b h = (refl, h)
&&_true false b h = cc

module _ (platform : Platform) where
  -- What backs a receipt that passes.
  abbrev pub IsBacked : AuditRows → ParticipationTicketReceipt → AuditEvent → Type 0
  IsBacked rows r e =
      (get_audit_entry_by_hash r.base.audit.entry_hash rows ≡ some e)
      × (compute_participation_ticket_receipt_hash platform r.base ≡ r.receipt_hash)
      × (hash_entry platform e ≡ e.entry_hash)
      × (e.entry_hash ≡ r.base.receipt_id)
      × (e.event_id ≡ r.base.audit.event_id)
      × (e.prev_hash ≡ r.base.audit.prev_hash)
      × (global_link_valid rows e ≡ true)
      × (stream_link_valid rows e ≡ true)

  checked-IsBacked :
      (rows : AuditRows) (r : ParticipationTicketReceipt) (e : AuditEvent)
      → get_audit_entry_by_hash r.base.audit.entry_hash rows ≡ some e
      → no_issues (receipt_entry_issues platform (entry_checks platform rows r e) r e) ≡ true
      → IsBacked rows r e
  unfolding receipt_entry_issues entry_checks
  checked-IsBacked rows r e there h =
      let (own, h1) = unless-true _ _ _ h in
      let (hash, h2) = unless-true _ _ _ h1 in
      let (id, h3) = unless-true _ _ _ h2 in
      let (code, h4) = unless-true _ _ _ h3 in
      let (event, h5) = unless-true _ _ _ h4 in
      let (prev, h6) = unless-true _ _ _ h5 in
      let (stream_prev, h7) = unless-true _ _ _ h6 in
      let (global, h8) = unless-true _ _ _ h7 in
      let (stream, h9) = unless-true _ _ _ h8 in
      (
        there,
        text_eq_sound _ _ own,
        text_eq_sound _ _ (&&_true _ _ hash).0,
        sym (text_eq_sound _ _ (&&_true _ _ id).1),
        text_eq_sound _ _ (&&_true _ _ event).0,
        text_eq_sound _ _ prev,
        global,
        stream,
      )

  -- Only a receipt with an entry behind it passes: if the check of a receipt is ok, the log has an
  -- entry under the hash that the receipt names, the hashes of the receipt and of the entry are those
  -- of their fields, the receipt's id is the entry's hash, they agree on the event and on the entry
  -- before, and the entries before it in the log and in its stream are found.
  pub verify_participation_ticket_receipt-IsBacked :
      (rows : AuditRows) (r : ParticipationTicketReceipt)
      → (verify_participation_ticket_receipt platform rows r).ok ≡ true
      → (e : AuditEvent) × IsBacked rows r e
  unfolding verify_participation_ticket_receipt
  verify_participation_ticket_receipt-IsBacked rows r passed =
      elim (Option-cases (get_audit_entry_by_hash r.base.audit.entry_hash rows)) [
        | inl gone ↦ absurd (cc (rw gone at passed))
        | inr (e, there) ↦ (e, checked-IsBacked rows r e there (rw there at passed))
      ]
