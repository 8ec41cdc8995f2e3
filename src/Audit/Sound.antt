-- ===== src/Audit/Sound.antt =====
-- The check of the audit log finds nothing where nothing has been changed.
use instant_grant_core.Prelude.{
  ℕ, Bool, true, false, some, List, [], ◌∷◌, ◌++◌, map, Text, text_eq, text_eq_refl, is_empty, any,
  All, drop, keep_if, ◌≡◌, refl, ap, subst, inl, inr, Bool-cases, arith,
}
use instant_grant_core.Audit.Canonical.{Platform}
use instant_grant_core.Audit.Entry.{AuditImmutableMode, AuditEvent}
use instant_grant_core.Audit.Services.{Services}
use instant_grant_core.Audit.Append.{AuditRows, hash_entry, rows_of, newest}
use instant_grant_core.Audit.Rows.{
  entry_issues, entry_hash_issues, all_row_issues, entry, check_shape, well_formed,
}
use instant_grant_core.Audit.Verify.{
  valid_entries, global_issues, global_chain, stream_chain, stream_issues, all_stream_issues, is_of,
  is_nil, integrity_issues, AuditIntegrityReport, verify_audit_integrity,
}
use instant_grant_core.Audit.Windows.{
  IsWindow, link_issues-none, chain_heads-newest, walk_issues-none,
}
use instant_grant_core.Audit.Log.{last_of, stream_of, Continues}
use instant_grant_core.Audit.Honest.{
  Logged, IsLog, IsChain, Logged-IsHonest, log-IsChain, stream-IsChain, chain-IsWindow,
  stream-append, newest-append,
}

global_issues-none :
    (z : Text) (es : List AuditEvent) → IsWindow global_chain z es → global_issues es ≡ []
unfolding global_issues
global_issues-none z [] w = rw (link_issues-none global_chain z [] w) refl
global_issues-none z (e ∷ es) w =
    rw
      (
        link_issues-none global_chain z (e ∷ es) w,
        chain_heads-newest global_chain z e es w,
        walk_issues-none global_chain z e es w,
      )
      (ground arith)

stream_issues-none :
    (k z : Text) (es : List AuditEvent)
    → IsWindow stream_chain z es
    → is_nil es ≡ false
    → stream_issues k es ≡ []
unfolding stream_issues
stream_issues-none k z [] w some_entry = cc
stream_issues-none k z (e ∷ es) w some_entry =
    rw
      (
        link_issues-none stream_chain z (e ∷ es) w,
        chain_heads-newest stream_chain z e es w,
        walk_issues-none stream_chain z e es w,
      )
      refl

keep_if-is_nil {ℓ} :
    {A : Type ℓ} (p : A → Bool) (xs : List A) → any p xs ≡ true → is_nil (keep_if p xs) ≡ false
keep_if-is_nil p [] h = cc
keep_if-is_nil p (x ∷ xs) h = ground (arith, keep_if-is_nil p xs)

-- Every stream of a window has no issue, if those of the entries that are left have none.
all_stream_issues-none :
    (window seen es : List AuditEvent)
    → ((k : Text) → any (is_of k) es ≡ true → stream_issues k (stream_of k window) ≡ [])
    → all_stream_issues window seen es ≡ []
all_stream_issues-none window seen [] each = refl
all_stream_issues-none window seen (e ∷ es) each =
    let mine : any (is_of e.event_id) (e ∷ es) ≡ true = rw (text_eq_refl e.event_id) refl in
    let rest =
      all_stream_issues-none window (e ∷ seen) es (λ k there. each k (ground (arith, there))) in
    elim (Bool-cases (any (is_of e.event_id) seen)) [
      | inl old ↦ rw old rest
      | inr new ↦ rw (new, each e.event_id mine) rest
    ]

abbrev pub IsShaped : AuditEvent → Type 0
IsShaped e = check_shape (entry e) ≡ well_formed e

pub valid_entries-All : (es : List AuditEvent) → All IsShaped es → valid_entries (map entry es) ≡ es
valid_entries-All [] h = refl
valid_entries-All (e ∷ es) (shaped, h) = rw shaped (ap (λ l. e ∷ l) (valid_entries-All es h))

module _ (platform : Platform) where
  prev_filled :
      (e : AuditEvent) (es : List AuditEvent)
      → Continues platform e es
      → IsLog platform es
      → is_empty e.prev_hash ≡ false
  prev_filled e [] continues h = rw continues.prev_hash refl
  prev_filled e (f ∷ es) continues (below, absent, later, named, filled, h) =
      rw continues.prev_hash filled

  -- The entries of a log have the shape of entries.
  pub log-All-IsShaped :
      (es older : List AuditEvent) → IsLog platform (es ++ older) → All IsShaped es
  unfolding check_shape
  log-All-IsShaped [] older h = tt
  log-All-IsShaped (e ∷ es) older (continues, absent, later, named, filled, h) =
      (rw (named, prev_filled e (es ++ older) continues h) refl, log-All-IsShaped es older h)

module _ (platform : Platform) (services : Services) where
  open services use {World}

  all_row_issues-log :
      (audit_logs : Bool) (w : World) (es older : List AuditEvent)
      → IsLog platform (es ++ older)
      → all_row_issues platform services false audit_logs w (map entry es) ≡ []
  unfolding check_shape entry_issues entry_hash_issues
  all_row_issues-log audit_logs w [] older h = refl
  all_row_issues-log audit_logs w (e ∷ es) older (continues, absent, later, named, filled, h) =
      let same : text_eq (hash_entry platform e) e.entry_hash ≡ true =
        rw continues.hash (text_eq_refl e.entry_hash) in
      rw (named, prev_filled platform e (es ++ older) continues h, same)
        (all_row_issues-log audit_logs w es older h)

  integrity_issues-log :
      (audit_logs : Bool) (w : World) (es older : List AuditEvent)
      → IsLog platform (es ++ older)
      → integrity_issues platform services false audit_logs w (map entry es) ≡ []
  unfolding integrity_issues
  integrity_issues-log audit_logs w es older h =
      let streams = λ (k : Text) (there : any (is_of k) es ≡ true).
        stream_issues-none k (last_of (stream_of k older)) (stream_of k es)
          (chain-IsWindow stream_chain (stream_of k es) (stream_of k older) (
            subst (IsChain stream_chain.prev) (stream-append k es older)
              (stream-IsChain platform k (es ++ older) h)))
          (keep_if-is_nil (is_of k) es there) in
      rw
        (
          valid_entries-All es (log-All-IsShaped platform es older h),
          all_row_issues-log audit_logs w es older h,
          global_issues-none (last_of older) es
              (chain-IsWindow global_chain es older (log-IsChain platform (es ++ older) h)),
        )
        (all_stream_issues-none es [] es streams)

  -- A log that appends have made passes the check, provided that each append was for an event id that
  -- is neither empty nor `global`, with a hash that no entry before it has, and with a history key, of
  -- its time and hash, that comes after all the keys before it. Whatever the limit of the window and
  -- whichever modes the appends ran in, the check of the newest entries gives a report that is ok and
  -- has no issue, when it is asked for without the immutable copies.
  pub verify_audit_integrity-Logged :
      {rows : AuditRows} (mode : AuditImmutableMode) (audit_logs : Bool) (limit : ℕ) (w : World)
      → Logged platform services rows
      → (report : AuditIntegrityReport) × (verify_audit_integrity platform services mode audit_logs
            limit false w
            (map entry (newest limit rows))
          ≡ some report)
        × (report.ok ≡ true)
        × (report.issues ≡ [])
  unfolding verify_audit_integrity
  verify_audit_integrity-Logged {rows} mode audit_logs limit w logged =
      let h : IsLog platform (newest limit rows ++ rows_of (drop limit rows.history)) =
        subst (IsLog platform) (newest-append limit rows)
          (Logged-IsHonest platform services logged).log in
      let clean = integrity_issues-log audit_logs w (newest limit rows) _ h in
      (_, refl, rw clean refl, clean)
