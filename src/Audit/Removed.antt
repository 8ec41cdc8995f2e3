-- ===== src/Audit/Removed.antt =====
-- The check of the audit log notices entries that were taken out of its middle.
use mathlib.Core.List.{append-nil}
use instant_grant_core.Prelude.{
  ℕ, ◌≤◌, Bool, true, false, ◌&&◌, not, some, List, [], ◌∷◌, ◌++◌, map, Text, text_eq, any,
  All-append, keep_if, length, ◌≡◌, ◌∙◌, refl, sym, subst, ◌==◌, arith,
}
use instant_grant_core.Audit.Canonical.{Platform}
use instant_grant_core.Audit.Entry.{AuditImmutableMode, AuditEvent}
use instant_grant_core.Audit.Services.{Services}
use instant_grant_core.Audit.Append.{AuditRows, genesis}
use instant_grant_core.Audit.Chain.{
  ChainKind, AuditIntegrityIssue, has_hash, is_child, chain_heads, link_issues,
}
use instant_grant_core.Audit.Rows.{all_row_issues, entry, issues_if}
use instant_grant_core.Audit.Verify.{
  valid_entries, global_issues, all_stream_issues, global_chain, is_nil, is_off, check_throws,
  integrity_issues, AuditIntegrityReport, verify_audit_integrity, global_head_issue, one_head,
}
use instant_grant_core.Audit.Windows.{IsWindow, no_child, newest_no_child, text_eq_comm}
use instant_grant_core.Audit.Log.{entries_of}
use instant_grant_core.Audit.Honest.{
  Logged, IsLog, IsChain, Logged-IsHonest, log-IsChain, chain-IsWindow,
}
use instant_grant_core.Audit.Sound.{valid_entries-All, log-All-IsShaped, IsShaped}
use instant_grant_core.Audit.Tamper.{noticed, IsAmong, IsAmong-left, IsAmong-right, is_nil-IsAmong}

any-append {ℓ} :
    {A : Type ℓ} (p : A → Bool) (xs ys : List A)
    → any p xs ≡ false
    → any p ys ≡ false
    → any p (xs ++ ys) ≡ false
any-append p [] ys h k = k
any-append p (x ∷ xs) ys h k = ground (arith, any-append p xs ys)

-- Two elements that pass a test, with others in between.
keep_if-two {ℓ} :
    {A : Type ℓ} (p : A → Bool) (x y : A) (xs ys : List A)
    → p x ≡ true
    → p y ≡ true
    → 2 ≤ length (keep_if p (x ∷ (xs ++ (y ∷ ys))))
keep_if-two p x y [] ys h k = rw (h, k) (omega arith)
keep_if-two p x y (z ∷ xs) ys h k = ground (arith, keep_if-two p x y xs ys)

IsChain-drop :
    (prev : AuditEvent → Text) (newer older : List AuditEvent)
    → IsChain prev (newer ++ older)
    → IsChain prev older
IsChain-drop prev [] older c = c
IsChain-drop prev (e ∷ newer) older (names, absent, later, c) = IsChain-drop prev newer older c

has_hash-older :
    (h : Text) (newer older : List AuditEvent)
    → has_hash h (newer ++ older) ≡ false
    → has_hash h older ≡ false
has_hash-older h [] older absent = absent
has_hash-older h (e ∷ newer) older absent = has_hash-older h newer older (ground arith)

has_hash-at :
    (h : Text) (f : AuditEvent) (newer older : List AuditEvent)
    → has_hash h (newer ++ (f ∷ older)) ≡ false
    → text_eq f.entry_hash h ≡ false
has_hash-at h f [] older absent = ground arith
has_hash-at h f (e ∷ newer) older absent = has_hash-at h f newer older (ground arith)

-- An older entry's hash is no newer one's.
older_hash :
    (prev : AuditEvent → Text) (f : AuditEvent) (newer taken older : List AuditEvent)
    → IsChain prev (newer ++ (taken ++ (f ∷ older)))
    → has_hash f.entry_hash newer ≡ false
older_hash prev f [] taken older c = refl
older_hash prev f (e ∷ newer) taken older (names, absent, later, c) =
    let other : text_eq f.entry_hash e.entry_hash ≡ false =
      has_hash-at e.entry_hash f taken older
        (has_hash-older e.entry_hash newer (taken ++ (f ∷ older)) absent) in
    ground (arith, text_eq_comm f.entry_hash e.entry_hash, older_hash prev f newer taken older c)

module _ (kind : ChainKind) where
  -- Both parts have an entry that nobody names.
  pub chain_heads-gap :
      (e m f : AuditEvent) (newer removed older : List AuditEvent)
      → IsChain kind.prev (e ∷ (newer ++ (m ∷ (removed ++ (f ∷ older)))))
      → 2 ≤ length (chain_heads kind (e ∷ (newer ++ (f ∷ older))))
  unfolding chain_heads
  chain_heads-gap e m f newer removed older c =
      let taken = m ∷ removed in
      let rest = f ∷ older in
      let cut : IsChain kind.prev (taken ++ rest) =
        IsChain-drop kind.prev (e ∷ newer) (taken ++ rest) c in
      let end : IsChain kind.prev rest = IsChain-drop kind.prev taken rest cut in
      let newer_window : IsWindow kind m.entry_hash (e ∷ newer) =
        chain-IsWindow kind (e ∷ newer) (taken ++ rest) c in
      let older_window : IsWindow kind genesis rest =
        chain-IsWindow kind rest [] (subst (IsChain kind.prev) (sym (append-nil rest)) end) in
      let e_unnamed : any (is_child kind e.entry_hash) ((e ∷ newer) ++ rest) ≡ false =
        any-append (is_child kind e.entry_hash) (e ∷ newer) rest
          (newest_no_child kind m.entry_hash e newer newer_window)
          (no_child kind genesis e.entry_hash rest older_window
            (text_eq_comm genesis e.entry_hash ∙ c.2)
            (has_hash-older e.entry_hash taken rest
              (has_hash-older e.entry_hash newer (taken ++ rest) c.1))) in
      let f_unnamed : any (is_child kind f.entry_hash) ((e ∷ newer) ++ rest) ≡ false =
        any-append (is_child kind f.entry_hash) (e ∷ newer) rest
          (no_child kind m.entry_hash f.entry_hash (e ∷ newer) newer_window
            (text_eq_comm m.entry_hash f.entry_hash
              ∙ has_hash-at m.entry_hash f removed older cut.1)
            (older_hash kind.prev f (e ∷ newer) taken older c))
          (newest_no_child kind genesis f older older_window) in
      keep_if-two (λ g. not (any (is_child kind g.entry_hash) ((e ∷ newer) ++ rest))) e f newer
        older (rw e_unnamed refl) (rw f_unnamed refl)

IsLog-drop :
    (platform : Platform) (newer older : List AuditEvent)
    → IsLog platform (newer ++ older)
    → IsLog platform older
IsLog-drop platform [] older h = h
IsLog-drop platform (e ∷ newer) older (continues, absent, later, named, filled, h) =
    IsLog-drop platform newer older h

-- Two heads are an issue.
two_heads :
    (issue : AuditIntegrityIssue) (window heads : List AuditEvent)
    → 2 ≤ length heads
    → is_nil window ≡ false
    → IsAmong issue (issues_if (not (length window == 0) && not (one_head heads)) issue)
two_heads issue window [] two some_entry = absurd (omega arith)
two_heads issue window (e ∷ []) two some_entry = absurd (omega arith)
two_heads issue [] (e ∷ f ∷ heads) two some_entry = cc
two_heads issue (g ∷ window) (e ∷ f ∷ heads) two some_entry = ([], [], ground arith)

global_issues-two_heads :
    (window : List AuditEvent)
    → 2 ≤ length (chain_heads global_chain window)
    → is_nil window ≡ false
    → IsAmong global_head_issue (global_issues window)
unfolding global_issues
global_issues-two_heads window two some_entry =
    IsAmong-right global_head_issue (link_issues global_chain window) _ (
      IsAmong-left global_head_issue _ _
        (two_heads global_head_issue window (chain_heads global_chain window) two some_entry))

module _ (platform : Platform) (services : Services) where
  open services use {World}

  -- Entries taken out of the middle are noticed. Of a log that appends have made, with at least one
  -- newer entry, then at least one other, then at least one older, the check of the newer and the
  -- older entries alone gives a report that is not ok, and among its issues is that the chain has not
  -- exactly one head. Each append was for an event id that is neither empty nor `global`, with a hash
  -- that no entry before it has, and with a history key, of its time and hash, that comes after all
  -- the keys before it. It holds with and without the check of the immutable copies, where no read of
  -- the bucket that the check makes throws.
  pub verify_audit_integrity-removed :
      {rows : AuditRows} (mode : AuditImmutableMode) (audit_logs : Bool) (limit : ℕ)
      (verify_immutable : Bool) (w : World) (e m f : AuditEvent)
      (newer removed older : List AuditEvent)
      → Logged platform services rows
      → entries_of rows ≡ (e ∷ newer) ++ ((m ∷ removed) ++ (f ∷ older))
      → check_throws platform services mode audit_logs verify_immutable w
          (map entry ((e ∷ newer) ++ (f ∷ older)))
        ≡ false
      → (report : AuditIntegrityReport) × (verify_audit_integrity platform services mode audit_logs
            limit verify_immutable w
            (map entry ((e ∷ newer) ++ (f ∷ older)))
          ≡ some report)
        × (report.ok ≡ false)
        × IsAmong global_head_issue report.issues
  unfolding verify_audit_integrity integrity_issues
  verify_audit_integrity-removed {rows} mode audit_logs limit verify_immutable w e m f newer removed
        older logged made readable =
      let immutable = verify_immutable && not (is_off mode) in
      let h : IsLog platform ((e ∷ newer) ++ ((m ∷ removed) ++ (f ∷ older))) =
        subst (IsLog platform) made (Logged-IsHonest platform services logged).log in
      let rest =
        IsLog-drop platform (m ∷ removed) (f ∷ older) (IsLog-drop platform (e ∷ newer) _ h) in
      let shaped =
        All-append IsShaped (e ∷ newer) (f ∷ older) (log-All-IsShaped platform (e ∷ newer) _ h) (
          log-All-IsShaped platform (f ∷ older) []
            (subst (IsLog platform) (sym (append-nil (f ∷ older))) rest)) in
      let window = (e ∷ newer) ++ (f ∷ older) in
      let valid : valid_entries (map entry window) ≡ window = valid_entries-All window shaped in
      let gap =
        global_issues-two_heads window
          (chain_heads-gap global_chain e m f newer removed older
            (log-IsChain platform ((e ∷ newer) ++ ((m ∷ removed) ++ (f ∷ older))) h))
          refl in
      let among : IsAmong global_head_issue
          (integrity_issues platform services immutable audit_logs w (map entry window)) =
        IsAmong-right global_head_issue
          (all_row_issues platform services immutable audit_logs w (map entry window))
          (global_issues (valid_entries (map entry window))
            ++ all_stream_issues (valid_entries (map entry window)) []
                (valid_entries (map entry window)))
          (IsAmong-left global_head_issue (global_issues (valid_entries (map entry window)))
            (all_stream_issues (valid_entries (map entry window)) []
              (valid_entries (map entry window)))
            (subst (λ v. IsAmong global_head_issue (global_issues v)) (sym valid) gap)) in
      noticed global_head_issue _ _ readable (is_nil-IsAmong global_head_issue _ among) among
