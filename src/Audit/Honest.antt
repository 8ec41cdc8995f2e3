-- ===== src/Audit/Honest.antt =====
-- The logs that appending makes, and the windows on them.
use instant_grant_core.Prelude.{
  ℕ, zero, suc, true, false, none, List, [], ◌∷◌, ◌++◌, Text, text_eq, text_eq_sound, is_empty,
  drop, ◌≡◌, ◌∙◌, refl, sym, ap, subst, inl, inr, Bool-cases, arith,
}
use instant_grant_core.Audit.Canonical.{Platform}
use instant_grant_core.Audit.Entry.{AuditImmutableMode, AuditEvent}
use instant_grant_core.Audit.Services.{Services, ImmutableBindings}
use instant_grant_core.Audit.Append.{
  AuditRows, AuditLogRequest, Appended, appended, append_failed, genesis, hash_or_genesis,
  history_key, full_entry, append_audit_log, take, rows_of, newest,
}
use instant_grant_core.Audit.Chain.{ChainKind, has_hash}
use instant_grant_core.Audit.Verify.{is_of, global_chain, stream_chain}
use instant_grant_core.Audit.Windows.{top_or, text_eq_comm, IsWindow}
use instant_grant_core.Audit.Log.{
  entries_of, last_of, stream_of, global_id, is_after, Continues, HoldsLast, Extends,
  sha256_hex-ne-genesis, append_audit_log-Extends,
}

abbrev pub no_rows : AuditRows
no_rows = record { last_hashes = λ k. none; history = []; entries = λ k. none }

-- No entry of the log has the hash of what was appended.
abbrev pub IsNew : AuditRows → Appended → Type 0
IsNew rows (append_failed message) = Unit
IsNew rows (appended e) =
    (has_hash e.entry_hash (entries_of rows) ≡ false) × (is_empty e.entry_hash ≡ false)

module _ (platform : Platform) (services : Services) where
  open services use {World}

  -- The rows that appends lead to, from none on. Each append finds the services as they are, comes
  -- at a later key, is for an event whose id is not empty and not `global`, and its hash is new.
  pub data Logged : AuditRows → Type 1 where
    empty_log : Logged no_rows
    and_then :
        {rows rows' : AuditRows} {w' : World} {r : Appended}
        → Logged rows
        → (mode : AuditImmutableMode) (b : ImmutableBindings) (q : AuditLogRequest) (ts at : Text)
          (w : World)
        → append_audit_log platform services mode b q ts at (w, rows) ≡ ((w', rows'), r)
        → text_eq q.event_id global_id ≡ false
        → is_empty q.event_id ≡ false
        → is_after (history_key ts (full_entry platform q ts rows).entry_hash) rows.history ≡ true
        → IsNew rows r
        → Logged rows'

module _ (platform : Platform) where
  -- A log all of whose entries continue what is before them, under hashes that differ.
  abbrev pub IsLog : List AuditEvent → Type 0
  IsLog [] = Unit
  IsLog (e ∷ es) =
      Continues platform e es
      × (has_hash e.entry_hash es ≡ false)
      × (text_eq e.entry_hash genesis ≡ false)
      × (is_empty e.event_id ≡ false)
      × (is_empty e.entry_hash ≡ false)
      × IsLog es

  pub record IsHonest (rows : AuditRows) : Type 0 where
    pub holds : HoldsLast platform rows
    pub log : IsLog (entries_of rows)

  no_rows-IsHonest : IsHonest no_rows
  no_rows-IsHonest = record {
    holds = record { global_last = refl; stream_last = λ event_id other. refl };
    log = tt;
  }

  extended-IsHonest :
      (q : AuditLogRequest) (ts : Text) (rows rows' : AuditRows) (r : Appended)
      → IsHonest rows
      → is_empty q.event_id ≡ false
      → IsNew rows r
      → Extends platform q ts rows rows' r
      → IsHonest rows'
  extended-IsHonest q ts rows rows' (append_failed message) h named new same =
      subst IsHonest (sym same) h
  extended-IsHonest q ts rows rows' (appended e) h named (new, filled)
        (longer, continues, at, event, event_id, actor, content, holds) =
      record {
        holds = holds;
        log = subst IsLog (sym longer) (
          continues,
          new,
          subst (λ t. text_eq t genesis ≡ false) continues.hash (sha256_hex-ne-genesis platform _),
          subst (λ t. is_empty t ≡ false) (sym event_id) named,
          filled,
          h.log,
        );
      }

module _ (platform : Platform) (services : Services) where
  pub Logged-IsHonest : {rows : AuditRows} → Logged platform services rows → IsHonest platform rows
  Logged-IsHonest empty_log = no_rows-IsHonest platform
  Logged-IsHonest
        (and_then {rows} {rows'} {w'} {r} before mode b q ts at w ran global named after new) =
      let h = Logged-IsHonest before in
      let extends =
        append_audit_log-Extends platform services mode b q ts at w rows h.holds global after in
      extended-IsHonest platform q ts rows rows' r h named new
        (subst (λ s. Extends platform q ts rows s.0.1 s.1) ran extends)

module _ (prev : AuditEvent → Text) where
  -- A whole chain: each entry names the next, the oldest GENESIS.
  abbrev pub IsChain : List AuditEvent → Type 0
  IsChain [] = Unit
  IsChain (e ∷ es) =
      (prev e ≡ last_of es)
      × (has_hash e.entry_hash es ≡ false)
      × (text_eq e.entry_hash genesis ≡ false)
      × IsChain es

module _ (kind : ChainKind) where
  top-append : (es older : List AuditEvent) → last_of (es ++ older) ≡ top_or (last_of older) es
  top-append [] older = refl
  top-append (e ∷ es) older = refl

  has_hash-append :
      (h : Text) (es older : List AuditEvent)
      → has_hash h (es ++ older) ≡ false
      → text_eq h genesis ≡ false
      → (has_hash h es ≡ false) × (text_eq (last_of older) h ≡ false)
  has_hash-append h [] [] absent later = (refl, text_eq_comm genesis h ∙ later)
  has_hash-append h [] (f ∷ older) absent later = (refl, ground arith)
  has_hash-append h (e ∷ es) older absent later =
      let (newer, last) = has_hash-append h es older (ground arith) later in (ground arith, last)

  -- The newest entries of a chain are a window.
  pub chain-IsWindow :
      (es older : List AuditEvent)
      → IsChain kind.prev (es ++ older)
      → IsWindow kind (last_of older) es
  chain-IsWindow [] older c = tt
  chain-IsWindow (e ∷ es) older (names, absent, later, c) =
      let (newer, last) = has_hash-append e.entry_hash es older absent later in
      (names ∙ top-append es older, newer, last, later, chain-IsWindow es older c)

module _ (platform : Platform) where
  pub log-IsChain : (es : List AuditEvent) → IsLog platform es → IsChain global_chain.prev es
  log-IsChain [] h = tt
  log-IsChain (e ∷ es) (continues, absent, later, named, filled, h) =
      (continues.prev_hash, absent, later, log-IsChain es h)

  stream-absent :
      (k h : Text) (es : List AuditEvent)
      → has_hash h es ≡ false
      → has_hash h (stream_of k es) ≡ false
  stream-absent k h [] absent = refl
  stream-absent k h (e ∷ es) absent = ground (arith, stream-absent k h es)

  pub stream-IsChain :
      (k : Text) (es : List AuditEvent)
      → IsLog platform es
      → IsChain stream_chain.prev (stream_of k es)
  stream-IsChain k [] h = tt
  stream-IsChain k (e ∷ es) (continues, absent, later, named, filled, h) =
      elim (Bool-cases (is_of k e)) [
        | inr other ↦ rw other (stream-IsChain k es h)
        | inl mine ↦
            let names : hash_or_genesis e.stream_prev_hash ≡ last_of (stream_of k es) =
              ap hash_or_genesis continues.stream_prev_hash
              ∙ ap (λ t. last_of (stream_of t es)) (text_eq_sound e.event_id k mine) in
            rw mine (names, stream-absent k e.entry_hash es absent, later, stream-IsChain k es h)
      ]

pub stream-append :
    (k : Text) (es older : List AuditEvent)
    → stream_of k (es ++ older) ≡ stream_of k es ++ stream_of k older
stream-append k [] older = refl
stream-append k (e ∷ es) older = elim (Bool-cases (is_of k e)) [
  | inl mine ↦ rw mine (ap (λ l. e ∷ l) (stream-append k es older))
  | inr other ↦ rw other (stream-append k es older)
]

-- The newest rows and the others.
take-append-drop :
    (n : ℕ) (rows : List (Text × AuditEvent))
    → rows_of rows ≡ rows_of (take n rows) ++ rows_of (drop n rows)
take-append-drop zero rows = refl
take-append-drop (suc n) [] = refl
take-append-drop (suc n) ((k, e) ∷ rows) = ap (λ l. e ∷ l) (take-append-drop n rows)

pub newest-append :
    (n : ℕ) (rows : AuditRows) → entries_of rows ≡ newest n rows ++ rows_of (drop n rows.history)
newest-append n rows = take-append-drop n rows.history
