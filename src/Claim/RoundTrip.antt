-- ===== src/Claim/RoundTrip.antt =====
-- What the writer of a claim record stores, its reader gives back.
use instant_grant_core.Prelude.{
  ℕ, ◌≤◌, ◌<◌, ◌≡◌, refl, ◌≢◌, inl, inr, true, false, Option, none, some, List, [], ◌∷◌, Text,
  codes, trim, is_empty, All, Bool-cases, arith,
}
use instant_grant_core.Js.{
  Value, object, string, array, Fields, field, end, integer, set_field, parse_positive_int,
}
use instant_grant_core.Claim.State.{
  code_value, pending_value, no_code, ClaimHistoryEntry, PendingClaimEntry, ClaimState, parse_code,
  parse_entry, parse_items, parse_history_field, insert_by_at, sort_by_at, parse_claim_history,
  parse_pending_claim, parse_claim_state, entries_value, serialize_claim_history,
  serialize_claim_state,
}

-- A code that is stored as it is read: trimmed and not empty.
abbrev pub IsCode : Text → Type 0
IsCode code = (trim code ≡ code) × (is_empty code ≡ false)

abbrev pub IsEntry : ClaimHistoryEntry → Type 0
IsEntry e = (0 < e.at) × ((code : Text) → e.code ≡ some code → IsCode code)

-- Oldest first.
abbrev pub Sorted : List ClaimHistoryEntry → Type 0
Sorted [] = Unit {0}
Sorted (e ∷ es) = All (λ f. e.at ≤ f.at) es × Sorted es

-- A pending entry comes with the claim that it awaits.
pub record IsStored (state : ClaimState) : Type 0 where
  pub entries : All IsEntry state.history
  pub sorted : Sorted state.history
  pub pending_at : (p : PendingClaimEntry) → state.pending ≡ some p → 0 < p.at
  pub pending_code : (p : PendingClaimEntry) → state.pending ≡ some p → IsCode p.code
  pub pending_claim : (p : PendingClaimEntry) → state.pending ≡ some p → state.history ≢ []

pub insert_by_at-least :
    (e : ClaimHistoryEntry) (es : List ClaimHistoryEntry)
    → All (λ f. e.at ≤ f.at) es
    → insert_by_at e es ≡ e ∷ es
unfolding insert_by_at
insert_by_at-least e [] h = refl
insert_by_at-least e (f ∷ es) h = ground arith

pub sort_by_at-Sorted : (es : List ClaimHistoryEntry) → Sorted es → sort_by_at es ≡ es
unfolding sort_by_at
sort_by_at-Sorted [] h = refl
sort_by_at-Sorted (e ∷ es) h = rw (sort_by_at-Sorted es h.1) (insert_by_at-least e es h.0)

parse_positive_int-integer : (n : ℕ) → 0 < n → parse_positive_int (integer n) ≡ some n
unfolding parse_positive_int
parse_positive_int-integer n h = ground arith

parse_code-string : (code : Text) → IsCode code → parse_code (string code) ≡ some code
unfolding parse_code
parse_code-string code h = rw (h.0, h.1)

parse_code-code_value :
    (code : Option Text)
    → ((c : Text) → code ≡ some c → IsCode c)
    → parse_code (code_value code) ≡ code
unfolding parse_code
parse_code-code_value none h = refl
parse_code-code_value (some c) h = parse_code-string c (h c refl)

abbrev entry_fields : ClaimHistoryEntry → Fields
entry_fields e = field (codes "at") (integer e.at) (field (codes "code") (code_value e.code) end)

parse_entry-entry_fields :
    (e : ClaimHistoryEntry) → IsEntry e → parse_entry (entry_fields e) ≡ some e
unfolding parse_entry
parse_entry-entry_fields e h =
    ground (arith, parse_positive_int-integer e.at h.0, parse_code-code_value e.code h.1)

parse_items-entries_value :
    (es : List ClaimHistoryEntry) → All IsEntry es → parse_items (entries_value es) ≡ es
unfolding parse_items
parse_items-entries_value [] h = refl
parse_items-entries_value (e ∷ es) h =
    ground (arith, parse_entry-entry_fields e h.0, parse_items-entries_value es h.1)

parse_history-full :
    (e : ClaimHistoryEntry) (es : List ClaimHistoryEntry) (at code : Value) (rest : Fields)
    → All IsEntry (e ∷ es)
    → Sorted (e ∷ es)
    → parse_claim_history (
        object (
          field (codes "at") at (
            field
              (codes "code")
              code
              (field (codes "history") (array (entries_value (e ∷ es))) rest))))
      ≡ e ∷ es
unfolding parse_claim_history parse_history_field
parse_history-full e es at code rest h s =
    rw (parse_items-entries_value (e ∷ es) h) (sort_by_at-Sorted (e ∷ es) s)

no_code-none :
    (code : Option Text)
    → ((c : Text) → code ≡ some c → IsCode c)
    → no_code code ≡ true
    → code ≡ none
no_code-none none h e = refl
no_code-none (some c) h e = let nonempty = (h c refl).1 in cc

parse_history-integer :
    (e : ClaimHistoryEntry) → 0 < e.at → e.code ≡ none → parse_claim_history (integer e.at) ≡ e ∷ []
unfolding parse_claim_history
parse_history-integer e h none_code = ground arith

serialize_history-parse :
    (es : List ClaimHistoryEntry)
    → All IsEntry es
    → Sorted es
    → parse_claim_history (serialize_claim_history es) ≡ es
unfolding serialize_claim_history
serialize_history-parse [] h s = unfold parse_claim_history in refl
serialize_history-parse (e ∷ []) h s = elim (Bool-cases (no_code e.code)) [
  | inl bare ↦ rw bare (parse_history-integer e h.0.0 (no_code-none e.code h.0.1 bare))
  | inr coded ↦ rw coded (parse_history-full e [] _ _ end h s)
]
serialize_history-parse (e ∷ f ∷ fs) h s = parse_history-full e (f ∷ fs) _ _ end h s

serialize_history-no_pending :
    (es : List ClaimHistoryEntry) → parse_pending_claim (serialize_claim_history es) ≡ none
unfolding serialize_claim_history parse_pending_claim
serialize_history-no_pending [] = refl
serialize_history-no_pending (e ∷ []) = ground arith
serialize_history-no_pending (e ∷ f ∷ fs) = refl

parse_pending-at :
    (at code items : Value) (p : PendingClaimEntry)
    → 0 < p.at
    → IsCode p.code
    → parse_pending_claim (
        object (
          set_field (codes "pending") (pending_value p) (
            field (codes "at") at (field (codes "code") code (field (codes "history") items end)))))
      ≡ some p
unfolding parse_pending_claim
parse_pending-at at code items p h k =
    rw (parse_positive_int-integer p.at h, parse_code-string p.code k)

with_pending-parse :
    (es : List ClaimHistoryEntry) (p : PendingClaimEntry)
    → All IsEntry es
    → Sorted es
    → es ≢ []
    → 0 < p.at
    → IsCode p.code
    → parse_claim_state (serialize_claim_state (record { history = es; pending = some p }))
      ≡ record { history = es; pending = some p }
unfolding parse_claim_state serialize_claim_state serialize_claim_history
with_pending-parse [] p h s n a k = absurd (n refl)
with_pending-parse (e ∷ []) p h s n a k = elim (Bool-cases (no_code e.code)) [
  | inl bare ↦ rw (bare, parse_history-full e [] _ _ _ h s, parse_pending-at _ _ _ p a k)
  | inr coded ↦ rw (coded, parse_history-full e [] _ _ _ h s, parse_pending-at _ _ _ p a k)
]
with_pending-parse (e ∷ f ∷ fs) p h s n a k =
    rw (parse_history-full e (f ∷ fs) _ _ _ h s, parse_pending-at _ _ _ p a k)

without_pending-parse :
    (es : List ClaimHistoryEntry)
    → All IsEntry es
    → Sorted es
    → parse_claim_state (serialize_claim_state (record { history = es; pending = none }))
      ≡ record { history = es; pending = none }
unfolding parse_claim_state serialize_claim_state
without_pending-parse es h s = rw (serialize_history-parse es h s, serialize_history-no_pending es)

split_pending :
    (es : List ClaimHistoryEntry) (pending : Option PendingClaimEntry)
    → IsStored (record { history = es; pending = pending })
    → parse_claim_state (serialize_claim_state (record { history = es; pending = pending }))
      ≡ record { history = es; pending = pending }
split_pending es none w = without_pending-parse es w.entries w.sorted
split_pending es (some p) w =
    with_pending-parse es p w.entries w.sorted (w.pending_claim p refl) (w.pending_at p refl)
      (w.pending_code p refl)

-- A claim state with positive times, trimmed codes, its history oldest first and a history
-- wherever an entry is pending comes back unchanged from the record that is stored for it.
pub parse-serialize :
    (state : ClaimState) → IsStored state → parse_claim_state (serialize_claim_state state) ≡ state
parse-serialize state w = split_pending state.history state.pending w
