-- ===== src/Claim/State.antt =====
-- The stored record of one subject's claims on one event, its reader and its writer
-- (api-worker/src/claimLogic.ts, the types ClaimHistoryEntry to ClaimState and the functions
-- parseClaimHistory to serializeClaimState).
use instant_grant_core.Prelude.{
  ℕ, Bool, true, ◌||◌, Option, none, some, List, [], ◌∷◌, Text, codes, trim, is_empty, ltb, leb,
  if◌then◌else◌,
}
use instant_grant_core.Js.{
  pos, finite, Value, undefined, number, string, array, object, Items, nil, cons, Fields, end,
  field, get_field, set_field, integer, parse_positive_int,
}

pub record ClaimHistoryEntry : Type 0 where
  pub at : ℕ
  pub code : Option Text

pub record PendingClaimEntry : Type 0 where
  pub at : ℕ
  pub code : Text

pub record ClaimState : Type 0 where
  pub history : List ClaimHistoryEntry
  pub pending : Option PendingClaimEntry

-- `typeof c === 'string' && c.trim() ? c.trim() : undefined`
unfoldable pub parse_code : Value → Option Text
parse_code (string s) = if is_empty (trim s) then none else some (trim s)
parse_code _ = none

unfoldable pub parse_entry : Fields → Option ClaimHistoryEntry
parse_entry fs = elim (parse_positive_int (get_field (codes "at") fs)) [
  | none ↦ none
  | some at ↦ some (record { at = at; code = parse_code (get_field (codes "code") fs) })
]

-- The loop over `obj.history`.
unfoldable pub parse_items : Items → List ClaimHistoryEntry
parse_items nil = []
parse_items (cons (object fs) items) =
    let rest = parse_items items in elim (parse_entry fs) [ none ↦ rest | some e ↦ e ∷ rest ]
parse_items (cons _ items) = parse_items items

unfoldable pub parse_history_field : Value → List ClaimHistoryEntry
parse_history_field (array items) = parse_items items
parse_history_field _ = []

-- The record without a usable history: the old form `{ at, code }`.
abbrev or_legacy : Fields → List ClaimHistoryEntry → List ClaimHistoryEntry
or_legacy fs (e ∷ es) = e ∷ es
or_legacy fs [] = elim (parse_entry fs) [ none ↦ [] | some e ↦ e ∷ [] ]

-- `sort((a, b) => a.at - b.at)`, which is stable.
unfoldable pub insert_by_at : ClaimHistoryEntry → List ClaimHistoryEntry → List ClaimHistoryEntry
insert_by_at e [] = e ∷ []
insert_by_at e (f ∷ fs) =
    let rest = insert_by_at e fs in if leb e.at f.at then e ∷ f ∷ fs else f ∷ rest

unfoldable pub sort_by_at : List ClaimHistoryEntry → List ClaimHistoryEntry
sort_by_at [] = []
sort_by_at (e ∷ es) = insert_by_at e (sort_by_at es)

unfoldable pub parse_claim_history : Value → List ClaimHistoryEntry
parse_claim_history (number (finite (pos n) fractional)) =
    if ltb 0 n || fractional then record { at = n; code = none } ∷ [] else []
parse_claim_history (object fs) =
    sort_by_at (or_legacy fs (parse_history_field (get_field (codes "history") fs)))
parse_claim_history _ = []

abbrev pending_of : Option ℕ → Option Text → Option PendingClaimEntry
pending_of (some at) (some code) = some (record { at = at; code = code })
pending_of _ _ = none

abbrev parse_pending_field : Value → Option PendingClaimEntry
parse_pending_field (object fs) =
    pending_of (parse_positive_int (get_field (codes "at") fs))
      (parse_code (get_field (codes "code") fs))
parse_pending_field _ = none

unfoldable pub parse_pending_claim : Value → Option PendingClaimEntry
parse_pending_claim (object fs) = parse_pending_field (get_field (codes "pending") fs)
parse_pending_claim _ = none

unfoldable pub parse_claim_state : Value → ClaimState
parse_claim_state raw = record {
  history = parse_claim_history raw;
  pending = parse_pending_claim raw;
}

abbrev pub code_value : Option Text → Value
code_value none = undefined
code_value (some code) = string code

abbrev pub entry_value : ClaimHistoryEntry → Value
entry_value e =
    object (field (codes "at") (integer e.at) (field (codes "code") (code_value e.code) end))

abbrev pub entries_value : List ClaimHistoryEntry → Items
entries_value [] = nil
entries_value (e ∷ es) = cons (entry_value e) (entries_value es)

-- `entries[entries.length - 1]` of a list with the head `e`.
abbrev pub latest_of : ClaimHistoryEntry → List ClaimHistoryEntry → ClaimHistoryEntry
latest_of e [] = e
latest_of e (f ∷ fs) = latest_of f fs

-- `!code`
abbrev pub no_code : Option Text → Bool
no_code none = true
no_code (some code) = is_empty code

abbrev history_fields : Value → Value → Items → Fields
history_fields at code items =
    field (codes "at") at (field (codes "code") code (field (codes "history") (array items) end))

abbrev full_history : ClaimHistoryEntry → List ClaimHistoryEntry → Value
full_history e es =
    let latest = latest_of e es in
    object (history_fields (integer latest.at) (code_value latest.code) (entries_value (e ∷ es)))

unfoldable pub serialize_claim_history : List ClaimHistoryEntry → Value
serialize_claim_history [] = undefined
serialize_claim_history (e ∷ []) = if no_code e.code then integer e.at else full_history e []
serialize_claim_history (e ∷ f ∷ fs) = full_history e (f ∷ fs)

-- The object that takes the pending entry.
abbrev history_object : ClaimState → PendingClaimEntry → Value → Fields
history_object state p (object fs) = fs
history_object state p _ =
    history_fields (integer p.at) (string p.code) (entries_value state.history)

abbrev pub pending_value : PendingClaimEntry → Value
pending_value p =
    object (field (codes "at") (integer p.at) (field (codes "code") (string p.code) end))

abbrev serialize_with : ClaimState → Value → Option PendingClaimEntry → Value
serialize_with state history none = history
serialize_with state history (some p) =
    object (set_field (codes "pending") (pending_value p) (history_object state p history))

unfoldable pub serialize_claim_state : ClaimState → Value
serialize_claim_state state =
    serialize_with state (serialize_claim_history state.history) state.pending
