-- ===== src/Codes/Unique.antt =====
-- No confirmation code is given twice: what a reservation finds and writes, and how long it holds.
use instant_grant_core.Prelude.{
  ℕ, zero, suc, ◌+◌, Bool, true, false, ◌&&◌, ◌||◌, none, some, List, [], ◌∷◌, ◌++◌, Text, text_eq,
  text_eq_sound, trim, is_empty, ◌≡◌, refl, sym, subst, ◌∙◌, inl, inr, All, Bool-cases,
  Option-cases, arith,
}
use instant_grant_core.Codes.{
  CodeRecord, CodeIndex, gen_confirmation_code, legacy_codes, is_among, Reservation, reserved,
  missing_fields, exhausted, max_attempts, legacy_scan_limit, take_keys, is_held_by, try_codes,
  reserve_unique_confirmation_code, ensure_confirmation_code_indexed,
  release_reserved_confirmation_code,
}

-- One operation on the codes.
pub data CodeOperation : Type 0 where
  reserving :
      (keys : List Text) (draws : ℕ → List ℕ) (event_id subject : Text) (now : ℕ) → CodeOperation
  ensuring : (event_id subject confirmation_code : Text) (now : ℕ) → CodeOperation
  releasing : (event_id subject confirmation_code : Text) → CodeOperation

-- Whether an operation releases a code on behalf of its holder.
abbrev pub is_release : Text → CodeRecord → CodeOperation → Bool
is_release code r (releasing event_id subject confirmation_code) =
    text_eq (trim confirmation_code) code && is_held_by (trim event_id) (trim subject) (some r)
is_release code r _ = false

module _ (rows : CodeIndex) where
  open rows use {Index, get, put, delete, get-put, get-delete}

  -- What a finished search for a code has found and written.
  abbrev pub IsGranted : List Text → Text → Text → ℕ → Index → Index × Reservation → Type 0
  IsGranted old event_id subject now i (i', reserved code) =
      (get i code ≡ none)
      × (is_among code old ≡ false)
      × (i'
          ≡ put i code
              (record { code = code; event_id = event_id; subject = subject; issued_at = now }))
  IsGranted old event_id subject now i (i', missing_fields) = i' ≡ i
  IsGranted old event_id subject now i (i', exhausted) = i' ≡ i

  try_codes-IsGranted :
      (old : List Text) (draws : ℕ → List ℕ) (event_id subject : Text) (now left attempt : ℕ)
      (i : Index)
      → IsGranted old event_id subject now i
          (try_codes rows old draws event_id subject now left attempt i)
  unfolding try_codes
  try_codes-IsGranted old draws event_id subject now zero attempt i = refl
  try_codes-IsGranted old draws event_id subject now (suc left) attempt i =
      let code = gen_confirmation_code (draws attempt) in
      let rest = try_codes-IsGranted old draws event_id subject now left (attempt + 1) i in
      elim (Bool-cases (is_among code old)) [
        | inl taken ↦ rw taken rest
        | inr new ↦ elim (Option-cases (get i code)) [
          | inl free ↦ rw (new, free) (free, new, refl)
          | inr (r, found) ↦ rw (new, found) rest
        ]
      ]

  -- Reserving a code: a code that is given was in no row and on none of the old receipts under the
  -- first 20000 receipt keys, the only ones that are listed, and the one thing that changes is its
  -- new row, for the event and the subject. Without a code nothing changes.
  pub reserve_unique_confirmation_code-IsGranted :
      (keys : List Text) (draws : ℕ → List ℕ) (event_id subject : Text) (now : ℕ) (i : Index)
      → IsGranted
          (legacy_codes (take_keys legacy_scan_limit keys))
          (trim event_id)
          (trim subject)
          now
          i
          (reserve_unique_confirmation_code rows keys draws event_id subject now i)
  unfolding reserve_unique_confirmation_code
  reserve_unique_confirmation_code-IsGranted keys draws event_id subject now i =
      elim (Bool-cases (is_empty (trim event_id) || is_empty (trim subject))) [
        | inl missing ↦ rw missing refl
        | inr given ↦ rw given (
            try_codes-IsGranted (legacy_codes (take_keys legacy_scan_limit keys)) draws
              (trim event_id) (trim subject) now max_attempts 0 i)
      ]

  -- What an operation leaves behind and the codes that it gives.
  abbrev pub given_by : Reservation → List Text
  given_by (reserved code) = code ∷ []
  given_by missing_fields = []
  given_by exhausted = []

  abbrev pub operate : CodeOperation → Index → Index × List Text
  operate (reserving keys draws event_id subject now) i =
      let r = reserve_unique_confirmation_code rows keys draws event_id subject now i in
      (r.0, given_by r.1)
  operate (ensuring event_id subject code now) i =
      (ensure_confirmation_code_indexed rows event_id subject code now i, [])
  operate (releasing event_id subject code) i =
      (release_reserved_confirmation_code rows event_id subject code i, [])

  -- A row stays when a code that has none gets one.
  put-held :
      (i : Index) (c : Text) (r : CodeRecord) (code : Text) (holder : CodeRecord)
      → get i c ≡ none
      → get i code ≡ some holder
      → get (put i c r) code ≡ some holder
  put-held i c r code holder free held = elim (Bool-cases (text_eq c code)) [
    | inl same ↦
        let free' : get i code ≡ none =
          subst (λ x. get i x ≡ none) (text_eq_sound c code same) free in
        cc
    | inr other ↦ get-put i c r code ∙ (rw other held)
  ]

  delete-held :
      (i : Index) (c code : Text) (holder : CodeRecord)
      → text_eq c code ≡ false
      → get i code ≡ some holder
      → get (delete i c) code ≡ some holder
  delete-held i c code holder other held = get-delete i c code ∙ (rw other held)

  -- What a subject may release is not a code of another holder.
  other_code :
      (i : Index) (c code : Text) (holder : CodeRecord) (event_id subject : Text)
      → get i code ≡ some holder
      → is_held_by event_id subject (get i c) ≡ true
      → (text_eq c code && is_held_by event_id subject (some holder)) ≡ false
      → text_eq c code ≡ false
  other_code i c code holder event_id subject held theirs other =
      elim (Bool-cases (text_eq c code)) [
        | inl same ↦
            let e : c ≡ code = text_eq_sound c code same in
            let held' : get i c ≡ some holder = subst (λ x. get i x ≡ some holder) (sym e) held in
            let mine : is_held_by event_id subject (some holder) ≡ true = rw held' at theirs in
            ground arith
        | inr different ↦ different
      ]

  granted-kept :
      (old : List Text) (event_id subject : Text) (now : ℕ) (i : Index) (r : Index × Reservation)
      (code : Text) (holder : CodeRecord)
      → IsGranted old event_id subject now i r
      → get i code ≡ some holder
      → (get r.0 code ≡ some holder) × (is_among code (given_by r.1) ≡ false)
  granted-kept old event_id subject now i (i', reserved c) code holder (free, new, wrote) held =
      let r : CodeRecord = record {
        code = c;
        event_id = event_id;
        subject = subject;
        issued_at = now;
      } in
      let different : text_eq c code ≡ false = elim (Bool-cases (text_eq c code)) [
        | inl same ↦
            let free' : get i code ≡ none =
              subst (λ x. get i x ≡ none) (text_eq_sound c code same) free in
            cc
        | inr other ↦ other
      ] in
      (rw wrote (put-held i c r code holder free held), rw different refl)
  granted-kept old event_id subject now i (i', missing_fields) code holder same held =
      (rw same held, refl)
  granted-kept old event_id subject now i (i', exhausted) code holder same held =
      (rw same held, refl)

  ensured-kept :
      (event_id subject confirmation_code : Text) (now : ℕ) (i : Index) (code : Text)
      (holder : CodeRecord)
      → get i code ≡ some holder
      → get (ensure_confirmation_code_indexed rows event_id subject confirmation_code now i) code
        ≡ some holder
  unfolding ensure_confirmation_code_indexed
  ensured-kept event_id subject confirmation_code now i code holder held =
      let c = trim confirmation_code in
      elim (Bool-cases (is_empty c || is_empty (trim event_id) || is_empty (trim subject))) [
        | inl missing ↦ rw missing held
        | inr present ↦ elim (Option-cases (get i c)) [
          | inl free ↦
              let r : CodeRecord = record {
                code = c;
                event_id = trim event_id;
                subject = trim subject;
                issued_at = now;
              } in
              rw (present, free) (put-held i c r code holder free held)
          | inr (r, found) ↦ rw (present, found) held
        ]
      ]

  released-kept :
      (event_id subject confirmation_code : Text) (i : Index) (code : Text) (holder : CodeRecord)
      → get i code ≡ some holder
      → is_release code holder (releasing event_id subject confirmation_code) ≡ false
      → get (release_reserved_confirmation_code rows event_id subject confirmation_code i) code
        ≡ some holder
  unfolding release_reserved_confirmation_code
  released-kept event_id subject confirmation_code i code holder held other =
      let c = trim confirmation_code in
      elim (Bool-cases (is_empty c || is_empty (trim event_id) || is_empty (trim subject))) [
        | inl missing ↦ rw missing held
        | inr present ↦ elim (Bool-cases (is_held_by (trim event_id) (trim subject) (get i c))) [
          | inl theirs ↦
              rw (present, theirs)
                (delete-held i c code holder
                  (other_code i c code holder (trim event_id) (trim subject) held theirs other)
                  held)
          | inr not_theirs ↦ rw (present, not_theirs) held
        ]
      ]

  operate-kept :
      (o : CodeOperation) (i : Index) (code : Text) (holder : CodeRecord)
      → get i code ≡ some holder
      → is_release code holder o ≡ false
      → (get (operate o i).0 code ≡ some holder) × (is_among code (operate o i).1 ≡ false)
  operate-kept (reserving keys draws event_id subject now) i code holder held other =
      granted-kept (legacy_codes (take_keys legacy_scan_limit keys)) (trim event_id) (trim subject)
        now i _ code holder
        (reserve_unique_confirmation_code-IsGranted keys draws event_id subject now i) held
  operate-kept (ensuring event_id subject confirmation_code now) i code holder held other =
      (ensured-kept event_id subject confirmation_code now i code holder held, refl)
  operate-kept (releasing event_id subject confirmation_code) i code holder held other =
      (released-kept event_id subject confirmation_code i code holder held other, refl)

  -- The operations one after another: what is left, and the codes that were given on the way.
  abbrev pub operate_all : List CodeOperation → Index → Index × List Text
  operate_all [] i = (i, [])
  operate_all (o ∷ rest) i =
      let later = operate_all rest (operate o i).0 in (later.0, (operate o i).1 ++ later.1)

  is_among-append :
      (code : Text) (before after : List Text)
      → is_among code before ≡ false
      → is_among code after ≡ false
      → is_among code (before ++ after) ≡ false
  is_among-append code [] after h k = k
  is_among-append code (c ∷ before) after h k =
      let rest = is_among-append code before after in ground arith

  -- While nobody releases a code for its holder, whatever else is reserved, indexed or released in
  -- any order: the code's row stays as it is and the code is not given again.
  pub operate_all-kept :
      (operations : List CodeOperation) (i : Index) (code : Text) (holder : CodeRecord)
      → get i code ≡ some holder
      → All (λ o. is_release code holder o ≡ false) operations
      → (get (operate_all operations i).0 code ≡ some holder)
        × (is_among code (operate_all operations i).1 ≡ false)
  operate_all-kept [] i code holder held others = (held, refl)
  operate_all-kept (o ∷ rest) i code holder held others =
      let step = operate-kept o i code holder held others.0 in
      let later = operate_all-kept rest (operate o i).0 code holder step.0 others.1 in
      (later.0, is_among-append code (operate o i).1 _ step.1 later.1)
