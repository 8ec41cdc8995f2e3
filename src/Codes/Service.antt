-- ===== src/Codes/Service.antt =====
-- When a reservation succeeds, and what a release does.
use instant_grant_core.Prelude.{
  ℕ, zero, suc, ◌+◌, ◌≤◌, ◌<◌, leb, false, ◌||◌, none, List, Text, text_eq_refl, trim, is_empty,
  if◌then◌else◌, ◌≡◌, refl, subst, ◌∙◌, inl, inr, Bool-cases, Option-cases, arith,
}
use instant_grant_core.Codes.{
  CodeIndex, gen_confirmation_code, legacy_codes, is_among, reserved, max_attempts,
  legacy_scan_limit, take_keys, is_held_by, try_codes, reserve_unique_confirmation_code,
  release_reserved_confirmation_code, confirmation_code_belongs_to_subject,
}

module _ (rows : CodeIndex) where
  open rows use {Index, get, put, delete, get-put, get-delete}

  -- An attempt of a number whose code has no row and is on no old receipt.
  abbrev pub IsFree : List Text → (ℕ → List ℕ) → Index → ℕ → Type 0
  IsFree old draws i attempt =
      (get i (gen_confirmation_code (draws attempt)) ≡ none)
      × (is_among (gen_confirmation_code (draws attempt)) old ≡ false)

  -- A later attempt is free where this one is not.
  later_attempt :
      (old : List Text) (draws : ℕ → List ℕ) (attempt n : ℕ) (i : Index)
      → attempt ≤ n
      → IsFree old draws i n
      → (IsFree old draws i attempt → ⊥)
      → attempt + 1 ≤ n
  later_attempt old draws attempt n i from_here free taken =
      elim (Bool-cases (leb (attempt + 1) n)) [
        | inl later ↦ ground arith
        | inr now ↦
            let here : n ≡ attempt = ground arith in
            absurd (taken (subst (λ m. IsFree old draws i m) here free))
      ]

  try_codes-reserved :
      (old : List Text) (draws : ℕ → List ℕ) (event_id subject : Text) (now left attempt n : ℕ)
      (i : Index)
      → attempt ≤ n
      → n < attempt + left
      → IsFree old draws i n
      → (code : Text) × ((try_codes rows old draws event_id subject now left attempt i).1
          ≡ reserved code)
  unfolding try_codes
  try_codes-reserved old draws event_id subject now zero attempt n i from_here before free =
      absurd (omega arith)
  try_codes-reserved old draws event_id subject now (suc left) attempt n i from_here before free =
      let code = gen_confirmation_code (draws attempt) in
      let rest : attempt + 1 ≤ n → _ = λ later.
        try_codes-reserved old draws event_id subject now left (attempt + 1) n i later (omega arith)
          free in
      elim (Bool-cases (is_among code old)) [
        | inl taken ↦
            rw taken
              (rest (later_attempt old draws attempt n i from_here free (λ f. let new = f.1 in cc)))
        | inr new ↦ elim (Option-cases (get i code)) [
          | inl nobody ↦ rw (new, nobody) (code, refl)
          | inr (r, found) ↦
              rw (new, found)
                (rest (
                  later_attempt old draws attempt n i from_here free
                    (λ f. let none_there = f.0 in cc)))
        ]
      ]

  -- A reservation for an event and a subject succeeds if one of its 128 attempts draws a code that
  -- has no row and is on no old receipt.
  pub reserve_unique_confirmation_code-reserved :
      (keys : List Text) (draws : ℕ → List ℕ) (event_id subject : Text) (now n : ℕ) (i : Index)
      → is_empty (trim event_id) ≡ false
      → is_empty (trim subject) ≡ false
      → n < 128
      → get i (gen_confirmation_code (draws n)) ≡ none
      → is_among (gen_confirmation_code (draws n)) (legacy_codes (take_keys legacy_scan_limit keys))
        ≡ false
      → (code : Text) × ((reserve_unique_confirmation_code rows keys draws event_id subject now i).1
          ≡ reserved code)
  unfolding reserve_unique_confirmation_code
  reserve_unique_confirmation_code-reserved keys draws event_id subject now n i event_given
        subject_given near free new =
      rw (event_given, subject_given)
        (try_codes-reserved (legacy_codes (take_keys legacy_scan_limit keys)) draws (trim event_id)
          (trim subject) now max_attempts 0 n i (omega arith) near (free, new))

  -- The holder of a code may release it: its row is gone. Anybody else's release leaves it.
  pub get-release_reserved_confirmation_code :
      (i : Index) (event_id subject confirmation_code : Text)
      → get
          (release_reserved_confirmation_code rows event_id subject confirmation_code i)
          (trim confirmation_code)
        ≡ (if confirmation_code_belongs_to_subject rows event_id subject confirmation_code i
            then none
            else get i (trim confirmation_code))
  unfolding release_reserved_confirmation_code confirmation_code_belongs_to_subject
  get-release_reserved_confirmation_code i event_id subject confirmation_code =
      let c = trim confirmation_code in
      elim (Bool-cases (is_empty c || is_empty (trim event_id) || is_empty (trim subject))) [
        | inl missing ↦ rw missing refl
        | inr present ↦ elim (Bool-cases (is_held_by (trim event_id) (trim subject) (get i c))) [
          | inl mine ↦ rw (present, mine) (get-delete i c c ∙ (rw (text_eq_refl c) refl))
          | inr not_mine ↦ rw (present, not_mine) refl
        ]
      ]
