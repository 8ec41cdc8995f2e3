-- ===== src/Claim/KeyLaws.antt =====
-- Claim keys are read back as the event and the subject that they were made of, and the normal form
-- of a subject is normal.
use instant_grant_core.Prelude.{
  ℕ, ◌≡◌, refl, inl, inr, Bool, true, false, ◌==◌, Option, none, some, [], ◌∷◌, ◌++◌, Text, trim,
  trim_start, trim_end, keep_before, is_space, is_empty, any, not, Bool-cases, arith,
}
use mathlib.Core.List.{append_assoc}
use instant_grant_core.Claim.Keys.{claim_key, collapse, normalize_subject, clean, raw_subject}
use instant_grant_core.Claim.Listing.{split_last, parse_claim_key}

abbrev pub has_colon : Text → Bool
has_colon s = any (λ c. c == b':') s

split_last-none : (s : Text) → has_colon s ≡ false → split_last s ≡ none
unfolding split_last
split_last-none [] h = refl
split_last-none (c ∷ s) h = ground (arith, split_last-none s)

split_last-key :
    (event_id subject : Text)
    → has_colon subject ≡ false
    → split_last (event_id ++ (b':' ∷ subject)) ≡ some (event_id, subject)
unfolding split_last
split_last-key [] subject h = rw (split_last-none subject h)
split_last-key (c ∷ event_id) subject h = rw (split_last-key event_id subject h)

-- The key of an event and a subject, neither empty, is read back as that event and that subject
-- whenever the subject has no colon. The event may have some.
pub parse_claim_key-claim_key :
    (event_id subject : Text)
    → is_empty event_id ≡ false
    → is_empty subject ≡ false
    → has_colon subject ≡ false
    → parse_claim_key (claim_key event_id subject) ≡ some (event_id, subject)
unfolding claim_key parse_claim_key
parse_claim_key-claim_key event_id subject e s h = rw (split_last-key event_id subject h, e, s)

is_empty-append : (s t : Text) → is_empty s ≡ false → is_empty (s ++ t) ≡ false
is_empty-append [] t h = cc
is_empty-append (c ∷ s) t h = refl

-- A subject with a colon is not read back. For an event id that is not empty: where something stands
-- behind the subject's last colon, what stands before that colon goes to the event and what stands
-- behind it is the subject; a subject that ends with a colon is not read at all.
pub parse_claim_key-colon :
    (event_id before after : Text)
    → is_empty event_id ≡ false
    → is_empty after ≡ false
    → has_colon after ≡ false
    → (parse_claim_key (claim_key event_id (before ++ (b':' ∷ after)))
        ≡ some (event_id ++ (b':' ∷ before), after))
      × (parse_claim_key (claim_key event_id (before ++ (b':' ∷ []))) ≡ none)
unfolding claim_key parse_claim_key
parse_claim_key-colon event_id before after e a h =
    let found = split_last-key (event_id ++ (b':' ∷ before)) after h in
    let at_end = split_last-key (event_id ++ (b':' ∷ before)) [] refl in
    let kept = is_empty-append event_id (b':' ∷ before) e in
    (rw (rw append_assoc at found, kept, a), rw (rw append_assoc at at_end, kept))

-- White space at neither end.
abbrev solid_start : Text → Bool
solid_start [] = true
solid_start (c ∷ s) = not (is_space c)

abbrev solid_end : Text → Bool
solid_end [] = true
solid_end (c ∷ []) = not (is_space c)
solid_end (c ∷ d ∷ s) = solid_end (d ∷ s)

trim_start-solid : (s : Text) → solid_start s ≡ true → trim_start s ≡ s
unfolding trim_start
trim_start-solid [] h = refl
trim_start-solid (c ∷ s) h = ground arith

trim_end-solid : (s : Text) → solid_end s ≡ true → trim_end s ≡ s
unfolding trim_end keep_before
trim_end-solid [] h = refl
trim_end-solid (c ∷ []) h = ground arith
trim_end-solid (c ∷ d ∷ s) h = ground (arith, trim_end-solid (d ∷ s) h)

solid_start-trim_start : (s : Text) → solid_start (trim_start s) ≡ true
unfolding trim_start
solid_start-trim_start [] = refl
solid_start-trim_start (c ∷ s) = ground (arith, solid_start-trim_start s)

solid_end-keep_before : (c : ℕ) (t : Text) → solid_end t ≡ true → solid_end (keep_before c t) ≡ true
unfolding keep_before
solid_end-keep_before c [] h = ground arith
solid_end-keep_before c (d ∷ t) h = h

solid_end-trim_end : (s : Text) → solid_end (trim_end s) ≡ true
unfolding trim_end
solid_end-trim_end [] = refl
solid_end-trim_end (c ∷ s) = solid_end-keep_before c (trim_end s) (solid_end-trim_end s)

solid_start-trim_end : (s : Text) → solid_start s ≡ true → solid_start (trim_end s) ≡ true
unfolding trim_end keep_before
solid_start-trim_end [] h = refl
solid_start-trim_end (c ∷ s) h = ground arith

solid_start-collapse : (s : Text) → solid_start s ≡ true → solid_start (collapse false s) ≡ true
unfolding collapse
solid_start-collapse [] h = refl
solid_start-collapse (c ∷ s) h = ground arith

collapse-nonempty :
    (after : Bool) (c : ℕ) (s : Text)
    → solid_end (c ∷ s) ≡ true
    → is_empty (collapse after (c ∷ s)) ≡ false
unfolding collapse
collapse-nonempty after c [] h = ground arith
collapse-nonempty after c (d ∷ s) h = ground (arith, collapse-nonempty (is_space c) d s h)

solid_end-cons :
    (c : ℕ) (s : Text) → is_empty s ≡ false → solid_end s ≡ true → solid_end (c ∷ s) ≡ true
solid_end-cons c [] e h = cc
solid_end-cons c (d ∷ s) e h = h

solid_end-collapse :
    (after : Bool) (s : Text) → solid_end s ≡ true → solid_end (collapse after s) ≡ true
unfolding collapse
solid_end-collapse after [] h = refl
solid_end-collapse after (c ∷ []) h = ground arith
solid_end-collapse after (c ∷ d ∷ s) h =
    let rest = collapse (is_space c) (d ∷ s) in
    let some_left = collapse-nonempty (is_space c) d s h in
    let solid = solid_end-collapse (is_space c) (d ∷ s) h in
    ground (arith, solid_end-cons c rest some_left solid, solid_end-cons 32 rest some_left solid)

blank_space : is_space 32 ≡ true
unfolding is_space
blank_space = refl

collapse_idem : (after : Bool) (s : Text) → collapse after (collapse after s) ≡ collapse after s
unfolding collapse
collapse_idem after [] = refl
collapse_idem after (c ∷ s) = elim (Bool-cases (is_space c)) [
  | inl blank ↦ elim (Bool-cases after) [
    | inl again ↦ rw (blank, again) (collapse_idem true s)
    | inr first ↦ rw (blank, first, blank_space, collapse_idem true s)
  ]
  | inr solid ↦ rw (solid, solid, collapse_idem false s)
]

pub trim-solid : (s : Text) → solid_start s ≡ true → solid_end s ≡ true → trim s ≡ s
unfolding trim
trim-solid s a b = rw (trim_start-solid s a) (trim_end-solid s b)

pub solid_start-trim : (s : Text) → solid_start (trim s) ≡ true
unfolding trim
solid_start-trim s = solid_start-trim_end (trim_start s) (solid_start-trim_start s)

pub solid_end-trim : (s : Text) → solid_end (trim s) ≡ true
unfolding trim
solid_end-trim s = solid_end-trim_end (trim_start s)

collapse-still_nonempty :
    (s : Text) → solid_end s ≡ true → is_empty s ≡ false → is_empty (collapse false s) ≡ false
collapse-still_nonempty [] h e = cc
collapse-still_nonempty (c ∷ s) h e = collapse-nonempty false c s h

-- The normal form of a text without white space at its ends.
clean_idem :
    (u subject : Text)
    → solid_start u ≡ true
    → solid_end u ≡ true
    → clean u ≡ some subject
    → clean (trim subject) ≡ some subject
clean_idem u subject a b h = elim (Bool-cases (is_empty u)) [
  | inl nothing ↦ let absent : none ≡ some subject = rw nothing at h in cc
  | inr something ↦
      let whole =
        trim-solid (collapse false u) (solid_start-collapse u a) (solid_end-collapse false u b) in
      let same : collapse false u ≡ subject = ground (arith, whole) in
      rw (← same, whole, collapse-still_nonempty u b something, collapse_idem false u, whole)
]

-- Normalising is idempotent: a subject in normal form, given as the wallet address or as the join
-- token, is its own normal form.
pub normalize_subject_idem :
    (wallet token : Option Text) (subject : Text)
    → normalize_subject wallet token ≡ some subject
    → (normalize_subject (some subject) none ≡ some subject)
      × (normalize_subject none (some subject) ≡ some subject)
unfolding normalize_subject
normalize_subject_idem wallet token subject h =
    let raw = raw_subject wallet token in
    let again = clean_idem (trim raw) subject (solid_start-trim raw) (solid_end-trim raw) h in
    (again, again)

pub trim_idem : (s : Text) → trim (trim s) ≡ trim s
trim_idem s = trim-solid (trim s) (solid_start-trim s) (solid_end-trim s)
