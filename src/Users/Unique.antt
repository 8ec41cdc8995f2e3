-- ===== src/Users/Unique.antt =====
-- No id is given twice.
use instant_grant_core.Prelude.{
  Bool, true, false, Option, none, some, List, [], ◌∷◌, Text, text_eq, text_eq_sound, trim,
  is_empty, ◌≡◌, refl, subst, inl, inr, Bool-cases, Option-cases,
}
use instant_grant_core.Audit.Canonical.{Platform}
use instant_grant_core.Users.{
  UserIdIndexRecord, UserRecord, UserRows, Registration, Registered, registered, user_key,
  unless_indexed, register_user_with_unique_id, register_all,
}

-- Whether an answer gives an id.
abbrev pub is_registered : Registered → Bool
is_registered (registered user_id_hash chain_hash prev_chain_hash) = true
is_registered _ = false

-- No answer gives the id.
abbrev pub NotAgain : Text → List Registration → List Registered → Type 0
NotAgain user_id (q ∷ qs) (r ∷ rs) =
    (text_eq (trim q.user_id) user_id ≡ true → is_registered r ≡ false) × NotAgain user_id qs rs
NotAgain user_id _ _ = Unit

differs_from :
    (user_id other : Text) (rows : UserRows) (u : UserRecord)
    → rows.users (user_key user_id) ≡ none
    → rows.users (user_key other) ≡ some u
    → text_eq user_id other ≡ false
differs_from user_id other rows u free there = elim (Bool-cases (text_eq user_id other)) [
  | inr differs ↦ differs
  | inl same ↦
      let gone : rows.users (user_key other) ≡ none =
        subst (λ t. rows.users (user_key t) ≡ none) (text_eq_sound user_id other same) free in
      absurd (cc (rw gone at there))
]

module _ (platform : Platform) where
  unless_indexed-kept :
      (q : Registration) (user_id : Text) (rows : UserRows) (o : Option UserIdIndexRecord)
      (other : Text) (u : UserRecord)
      → text_eq user_id other ≡ false
      → rows.users (user_key other) ≡ some u
      → (unless_indexed platform q user_id rows o).0.users (user_key other) ≡ some u
  unless_indexed-kept q user_id rows (some r) other u differs there = there
  unless_indexed-kept q user_id rows none other u differs there = rw differs there

  -- A registration leaves the users that there are, and refuses their ids.
  register-kept :
      (q : Registration) (rows : UserRows) (other : Text) (u : UserRecord)
      → rows.users (user_key other) ≡ some u
      → ((register_user_with_unique_id platform q rows).0.users (user_key other) ≡ some u)
        × (text_eq (trim q.user_id) other ≡ true
            → is_registered (register_user_with_unique_id platform q rows).1 ≡ false)
  unfolding register_user_with_unique_id
  register-kept q rows other u there =
      let user_id = trim q.user_id in
      elim (Bool-cases (is_empty user_id)) [
        | inl missing ↦ rw missing (there, λ same. refl)
        | inr given ↦ elim (Option-cases (rows.users (user_key user_id))) [
          | inr (known, found) ↦ rw (given, found) (there, λ same. refl)
          | inl free ↦
              let differs : text_eq user_id other ≡ false =
                differs_from user_id other rows u free there in
              rw (given, free)
                (
                  unless_indexed-kept q user_id rows _ other u differs there,
                  λ same. absurd (cc (rw differs at same)),
                )
        ]
      ]

  -- An id that is taken stays its user's. Whatever registrations follow, the user's row stays as it
  -- is, and none of those for the id, with or without spaces around it, gets an id.
  pub register_all-NotAgain :
      (qs : List Registration) (rows : UserRows) (user_id : Text) (u : UserRecord)
      → rows.users (user_key user_id) ≡ some u
      → ((register_all platform qs rows).0.users (user_key user_id) ≡ some u)
        × NotAgain user_id qs (register_all platform qs rows).1
  register_all-NotAgain [] rows user_id u there = (there, tt)
  register_all-NotAgain (q ∷ qs) rows user_id u there =
      let (kept, refused) = register-kept q rows user_id u there in
      let (last, later) =
        register_all-NotAgain qs (register_user_with_unique_id platform q rows).0 user_id u kept in
      (last, (refused, later))
