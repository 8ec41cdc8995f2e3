-- ===== src/Access/Revoked.antt =====
-- A code that is revoked stays out.
use instant_grant_core.Prelude.{
  Bool, true, false, ◌||◌, length, ltb, Option, none, some, List, [], ◌∷◌, Text, codes, text_eq,
  text_eq_sound, text_eq_refl, trim, is_empty, ◌≡◌, ◌∙◌, refl, sym, ap, inl, inr, Bool-cases,
  Option-cases, subst,
}
use instant_grant_core.Js.{
  Value, undefined, null, boolean, number, array, string, object, Fields, get_field,
}
use instant_grant_core.Claim.KeyLaws.{trim_idem}
use instant_grant_core.Invites.Proposal.{text_or_empty, text_or_none}
use instant_grant_core.Invites.Decide.{AdminCodeRecord}
use instant_grant_core.Access.{
  AccessEnv, get_configured_master_password, get_configured_demo_password, extract_bearer_token,
  parse_admin_code_record, code_row_value, CodeRows, get_code, put_code, is_password, invited,
  authenticate_operator, AuthError, require_master_authorization, CodeAnswer, revoked, mark_revoked,
  revoke_found, revoke_code, revoke_body, revoke_admin_code, rename_found, if_allowed, body_field,
  rename_named, rename_body, rename_admin_code,
}

-- The two requests that change stored codes. Codes of new invites are random and fresh.
pub data CodeRequest : Type 0 where
  revoking : (header : Option Text) (body : Option Value) (now : Text) → CodeRequest
  renaming : (header : Option Text) (body : Option Value) → CodeRequest

abbrev pub handle : AccessEnv → CodeRequest → CodeRows → CodeRows × CodeAnswer
handle env (revoking header body now) rows = revoke_admin_code env header body now rows
handle env (renaming header body) rows = rename_admin_code env header body rows

abbrev pub handle_all : AccessEnv → List CodeRequest → CodeRows → CodeRows
handle_all env [] rows = rows
handle_all env (q ∷ qs) rows = handle_all env qs (handle env q rows).0

abbrev is_text : Option Text → Bool
is_text none = false
is_text (some s) = true

abbrev is_marked : Option AdminCodeRecord → Bool
is_marked none = false
is_marked (some r) = is_text r.revoked_at

abbrev is_revoked : Text → CodeRows → Bool
is_revoked c rows = is_marked (parse_admin_code_record c (get_code c rows))

get-put : (k : Text) (v : Value) (rows : CodeRows) → get_code k (put_code k v rows) ≡ v
get-put k v [] = rw (text_eq_refl k) refl
get-put k v ((j, w) ∷ rows) = elim (Bool-cases (text_eq j k)) [
  | inl here ↦ rw (here, here) refl
  | inr other ↦ rw (other, other) (get-put k v rows)
]

get-put_other :
    (c k : Text) (v : Value) (rows : CodeRows)
    → text_eq k c ≡ false
    → get_code c (put_code k v rows) ≡ get_code c rows
get-put_other c k v [] other = rw other refl
get-put_other c k v ((j, w) ∷ rows) other = elim (Bool-cases (text_eq j k)) [
  | inl here ↦ rw here (rw (text_eq_sound j k here, other) refl)
  | inr elsewhere ↦ rw (elsewhere, get-put_other c k v rows other) refl
]

-- A text that was read is not blank.
some_text-some_text : (t s : Text) → text_or_none (string t) ≡ some s → is_empty (trim s) ≡ false
some_text-some_text t s e = elim (Bool-cases (is_empty (trim t))) [
  | inl nothing ↦ absurd (cc (rw nothing at e))
  | inr something ↦
      let same : trim t ≡ s = cc (rw something at e) in rw (sym same, trim_idem t) something
]

text_or_none-again : (v : Value) (s : Text) → text_or_none v ≡ some s → is_empty (trim s) ≡ false
text_or_none-again undefined s e = cc
text_or_none-again null s e = cc
text_or_none-again (boolean b) s e = cc
text_or_none-again (number n) s e = cc
text_or_none-again (array xs) s e = cc
text_or_none-again (object o) s e = cc
text_or_none-again (string t) s e = some_text-some_text t s e

abbrev revoked_at_of : Option AdminCodeRecord → Option Text
revoked_at_of none = none
revoked_at_of (some r) = r.revoked_at

parsed-again :
    (c : Text) (v : Value) (r : AdminCodeRecord) (at : Text)
    → parse_admin_code_record c v ≡ some r
    → r.revoked_at ≡ some at
    → is_empty (trim at) ≡ false
unfolding parse_admin_code_record
parsed-again c undefined r at e given = cc
parsed-again c null r at e given = cc
parsed-again c (boolean b) r at e given = cc
parsed-again c (number n) r at e given = cc
parsed-again c (array xs) r at e given =
    text_or_none-again undefined at (ap revoked_at_of e ∙ given)
parsed-again c (string t) r at e given = cc
parsed-again c (object o) r at e given =
    text_or_none-again (get_field (codes "revokedAt") o) at (ap revoked_at_of e ∙ given)

written-is_marked :
    (c k s : Text) (r : AdminCodeRecord)
    → r.revoked_at ≡ some s
    → is_empty (trim s) ≡ false
    → is_marked (parse_admin_code_record c (code_row_value k r)) ≡ true
unfolding parse_admin_code_record
written-is_marked c k s r given some_text = rw (given, some_text) refl

put_other-kept :
    (c k : Text) (v : Value) (rows : CodeRows)
    → text_eq k c ≡ false
    → is_revoked c rows ≡ true
    → is_revoked c (put_code k v rows) ≡ true
put_other-kept c k v rows other h = rw (get-put_other c k v rows other) h

mark_revoked-kept :
    (c now k : Text) (r : AdminCodeRecord) (rows : CodeRows)
    → parse_admin_code_record k (get_code k rows) ≡ some r
    → is_revoked c rows ≡ true
    → is_revoked c (mark_revoked r.revoked_at now k r rows).0 ≡ true
mark_revoked-kept c now k r rows e h = elim (Option-cases r.revoked_at) [
  | inr (at, given) ↦ rw given h
  | inl active ↦ rw active (elim (Bool-cases (text_eq k c)) [
    | inr other ↦ put_other-kept c k _ rows other h
    | inl same ↦
        let key : k ≡ c = text_eq_sound k c same in
        let marked : is_marked (parse_admin_code_record k (get_code k rows)) ≡ true = rw key h in
        absurd (cc (rw (e, active) at marked))
  ])
]

revoke_code-kept :
    (c now k : Text) (rows : CodeRows)
    → is_revoked c rows ≡ true
    → is_revoked c (revoke_code now k rows).0 ≡ true
revoke_code-kept c now k rows h = elim (Bool-cases (is_empty k)) [
  | inl blank ↦ rw blank h
  | inr given ↦ rw given (elim (Option-cases (parse_admin_code_record k (get_code k rows))) [
    | inl missing ↦ rw missing h
    | inr (r, e) ↦ rw e (mark_revoked-kept c now k r rows e h)
  ])
]

if_allowed-kept :
    (o : Option AuthError) (c : Text) (rows : CodeRows) (done : CodeRows × CodeAnswer)
    → is_revoked c rows ≡ true
    → is_revoked c done.0 ≡ true
    → is_revoked c (if_allowed o rows done).0 ≡ true
if_allowed-kept none c rows done h after = after
if_allowed-kept (some e) c rows done h after = h

revoke_body-kept :
    (c now : Text) (rows : CodeRows) (body : Option Value)
    → is_revoked c rows ≡ true
    → is_revoked c (revoke_body now body rows).0 ≡ true
revoke_body-kept c now rows none h = h
revoke_body-kept c now rows (some body) h = revoke_code-kept c now _ rows h

revoke_admin_code-kept :
    (env : AccessEnv) (header : Option Text) (body : Option Value) (c now : Text) (rows : CodeRows)
    → is_revoked c rows ≡ true
    → is_revoked c (revoke_admin_code env header body now rows).0 ≡ true
unfolding revoke_admin_code
revoke_admin_code-kept env header body c now rows h =
    if_allowed-kept (require_master_authorization env header) c rows (revoke_body now body rows) h
      (revoke_body-kept c now rows body h)

rename_found-kept :
    (c name k : Text) (rows : CodeRows) (o : Option AdminCodeRecord)
    → parse_admin_code_record k (get_code k rows) ≡ o
    → is_revoked c rows ≡ true
    → is_revoked c (rename_found name k o rows).0 ≡ true
rename_found-kept c name k rows none e h = h
rename_found-kept c name k rows (some r) e h = elim (Bool-cases (text_eq k c)) [
  | inr other ↦ put_other-kept c k _ rows other h
  | inl same ↦
      let key : k ≡ c = text_eq_sound k c same in
      let marked : is_marked (parse_admin_code_record k (get_code k rows)) ≡ true = rw key h in
      elim (Option-cases r.revoked_at) [
        | inl active ↦ absurd (cc (rw (e, active) at marked))
        | inr (at, given) ↦
            rw (sym key, get-put k (code_row_value k (record r { name = name })) rows)
              (written-is_marked k k at (record r { name = name }) given
                (parsed-again k (get_code k rows) r at e given))
      ]
]

rename_named-kept :
    (c name : Text) (rows : CodeRows) (o : Option Text)
    → is_revoked c rows ≡ true
    → is_revoked c (rename_named name o rows).0 ≡ true
rename_named-kept c name rows none h = h
rename_named-kept c name rows (some k) h = rename_found-kept c name k rows _ refl h

rename_body-kept :
    (c : Text) (rows : CodeRows) (body : Option Value)
    → is_revoked c rows ≡ true
    → is_revoked c (rename_body body rows).0 ≡ true
rename_body-kept c rows none h = h
rename_body-kept c rows (some body) h =
    let name = text_or_empty (body_field (codes "name") body) in
    elim (Bool-cases (is_empty name || ltb 64 (length name))) [
      | inl bad ↦ rw bad h
      | inr good ↦ rw good (rename_named-kept c name rows _ h)
    ]

rename_admin_code-kept :
    (env : AccessEnv) (header : Option Text) (body : Option Value) (c : Text) (rows : CodeRows)
    → is_revoked c rows ≡ true
    → is_revoked c (rename_admin_code env header body rows).0 ≡ true
unfolding rename_admin_code
rename_admin_code-kept env header body c rows h =
    if_allowed-kept (require_master_authorization env header) c rows (rename_body body rows) h
      (rename_body-kept c rows body h)

handle_all-kept :
    (env : AccessEnv) (qs : List CodeRequest) (c : Text) (rows : CodeRows)
    → is_revoked c rows ≡ true
    → is_revoked c (handle_all env qs rows) ≡ true
handle_all-kept env [] c rows h = h
handle_all-kept env (revoking header body now ∷ qs) c rows h =
    handle_all-kept env qs c _ (revoke_admin_code-kept env header body c now rows h)
handle_all-kept env (renaming header body ∷ qs) c rows h =
    handle_all-kept env qs c _ (rename_admin_code-kept env header body c rows h)

mark_revoked-marks :
    (now k : Text) (r : AdminCodeRecord) (rows : CodeRows)
    → parse_admin_code_record k (get_code k rows) ≡ some r
    → is_empty (trim now) ≡ false
    → is_revoked k (mark_revoked r.revoked_at now k r rows).0 ≡ true
mark_revoked-marks now k r rows e some_now = elim (Option-cases r.revoked_at) [
  | inr (at, given) ↦ rw (given, e, given) refl
  | inl active ↦
      let marks = record r { revoked_at = some now; revoked_by = some (codes "master") } in
      rw (active, get-put k (code_row_value k marks) rows)
        (written-is_marked k k now marks refl some_now)
]

revoke_found-marks :
    (now k at : Text) (o : Option AdminCodeRecord) (rows : CodeRows)
    → parse_admin_code_record k (get_code k rows) ≡ o
    → is_empty (trim now) ≡ false
    → (revoke_found now k o rows).1 ≡ revoked at
    → is_revoked k (revoke_found now k o rows).0 ≡ true
revoke_found-marks now k at none rows e some_now answer = cc
revoke_found-marks now k at (some r) rows e some_now answer =
    mark_revoked-marks now k r rows e some_now

revoke_code-marks :
    (now k at : Text) (rows : CodeRows)
    → is_empty (trim now) ≡ false
    → (revoke_code now k rows).1 ≡ revoked at
    → is_revoked k (revoke_code now k rows).0 ≡ true
revoke_code-marks now k at rows some_now answer = elim (Bool-cases (is_empty k)) [
  | inl blank ↦ absurd (cc (rw blank at answer))
  | inr given ↦
      let found : (revoke_found now k (parse_admin_code_record k (get_code k rows)) rows).1
          ≡ revoked at =
        rw given at answer in
      rw given (revoke_found-marks now k at _ rows refl some_now found)
]

if_allowed-marks :
    (o : Option AuthError) (k at : Text) (rows : CodeRows) (done : CodeRows × CodeAnswer)
    → (if_allowed o rows done).1 ≡ revoked at
    → (done.1 ≡ revoked at → is_revoked k done.0 ≡ true)
    → is_revoked k (if_allowed o rows done).0 ≡ true
if_allowed-marks none k at rows done answer after = after answer
if_allowed-marks (some e) k at rows done answer after = cc

is_marked-out : (o : Option AdminCodeRecord) → is_marked o ≡ true → invited o ≡ none
is_marked-out none h = refl
is_marked-out (some r) h = elim (Option-cases r.revoked_at) [
  | inl active ↦ absurd (cc (rw active at h))
  | inr (at, given) ↦ rw given refl
]

-- A code that is revoked stays out: once a request to revoke a code has answered that it is revoked,
-- no bearer token that is the code authenticates any more, whatever codes are renamed or revoked
-- afterwards. The clock of the request is no blank text, and the code is no password.
pub revoke_admin_code-stays_out :
    (env : AccessEnv) (header : Option Text) (body : Fields) (code now at : Text) (rows : CodeRows)
    (qs : List CodeRequest) (token : Option Text)
    → get_field (codes "code") body ≡ string code
    → is_empty (trim now) ≡ false
    → (revoke_admin_code env header (some (object body)) now rows).1 ≡ revoked at
    → extract_bearer_token token ≡ some (trim code)
    → is_password (get_configured_master_password env) (trim code) ≡ false
    → is_password (get_configured_demo_password env) (trim code) ≡ false
    → authenticate_operator env
        (handle_all env qs (revoke_admin_code env header (some (object body)) now rows).0)
        token
      ≡ none
unfolding revoke_admin_code authenticate_operator
revoke_admin_code-stays_out env header body code now at rows qs token given some_now answer is_code
      no_master no_demo =
    let k : text_or_empty (get_field (codes "code") body) ≡ trim code = rw given refl in
    let marks : is_revoked (trim code)
          (revoke_admin_code env header (some (object body)) now rows).0
        ≡ true =
      if_allowed-marks (require_master_authorization env header) (trim code) at rows
        (revoke_body now (some (object body)) rows) answer
        (λ done.
          subst (λ c. is_revoked c (revoke_body now (some (object body)) rows).0 ≡ true) k
            (revoke_code-marks now (text_or_empty (get_field (codes "code") body)) at rows some_now
              done)) in
    rw (is_code, no_master, no_demo, is_marked-out _ (handle_all-kept env qs (trim code) _ marks))
      refl
