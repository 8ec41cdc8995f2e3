-- ===== src/Access/Laws.antt =====
-- The master's guard and the login agree with the authentication of tokens, and a revoked code stays
-- out.
use instant_grant_core.Prelude.{
  Bool, true, false, ◌&&◌, Option, none, some, ◌++◌, Text, codes, text_eq, trim, is_empty, is_space,
  ◌≡◌, refl, arith, inl, inr, Bool-cases, Option-cases,
}
use instant_grant_core.Js.{string, object, end, field}
use instant_grant_core.Invites.Proposal.{Role, admin, Source}
use instant_grant_core.Invites.Operators.{OperatorIdentity}
use instant_grant_core.Invites.Decide.{AdminCodeRecord}
use instant_grant_core.Access.{
  AccessEnv, default_admin_password, trimmed, is_default_master_password_configured,
  get_configured_master_password, get_configured_demo_password, extract_bearer_token,
  parse_admin_code_record, CodeRows, get_code, is_password, invited, unless_revoked,
  authenticate_token, authenticate_operator, AuthError, master_token, require_master_authorization,
  LoginAnswer, ok, login, login_with, login_with_code,
}

abbrev pub is_granted : Option AuthError → Bool
is_granted none = true
is_granted (some e) = false

abbrev is_role_master : Role → Bool
is_role_master Role.master = true
is_role_master admin = false

abbrev pub is_master : Option OperatorIdentity → Bool
is_master none = false
is_master (some op) = is_role_master op.role

unless_revoked-not_master :
    (at : Option Text) (r : AdminCodeRecord) → is_master (unless_revoked at r) ≡ false
unless_revoked-not_master none r = refl
unless_revoked-not_master (some at) r = refl

invited-not_master : (o : Option AdminCodeRecord) → is_master (invited o) ≡ false
invited-not_master none = refl
invited-not_master (some r) = unless_revoked-not_master r.revoked_at r

others-not_master :
    (env : AccessEnv) (rows : CodeRows) (token : Option Text)
    → get_configured_master_password env ≡ none
    → is_master (authenticate_token env rows token) ≡ false
others-not_master env rows none unset = refl
others-not_master env rows (some token) unset =
    rw unset (elim (Bool-cases (is_password (get_configured_demo_password env) token)) [
      | inl demo ↦ rw demo refl
      | inr other ↦
          rw other (invited-not_master (parse_admin_code_record token (get_code token rows)))
    ])

password-is_master :
    (env : AccessEnv) (rows : CodeRows) (token : Option Text) (password : Text)
    → get_configured_master_password env ≡ some password
    → is_granted (master_token (get_configured_master_password env) token)
      ≡ is_master (authenticate_token env rows token)
password-is_master env rows none password set = rw set refl
password-is_master env rows (some token) password set =
    rw set (elim (Bool-cases (text_eq token password)) [
      | inl equal ↦ rw equal refl
      | inr other ↦
          rw other (elim (Bool-cases (is_password (get_configured_demo_password env) token)) [
            | inl demo ↦ rw demo refl
            | inr no_demo ↦
                rw
                  (
                    no_demo,
                    invited-not_master (parse_admin_code_record token (get_code token rows)),
                  )
                  refl
          ])
    ])

master_token-is_master :
    (env : AccessEnv) (rows : CodeRows) (token : Option Text)
    → is_granted (master_token (get_configured_master_password env) token)
      ≡ is_master (authenticate_token env rows token)
master_token-is_master env rows token = elim (Option-cases (get_configured_master_password env)) [
  | inl unset ↦ rw (unset, others-not_master env rows token unset) refl
  | inr (password, set) ↦ password-is_master env rows token password set
]

placeholder-unset :
    (env : AccessEnv)
    → is_default_master_password_configured env ≡ true
    → get_configured_master_password env ≡ none
unfolding is_default_master_password_configured get_configured_master_password
placeholder-unset env placeholder = rw placeholder refl

placeholder-refused :
    (env : AccessEnv) (header : Option Text)
    → (is_granted (require_master_authorization env header)
        && text_eq (trimmed env.admin_password) default_admin_password)
      ≡ false
unfolding require_master_authorization is_default_master_password_configured
placeholder-refused env header =
    elim (Bool-cases (text_eq (trimmed env.admin_password) default_admin_password)) [
      | inl placeholder ↦ rw placeholder refl
      | inr own ↦ rw own (ground arith)
    ]

guard-authenticate :
    (env : AccessEnv) (rows : CodeRows) (header : Option Text)
    → is_granted (require_master_authorization env header)
      ≡ is_master (authenticate_operator env rows header)
unfolding require_master_authorization authenticate_operator
guard-authenticate env rows header = elim (Bool-cases (is_default_master_password_configured env)) [
  | inl placeholder ↦
      rw
        (
          placeholder,
          others-not_master env rows (extract_bearer_token header)
              (placeholder-unset env placeholder),
        )
        refl
  | inr own ↦ rw own (master_token-is_master env rows (extract_bearer_token header))
]

-- The guard of the master's requests lets through the requests that authenticate as the master, and
-- no other, whatever the passwords and the codes are. Where the configured password, trimmed, is the
-- placeholder, it lets through none.
pub require_master_authorization-authenticate :
    (env : AccessEnv) (rows : CodeRows) (header : Option Text)
    → (is_granted (require_master_authorization env header)
        ≡ is_master (authenticate_operator env rows header))
      × ((is_granted (require_master_authorization env header)
            && text_eq (trimmed env.admin_password) default_admin_password)
          ≡ false)
require_master_authorization-authenticate env rows header =
    (guard-authenticate env rows header, placeholder-refused env header)

-- What a login shows of an operator.
abbrev pub Shown : Type 0
Shown = Option (Role × Source × Text × Text)

abbrev pub signed_in : LoginAnswer → Shown
signed_in (ok role admin_id name source created_at) = some (role, source, admin_id, name)
signed_in _ = none

abbrev pub shown : Option OperatorIdentity → Shown
shown none = none
shown (some op) = some (op.role, op.source, op.admin_id, op.name)

login_with_code-invited :
    (o : Option AdminCodeRecord) → signed_in (login_with_code o) ≡ shown (invited o)
login_with_code-invited none = refl
login_with_code-invited (some r) = elim (Option-cases r.revoked_at) [
  | inl active ↦ rw active refl
  | inr (at, is_revoked) ↦ rw is_revoked refl
]

login_with-authenticate :
    (env : AccessEnv) (rows : CodeRows) (p : Text)
    → (is_default_master_password_configured env && text_eq p default_admin_password) ≡ false
    → signed_in (login_with env rows p) ≡ shown (authenticate_token env rows (some p))
login_with-authenticate env rows p secure =
    rw secure (elim (Bool-cases (is_password (get_configured_master_password env) p)) [
      | inl master ↦ rw master refl
      | inr no_master ↦
          rw no_master (elim (Bool-cases (is_password (get_configured_demo_password env) p)) [
            | inl demo ↦ rw demo refl
            | inr no_demo ↦
                rw no_demo (login_with_code-invited (parse_admin_code_record p (get_code p rows)))
          ])
    ])

extract_bearer_token-bearer :
    (p : Text)
    → is_empty (trim p) ≡ false
    → extract_bearer_token (some (codes "Bearer " ++ p)) ≡ some (trim p)
unfolding extract_bearer_token is_space
extract_bearer_token-bearer p some_text = rw some_text refl

-- A login and a bearer token give the same answer: a password without white space around it signs in
-- exactly where it authenticates as a token, with the same role, source, id and name. The password
-- is not empty and not the placeholder that is still configured.
pub login-authenticate :
    (env : AccessEnv) (rows : CodeRows) (p : Text)
    → trim p ≡ p
    → is_empty p ≡ false
    → (is_default_master_password_configured env && text_eq p default_admin_password) ≡ false
    → signed_in (login env rows (some (object (field (codes "password") (string p) end))))
      ≡ shown (authenticate_operator env rows (some (codes "Bearer " ++ p)))
unfolding login authenticate_operator
login-authenticate env rows p solid some_text secure =
    rw (extract_bearer_token-bearer p (rw (solid, some_text) refl), solid)
      (login_with-authenticate env rows p secure)
