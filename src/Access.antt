-- ===== src/Access.antt =====
-- Who an operator is, and the codes that operators are invited with (api-worker/src/storeDO.ts,
-- getConfiguredMasterPassword to requireAdminAuthorization, extractBearerToken, parseAdminCodeRecord,
-- findAdminCodeByAdminId and the requests POST /api/admin/login, /rename and /revoke).
pub mod Laws
pub mod Revoked
mod Tests
use instant_grant_core.Prelude.{
  ℕ, zero, suc, Bool, false, ◌&&◌, ◌||◌, Option, none, some, List, [], ◌∷◌, ◌++◌, Text, codes,
  text_eq, trim, is_empty, is_space, length, ltb, if◌then◌else◌,
}
use instant_grant_core.Js.{
  Value, array, undefined, null, string, object, Fields, end, field, get_field,
}
use instant_grant_core.Limits.Env.{lower}
use instant_grant_core.Invites.Proposal.{
  Role, admin, Source, invite, demo, text_or_empty, text_or_none,
}
use instant_grant_core.Invites.Operators.{OperatorIdentity}
use instant_grant_core.Invites.Decide.{AdminCodeRecord}

pub record AccessEnv : Type 0 where
  pub admin_password : Option Text
  pub admin_demo_password : Option Text

abbrev pub default_admin_password : Text
default_admin_password = codes "change-this-in-dashboard"

abbrev pub trimmed : Option Text → Text
trimmed none = []
trimmed (some s) = trim s

abbrev pub non_empty : Text → Option Text
non_empty s = if is_empty s then none else some s

unfoldable pub is_default_master_password_configured : AccessEnv → Bool
is_default_master_password_configured env =
    text_eq (trimmed env.admin_password) default_admin_password

unfoldable pub get_configured_master_password : AccessEnv → Option Text
get_configured_master_password env =
    if text_eq (trimmed env.admin_password) default_admin_password
    then none
    else non_empty (trimmed env.admin_password)

unfoldable pub get_configured_demo_password : AccessEnv → Option Text
get_configured_demo_password env = non_empty (trimmed env.admin_demo_password)

abbrev after_word : Text → Option Text
after_word [] = none
after_word (c ∷ s) = if is_space c then non_empty (trim s) else none

-- The text behind a prefix, in whatever case of letters.
abbrev behind : Text → Text → Option Text
behind [] t = after_word t
behind (c ∷ s) [] = none
behind (c ∷ s) (d ∷ t) = if text_eq (c ∷ []) (lower d ∷ []) then behind s t else none

-- `Authorization: Bearer <token>`. A header has one line.
unfoldable pub extract_bearer_token : Option Text → Option Text
extract_bearer_token none = none
extract_bearer_token (some header) = behind (codes "bearer") header

abbrev take : ℕ → Text → Text
take zero s = []
take (suc n) [] = []
take (suc n) (c ∷ s) = c ∷ take n s

abbrev or_else : Text → Text → Text
or_else s t = if is_empty s then t else s

abbrev parsed_code : Text → Fields → AdminCodeRecord
parsed_code code o = record {
  admin_id =
      or_else (text_or_empty (get_field (codes "adminId") o)) (codes "legacy-" ++ take 12 code);
  name = or_else (text_or_empty (get_field (codes "name") o)) (codes "Unknown Admin");
  created_at =
      or_else (text_or_empty (get_field (codes "createdAt") o)) (codes "1970-01-01T00:00:00.000Z");
  revoked_at = text_or_none (get_field (codes "revokedAt") o);
  revoked_by = text_or_none (get_field (codes "revokedBy") o);
}

unfoldable pub parse_admin_code_record : Text → Value → Option AdminCodeRecord
parse_admin_code_record code (object o) = some (parsed_code code o)
parse_admin_code_record code (array xs) = some (parsed_code code end)
parse_admin_code_record code _ = none

abbrev text_or_null : Option Text → Value
text_or_null none = null
text_or_null (some s) = string s

-- A record as a request writes it, with the code that it was read under.
abbrev pub code_row_value : Text → AdminCodeRecord → Value
code_row_value code r = object (
    field (codes "code") (string code) (
      field (codes "adminId") (string r.admin_id) (
        field (codes "name") (string r.name) (
          field (codes "createdAt") (string r.created_at) (
            field (codes "source") (string (codes "invite")) (
              field (codes "revokedAt") (text_or_null r.revoked_at)
                (field (codes "revokedBy") (text_or_null r.revoked_by) end)))))))

-- The stored codes with their rows, in the order of a listing.
abbrev pub CodeRows : Type 0
CodeRows = List (Text × Value)

abbrev pub get_code : Text → CodeRows → Value
get_code k [] = undefined
get_code k ((j, v) ∷ rows) = let rest = get_code k rows in if text_eq j k then v else rest

abbrev pub put_code : Text → Value → CodeRows → CodeRows
put_code k v [] = (k, v) ∷ []
put_code k v ((j, w) ∷ rows) =
    let rest = put_code k v rows in if text_eq j k then (j, v) ∷ rows else (j, w) ∷ rest

abbrev has_admin_id : Text → Option AdminCodeRecord → Bool
has_admin_id needle none = false
has_admin_id needle (some r) = text_eq r.admin_id needle

abbrev first_with : Text → CodeRows → Option Text
first_with needle [] = none
first_with needle ((code, v) ∷ rows) =
    let rest = first_with needle rows in
    if has_admin_id needle (parse_admin_code_record code v) then some code else rest

unfoldable pub find_admin_code_by_admin_id : Text → CodeRows → Option Text
find_admin_code_by_admin_id admin_id rows =
    if is_empty (trim admin_id) then none else first_with (trim admin_id) rows

abbrev pub master_identity : OperatorIdentity
master_identity = record {
  role = Role.master;
  source = Source.master;
  admin_id = codes "master";
  name = codes "Master Operator";
  actor_id = codes "master";
}

abbrev demo_identity : OperatorIdentity
demo_identity = record {
  role = admin;
  source = demo;
  admin_id = codes "demo-admin";
  name = codes "Demo Admin";
  actor_id = codes "admin:demo-admin";
}

abbrev invited_identity : AdminCodeRecord → OperatorIdentity
invited_identity r = record {
  role = admin;
  source = invite;
  admin_id = r.admin_id;
  name = r.name;
  actor_id = codes "admin:" ++ r.admin_id;
}

abbrev pub is_password : Option Text → Text → Bool
is_password none token = false
is_password (some password) token = text_eq token password

abbrev pub unless_revoked : Option Text → AdminCodeRecord → Option OperatorIdentity
unless_revoked none r = some (invited_identity r)
unless_revoked (some at) r = none

abbrev pub invited : Option AdminCodeRecord → Option OperatorIdentity
invited none = none
invited (some r) = unless_revoked r.revoked_at r

abbrev pub authenticate_token : AccessEnv → CodeRows → Option Text → Option OperatorIdentity
authenticate_token env rows none = none
authenticate_token env rows (some token) =
    if is_password (get_configured_master_password env) token
    then some master_identity
    else (if is_password (get_configured_demo_password env) token
        then some demo_identity
        else invited (parse_admin_code_record token (get_code token rows)))

unfoldable pub authenticate_operator : AccessEnv → CodeRows → Option Text → Option OperatorIdentity
authenticate_operator env rows header = authenticate_token env rows (extract_bearer_token header)

pub data AuthError : Type 0 where
  insecure_admin_password server_config unauthorized : AuthError

abbrev pub master_token : Option Text → Option Text → Option AuthError
master_token none token = some server_config
master_token (some password) none = some unauthorized
master_token (some password) (some token) =
    if text_eq token password then none else some unauthorized

unfoldable pub require_master_authorization : AccessEnv → Option Text → Option AuthError
require_master_authorization env header =
    if is_default_master_password_configured env
    then some insecure_admin_password
    else master_token (get_configured_master_password env) (extract_bearer_token header)

abbrev unless_operator : Option OperatorIdentity → Option AuthError
unless_operator none = some unauthorized
unless_operator (some op) = none

unfoldable pub require_admin_authorization : AccessEnv → CodeRows → Option Text → Option AuthError
require_admin_authorization env rows header =
    unless_operator (authenticate_operator env rows header)

-- `body?.k`
abbrev pub body_field : Text → Value → Value
body_field k (object o) = get_field k o
body_field k _ = undefined

pub data LoginAnswer : Type 0 where
  no_body insecure invite_revoked invalid_password : LoginAnswer
  ok :
      (role : Role) (admin_id name : Text) (source : Source) (created_at : Option Text)
      → LoginAnswer

abbrev pub login_with_code : Option AdminCodeRecord → LoginAnswer
login_with_code none = invalid_password
login_with_code (some r) = elim r.revoked_at [
  | none ↦ ok admin r.admin_id r.name invite (some r.created_at)
  | some at ↦ invite_revoked
]

abbrev pub string_or_empty : Value → Text
string_or_empty (string s) = s
string_or_empty _ = []

abbrev pub login_with : AccessEnv → CodeRows → Text → LoginAnswer
login_with env rows password =
    if is_default_master_password_configured env && text_eq password default_admin_password
    then insecure
    else (if is_password (get_configured_master_password env) password
        then ok Role.master (codes "master") (codes "Master Operator") Source.master none
        else (if is_password (get_configured_demo_password env) password
            then ok admin (codes "demo-admin") (codes "Demo Admin") demo none
            else login_with_code (parse_admin_code_record password (get_code password rows))))

-- POST /api/admin/login; `none` is a body that is no JSON.
unfoldable pub login : AccessEnv → CodeRows → Option Value → LoginAnswer
login env rows none = no_body
login env rows (some body) =
    login_with env rows (string_or_empty (body_field (codes "password") body))

pub data CodeAnswer : Type 0 where
  refused : AuthError → CodeAnswer
  invalid_body name_length code_required code_not_found not_revoked : CodeAnswer
  revoked : (revoked_at : Text) → CodeAnswer
  renamed : (code : Text) (invite : AdminCodeRecord) → CodeAnswer

abbrev pub mark_revoked :
    Option Text → Text → Text → AdminCodeRecord → CodeRows → CodeRows × CodeAnswer
mark_revoked (some at) now code r rows = (rows, revoked at)
mark_revoked none now code r rows = (
  put_code code
      (code_row_value code (record r { revoked_at = some now; revoked_by = some (codes "master") }))
      rows,
  revoked now,
)

abbrev pub revoke_found : Text → Text → Option AdminCodeRecord → CodeRows → CodeRows × CodeAnswer
revoke_found now code none rows = (rows, not_revoked)
revoke_found now code (some r) rows = mark_revoked r.revoked_at now code r rows

abbrev pub revoke_code : Text → Text → CodeRows → CodeRows × CodeAnswer
revoke_code now code rows =
    if is_empty code
    then (rows, code_required)
    else revoke_found now code (parse_admin_code_record code (get_code code rows)) rows

abbrev pub revoke_body : Text → Option Value → CodeRows → CodeRows × CodeAnswer
revoke_body now none rows = (rows, invalid_body)
revoke_body now (some body) rows =
    revoke_code now (text_or_empty (body_field (codes "code") body)) rows

-- A request that the master may make, and its refusal.
abbrev pub if_allowed : Option AuthError → CodeRows → CodeRows × CodeAnswer → CodeRows × CodeAnswer
if_allowed none rows done = done
if_allowed (some e) rows done = (rows, refused e)

-- POST /api/admin/revoke
unfoldable pub revoke_admin_code :
    AccessEnv → Option Text → Option Value → Text → CodeRows → CodeRows × CodeAnswer
revoke_admin_code env header body now rows =
    if_allowed (require_master_authorization env header) rows (revoke_body now body rows)

abbrev pub rename_found : Text → Text → Option AdminCodeRecord → CodeRows → CodeRows × CodeAnswer
rename_found name code none rows = (rows, code_not_found)
rename_found name code (some r) rows = (
  put_code code (code_row_value code (record r { name = name })) rows,
  renamed code (record r { name = name }),
)

abbrev pub rename_named : Text → Option Text → CodeRows → CodeRows × CodeAnswer
rename_named name none rows = (rows, code_required)
rename_named name (some code) rows =
    rename_found name code (parse_admin_code_record code (get_code code rows)) rows

-- An empty code counts as none.
abbrev found_code : Option Text → Option Text
found_code none = none
found_code (some code) = non_empty code

abbrev code_or_found : Text → Text → CodeRows → Option Text
code_or_found code admin_id rows =
    if is_empty code then found_code (find_admin_code_by_admin_id admin_id rows) else some code

abbrev pub rename_body : Option Value → CodeRows → CodeRows × CodeAnswer
rename_body none rows = (rows, invalid_body)
rename_body (some body) rows =
    let name = text_or_empty (body_field (codes "name") body) in
    if is_empty name || ltb 64 (length name)
    then (rows, name_length)
    else rename_named name
        (code_or_found (text_or_empty (body_field (codes "code") body))
          (text_or_empty (body_field (codes "adminId") body)) rows)
        rows

-- POST /api/admin/rename
unfoldable pub rename_admin_code :
    AccessEnv → Option Text → Option Value → CodeRows → CodeRows × CodeAnswer
rename_admin_code env header body rows =
    if_allowed (require_master_authorization env header) rows (rename_body body rows)
