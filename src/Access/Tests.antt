-- ===== src/Access/Tests.antt =====
-- A code that the master revokes, and the theorems at inputs that meet their hypotheses.
use instant_grant_core.Prelude.{
  Bool, true, false, ◌&&◌, text_eq, Option, none, some, [], ◌∷◌, ◌++◌, Text, codes, trim,
  trim_start, trim_end, keep_before, is_space, ◌≡◌, refl,
}
use instant_grant_core.Js.{string, object, Fields, end, field}
use instant_grant_core.Access.{
  AccessEnv, trimmed, default_admin_password, is_default_master_password_configured,
  get_configured_master_password, get_configured_demo_password, extract_bearer_token,
  parse_admin_code_record, CodeRows, CodeAnswer, name_length, authenticate_operator,
  require_master_authorization, login, revoke_admin_code, rename_admin_code,
  find_admin_code_by_admin_id,
}
use instant_grant_core.Access.Laws.{
  is_granted, is_master, signed_in, shown, require_master_authorization-authenticate,
  login-authenticate,
}
use instant_grant_core.Access.Revoked.{renaming, handle_all, revoke_admin_code-stays_out}

access : Unit {0}
unfolding trim trim_start trim_end keep_before is_space is_default_master_password_configured
    get_configured_master_password get_configured_demo_password extract_bearer_token
    parse_admin_code_record authenticate_operator require_master_authorization login
    revoke_admin_code rename_admin_code find_admin_code_by_admin_id
access = tt

abbrev env : AccessEnv
env = record { admin_password = some (codes " secret "); admin_demo_password = none }

abbrev placeholder : AccessEnv
placeholder = record env { admin_password = some (codes "change-this-in-dashboard") }

abbrev ann : Fields
ann =
    field (codes "adminId") (string (codes "a1")) (field (codes "name") (string (codes "Ann")) end)

abbrev rows : CodeRows
rows = (codes "abc", object ann) ∷ []

abbrev to_revoke : Fields
to_revoke = field (codes "code") (string (codes " abc")) end

abbrev to_rename : Fields
to_rename =
    field (codes "adminId") (string (codes "a1")) (field (codes "name") (string (codes "Bob")) end)

abbrev as_master : Option Text
as_master = some (codes "Bearer secret")

abbrev as_ann : Option Text
as_ann = some (codes "bearer  abc ")

abbrev is_name_refused : CodeAnswer → Bool
is_name_refused name_length = true
is_name_refused _ = false

ann_signs_in_test :
    shown (authenticate_operator env rows as_ann)
    ≡ signed_in
        (login env rows (some (object (field (codes "password") (string (codes "abc")) end))))
unfolding access
ann_signs_in_test = refl

placeholder_is_no_password_test :
    is_granted
      (require_master_authorization placeholder (some (codes "Bearer change-this-in-dashboard")))
    ≡ false
unfolding access
placeholder_is_no_password_test = refl

blank_name_is_refused_test :
    is_name_refused (rename_admin_code env as_master (some (object to_revoke)) rows).1 ≡ true
unfolding access
blank_name_is_refused_test = refl

require_master_authorization-authenticate_example :
    (is_granted (require_master_authorization env as_master)
      ≡ is_master (authenticate_operator env rows as_master))
    × ((is_granted (require_master_authorization env as_master)
          && text_eq (trimmed env.admin_password) default_admin_password)
        ≡ false)
require_master_authorization-authenticate_example =
    require_master_authorization-authenticate env rows as_master

login-authenticate_example :
    signed_in (login env rows (some (object (field (codes "password") (string (codes "abc")) end))))
    ≡ shown (authenticate_operator env rows (some (codes "Bearer " ++ codes "abc")))
unfolding access
login-authenticate_example = login-authenticate env rows (codes "abc") refl refl refl

revoke_admin_code-stays_out_example :
    authenticate_operator env
      (handle_all env
        (renaming as_master (some (object to_rename)) ∷ [])
        (revoke_admin_code env as_master (some (object to_revoke)) (codes "2026-01-01") rows).0)
      as_ann
    ≡ none
unfolding access
revoke_admin_code-stays_out_example =
    revoke_admin_code-stays_out env as_master to_revoke (codes " abc") (codes "2026-01-01")
      (codes "2026-01-01") rows (renaming as_master (some (object to_rename)) ∷ []) as_ann refl refl
      refl refl refl refl
