-- ===== src/Users/Tests.antt =====
-- Registrations on a small platform, and the theorems at inputs that meet their hypotheses.
use instant_grant_core.Prelude.{
  ℕ, zero, suc, ◌+◌, ◌*◌, ◌%◌, true, false, none, some, List, [], ◌∷◌, map, Text, codes, trim,
  trim_start, trim_end, keep_before, is_space, ◌≡◌, refl,
}
use instant_grant_core.Audit.Canonical.{Platform, canonicalize, stringify, sort_deep, sha256_hex}
use instant_grant_core.Users.{
  UserRecord, UserRows, Registration, user_id_format, user_key, chain_top,
  parse_user_id_index_record, validate_user_id_for_registration, register_user_with_unique_id,
  register_all,
}
use instant_grant_core.Users.Unique.{is_registered, NotAgain, register_all-NotAgain}
use instant_grant_core.Users.Linked.{IsLinkedFrom, register_all-IsLinkedFrom}

abbrev rolling : ℕ → Text → ℕ
rolling acc [] = acc
rolling acc (c ∷ s) = rolling ((acc * 31 + c) % 251) s

abbrev copies : ℕ → ℕ → List ℕ
copies zero b = []
copies (suc n) b = b ∷ copies n b

abbrev small_platform : Platform
small_platform = record {
  number_text = λ n. codes "1";
  encode_uri_component = λ t. t;
  digest = λ t. copies 32 (rolling 7 t);
}

registrations : Unit {0}
unfolding canonicalize stringify sort_deep sha256_hex parse_user_id_index_record
    validate_user_id_for_registration register_user_with_unique_id trim trim_start trim_end
    keep_before is_space
registrations = tt

abbrev registration : Text → Registration
registration user_id = record {
  user_id = user_id;
  display_name = codes "Ann";
  pin_hash = codes "77";
  created_at = codes "1";
}

abbrev no_users : UserRows
no_users = record { users = λ k. none; index = λ k. none; last_chain_hash = none }

abbrev ann : UserRecord
ann = record { pin_hash = codes "77"; display_name = codes "Ann" }

abbrev with_ann : UserRows
with_ann = (register_user_with_unique_id small_platform (registration (codes "ann")) no_users).0

abbrev three : List Registration
three = registration (codes "bob") ∷ registration (codes " ann") ∷ registration (codes "eve") ∷ []

three_test :
    map is_registered (register_all small_platform three with_ann).1 ≡ (true ∷ false ∷ true ∷ [])
unfolding registrations
three_test = refl

short_id_test : validate_user_id_for_registration (codes "an") ≡ some user_id_format
unfolding registrations
short_id_test = refl

register_all-NotAgain_example :
    ((register_all small_platform three with_ann).0.users (user_key (codes "ann")) ≡ some ann)
    × NotAgain (codes "ann") three (register_all small_platform three with_ann).1
unfolding registrations
register_all-NotAgain_example =
    register_all-NotAgain small_platform three with_ann (codes "ann") ann refl

register_all-IsLinkedFrom_example :
    IsLinkedFrom small_platform
      (chain_top no_users.last_chain_hash)
      (register_all small_platform three no_users).1
      (chain_top (register_all small_platform three no_users).0.last_chain_hash)
unfolding registrations
register_all-IsLinkedFrom_example =
    register_all-IsLinkedFrom small_platform three no_users
      ((refl, refl), ((refl, refl), ((refl, refl), tt)))
