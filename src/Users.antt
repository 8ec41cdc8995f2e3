-- ===== src/Users.antt =====
-- The registration of users and the chain of their ids (api-worker/src/storeDO.ts, UserIdIndexRecord,
-- hashString, parseUserIdIndexRecord, validateUserIdForRegistration and registerUserWithUniqueId).
-- The lock makes a registration one step; the clock is an argument.
pub mod Unique
pub mod Linked
mod Tests
use instant_grant_core.Prelude.{
  ℕ, zero, suc, Bool, false, ◌&&◌, ◌||◌, ◌==◌, not, Option, none, some, List, [], ◌∷◌, ◌++◌, map,
  Text, codes, text_eq, trim, is_empty, is_digit, all, length, leb, if◌then◌else◌,
}
use instant_grant_core.Js.{string, object, end, field, integer}
use instant_grant_core.Limits.Env.{lower}
use instant_grant_core.Audit.Canonical.{Platform, canonicalize, sha256_hex}
use instant_grant_core.Audit.Append.{is_hash_hex}

pub record UserIdIndexRecord : Type 0 where
  pub user_id : Text
  pub user_id_hash : Text
  pub chain_hash : Text
  pub prev_chain_hash : Text
  pub created_at : Text

pub record UserRecord : Type 0 where
  pub pin_hash : Text
  pub display_name : Text

-- The rows of users and of the index under their keys, and the row of the chain's last hash.
pub record UserRows : Type 0 where
  pub users : Text → Option UserRecord
  pub index : Text → Option UserIdIndexRecord
  pub last_chain_hash : Option Text

abbrev pub user_key : Text → Text
user_key user_id = codes "user:" ++ user_id

abbrev pub user_id_index_key : Text → Text
user_id_index_key user_id_hash = codes "user_id_index:" ++ user_id_hash

-- A stored row counts with all its texts and with hashes.
unfoldable pub parse_user_id_index_record : UserIdIndexRecord → Option UserIdIndexRecord
parse_user_id_index_record r =
    if is_empty (trim r.user_id)
      || is_empty (trim r.user_id_hash)
      || is_empty (trim r.chain_hash)
      || is_empty (trim r.prev_chain_hash)
      || is_empty (trim r.created_at)
      || not (is_hash_hex (trim r.user_id_hash))
      || not (is_hash_hex (trim r.chain_hash))
      || not (is_hash_hex (trim r.prev_chain_hash))
    then none
    else some (record {
      user_id = trim r.user_id;
      user_id_hash = trim r.user_id_hash;
      chain_hash = trim r.chain_hash;
      prev_chain_hash = trim r.prev_chain_hash;
      created_at = trim r.created_at;
    })

pub data UserIdError : Type 0 where
  user_id_required user_id_format : UserIdError

abbrev is_first_char : ℕ → Bool
is_first_char c = is_digit c || (leb b'a' c && leb c b'z')

abbrev is_later_char : ℕ → Bool
is_later_char c = is_first_char c || c == b'.' || c == b'_' || c == b'-'

-- `/^[a-z0-9][a-z0-9._-]{2,31}$/.test(userId)`
abbrev matches_user_id : Text → Bool
matches_user_id [] = false
matches_user_id (c ∷ s) =
    is_first_char c && all is_later_char s && leb 2 (length s) && leb (length s) 31

unfoldable pub validate_user_id_for_registration : Text → Option UserIdError
validate_user_id_for_registration user_id =
    if is_empty user_id
    then some user_id_required
    else (if matches_user_id user_id then none else some user_id_format)

abbrev zeros : ℕ → Text
zeros zero = []
zeros (suc n) = b'0' ∷ zeros n

abbrev pub pop_hash_genesis_hex : Text
pop_hash_genesis_hex = zeros 64

-- The hash that a registration continues.
abbrev pub chain_top : Option Text → Text
chain_top none = pop_hash_genesis_hex
chain_top (some h) = if is_hash_hex h then map lower h else pop_hash_genesis_hex

abbrev pub found_index : Option UserIdIndexRecord → Option UserIdIndexRecord
found_index none = none
found_index (some r) = parse_user_id_index_record r

pub record Registration : Type 0 where
  pub user_id : Text
  pub display_name : Text
  pub pin_hash : Text
  pub created_at : Text

pub data Registered : Type 0 where
  user_id_missing taken : Registered
  registered : (user_id_hash chain_hash prev_chain_hash : Text) → Registered

abbrev pub put_at {ℓ} : {A : Type ℓ} → Text → A → (Text → Option A) → Text → Option A
put_at k v rows j = if text_eq k j then some v else rows j

module _ (platform : Platform) where
  abbrev pub hash_string : Text → Text
  hash_string input = sha256_hex platform input

  abbrev pub user_id_hash_of : Text → Text
  user_id_hash_of user_id = hash_string (codes "user-id:" ++ user_id)

  abbrev pub next_chain_hash : Text → Text → Text
  next_chain_hash user_id_hash prev_chain_hash = sha256_hex platform (
      canonicalize platform (
        object (
          field (codes "version") (integer 1) (
            field (codes "kind") (string (codes "user_id_register")) (
              field (codes "userIdHash") (string user_id_hash)
                (field (codes "prevChainHash") (string prev_chain_hash) end))))))

  abbrev pub add_user : Registration → Text → UserRows → UserRows × Registered
  add_user q user_id rows =
      let hash = user_id_hash_of user_id in
      let prev = chain_top rows.last_chain_hash in
      let chain = next_chain_hash hash prev in
      (
        record {
          users =
              put_at (user_key user_id)
                (record { pin_hash = q.pin_hash; display_name = q.display_name }) rows.users;
          index =
              put_at (user_id_index_key hash)
                (record {
                  user_id = user_id;
                  user_id_hash = hash;
                  chain_hash = chain;
                  prev_chain_hash = prev;
                  created_at = q.created_at;
                })
                rows.index;
          last_chain_hash = some chain;
        },
        registered hash chain prev,
      )

  abbrev pub unless_indexed :
      Registration → Text → UserRows → Option UserIdIndexRecord → UserRows × Registered
  unless_indexed q user_id rows (some r) = (rows, taken)
  unless_indexed q user_id rows none = add_user q user_id rows

  abbrev pub unless_known :
      Registration → Text → UserRows → Option UserRecord → UserRows × Registered
  unless_known q user_id rows (some u) = (rows, taken)
  unless_known q user_id rows none =
      unless_indexed q user_id rows
        (found_index (rows.index (user_id_index_key (user_id_hash_of user_id))))

  unfoldable pub register_user_with_unique_id : Registration → UserRows → UserRows × Registered
  register_user_with_unique_id q rows =
      if is_empty (trim q.user_id)
      then (rows, user_id_missing)
      else unless_known q (trim q.user_id) rows (rows.users (user_key (trim q.user_id)))

  -- Registrations one after another, with their answers.
  abbrev pub register_all : List Registration → UserRows → UserRows × List Registered
  register_all [] rows = (rows, [])
  register_all (q ∷ qs) rows =
      let first = register_user_with_unique_id q rows in
      let rest = register_all qs first.0 in (rest.0, first.1 ∷ rest.1)
