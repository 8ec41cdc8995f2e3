-- ===== src/Users/Linked.antt =====
-- The registrations form one chain.
use instant_grant_core.Prelude.{
  true, Option, none, some, List, [], ◌∷◌, Text, trim, is_empty, map, ◌≡◌, refl, subst, inl, inr,
  Bool-cases,
}
use instant_grant_core.Limits.Env.{lower}
use instant_grant_core.Audit.Canonical.{Platform}
use instant_grant_core.Audit.Append.{is_hash_hex}
use instant_grant_core.Users.{
  UserIdIndexRecord, UserRecord, UserRows, Registration, Registered, taken, registered,
  user_id_missing, unless_indexed, unless_known, next_chain_hash, chain_top,
  register_user_with_unique_id, register_all,
}

-- Hashes are 64 hexadecimal digits in lower case.
abbrev pub IsChainHash : Registered → Type 0
IsChainHash (registered user_id_hash chain_hash prev_chain_hash) =
    (is_hash_hex chain_hash ≡ true) × (map lower chain_hash ≡ chain_hash)
IsChainHash _ = Unit

abbrev pub AllChainHashes : List Registered → Type 0
AllChainHashes [] = Unit
AllChainHashes (r ∷ rs) = IsChainHash r × AllChainHashes rs

module _ (platform : Platform) where
  -- From a hash on, each answer that gives an id continues the one before, and has the chain hash of
  -- its fields; the last hash is the one at the end.
  abbrev pub IsLinkedFrom : Text → List Registered → Text → Type 0
  IsLinkedFrom top [] last = top ≡ last
  IsLinkedFrom top (registered user_id_hash chain_hash prev_chain_hash ∷ rs) last =
      (prev_chain_hash ≡ top)
      × (chain_hash ≡ next_chain_hash platform user_id_hash prev_chain_hash)
      × IsLinkedFrom chain_hash rs last
  IsLinkedFrom top (taken ∷ rs) last = IsLinkedFrom top rs last
  IsLinkedFrom top (user_id_missing ∷ rs) last = IsLinkedFrom top rs last

  -- How one answer moves the top of the chain.
  abbrev Moves : UserRows → UserRows × Registered → Type 0
  Moves rows (rows', registered user_id_hash chain_hash prev_chain_hash) =
      (prev_chain_hash ≡ chain_top rows.last_chain_hash)
      × (chain_hash ≡ next_chain_hash platform user_id_hash prev_chain_hash)
      × (rows'.last_chain_hash ≡ some chain_hash)
  Moves rows (rows', taken) = rows' ≡ rows
  Moves rows (rows', user_id_missing) = rows' ≡ rows

  unless_indexed-Moves :
      (q : Registration) (user_id : Text) (rows : UserRows) (o : Option UserIdIndexRecord)
      → Moves rows (unless_indexed platform q user_id rows o)
  unless_indexed-Moves q user_id rows (some r) = refl
  unless_indexed-Moves q user_id rows none = (refl, refl, refl)

  unless_known-Moves :
      (q : Registration) (user_id : Text) (rows : UserRows) (o : Option UserRecord)
      → Moves rows (unless_known platform q user_id rows o)
  unless_known-Moves q user_id rows (some u) = refl
  unless_known-Moves q user_id rows none = unless_indexed-Moves q user_id rows _

  register-Moves :
      (q : Registration) (rows : UserRows)
      → Moves rows (register_user_with_unique_id platform q rows)
  unfolding register_user_with_unique_id
  register-Moves q rows = elim (Bool-cases (is_empty (trim q.user_id))) [
    | inl missing ↦ rw missing refl
    | inr given ↦ rw given (unless_known-Moves q (trim q.user_id) rows _)
  ]

  moved-IsLinkedFrom :
      (rows : UserRows) (m : UserRows × Registered) (rs : List Registered) (last : Text)
      → Moves rows m
      → IsChainHash m.1
      → IsLinkedFrom (chain_top m.0.last_chain_hash) rs last
      → IsLinkedFrom (chain_top rows.last_chain_hash) (m.1 ∷ rs) last
  moved-IsLinkedFrom rows (rows', taken) rs last moves hash linked =
      subst (λ s. IsLinkedFrom (chain_top s.last_chain_hash) rs last) moves linked
  moved-IsLinkedFrom rows (rows', user_id_missing) rs last moves hash linked =
      subst (λ s. IsLinkedFrom (chain_top s.last_chain_hash) rs last) moves linked
  moved-IsLinkedFrom rows (rows', registered id chain prev) rs last (before, hashed, wrote)
        (is_hash, lowered) linked =
      let top : chain_top rows'.last_chain_hash ≡ chain = rw (wrote, is_hash, lowered) refl in
      (before, hashed, subst (λ t. IsLinkedFrom t rs last) top linked)

  -- The registrations form one chain. While their chain hashes are 64 hexadecimal digits in lower
  -- case, each registration that gives an id names the chain hash of the one before it, the first the
  -- one that the rows had, or zeros; it has the chain hash of its id's hash and of that one; and the
  -- rows end up with the last of them.
  pub register_all-IsLinkedFrom :
      (qs : List Registration) (rows : UserRows)
      → AllChainHashes (register_all platform qs rows).1
      → IsLinkedFrom
          (chain_top rows.last_chain_hash)
          (register_all platform qs rows).1
          (chain_top (register_all platform qs rows).0.last_chain_hash)
  register_all-IsLinkedFrom [] rows hashes = refl
  register_all-IsLinkedFrom (q ∷ qs) rows (hash, hashes) =
      moved-IsLinkedFrom rows (register_user_with_unique_id platform q rows) _ _
        (register-Moves q rows) hash
        (register_all-IsLinkedFrom qs (register_user_with_unique_id platform q rows).0 hashes)
