-- ===== src/Claim/Storage.antt =====
-- What the claim store asks of its storage (api-worker/src/claimLogic.ts, IClaimStorage): the
-- operations and the laws of a Durable Object's key-value storage that the store relies on.
use instant_grant_core.Prelude.{◌≡◌, List, [], ◌∷◌, Text, text_eq, starts_with, if◌then◌else◌}
use instant_grant_core.Js.{Value, undefined, object, end}
use instant_grant_core.Claim.Event.{SchoolEvent}

-- What a key holds. An event is an object with an `id` and without the fields of a claim record.
pub data Stored : Type 0 where
  absent : Stored
  value : Value → Stored
  event : SchoolEvent → Stored

abbrev pub stored_value : Stored → Value
stored_value absent = undefined
stored_value (value v) = v
stored_value (event e) = object end

-- The value of a key in a listing.
abbrev pub listed : Text → List (Text × Stored) → Stored
listed k [] = absent
listed k ((j, v) ∷ rows) = if text_eq j k then v else listed k rows

pub record IClaimStorage : Type 1 where
  pub Store : Type 0
  pub get : Store → Text → Stored
  pub put : Store → Text → Stored → Store
  pub list : Store → Text → List (Text × Stored)
  pub get-put :
      (s : Store) (k : Text) (v : Stored) (j : Text)
      → get (put s k v) j ≡ (if text_eq k j then v else get s j)
  pub listed-list :
      (s : Store) (prefix key : Text)
      → listed key (list s prefix) ≡ (if starts_with prefix key then get s key else absent)
