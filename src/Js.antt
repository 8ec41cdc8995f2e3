-- ===== src/Js.antt =====
-- JavaScript values that the program receives as `unknown`: stored records, request bodies and
-- environment variables, with the parsers that the worker shares (api-worker/src/claimLogic.ts,
-- api-worker/src/storeDO.ts). A finite number is its floor with a mark for a fractional part.
use instant_grant_core.Prelude.{
  ℕ, ◌+◌, ◌*◌, ◌-◌, Bool, false, Option, none, some, [], ◌∷◌, Text, text_eq, trim, is_digit, all,
  ltb, if◌then◌else◌,
}

pub data ℤ : Type 0 where
  pos : ℕ → ℤ
  negsuc : ℕ → ℤ

pub data Number : Type 0 where
  finite : (floor : ℤ) (fractional : Bool) → Number
  not_finite : Number

mutual
  pub data Value : Type 0 where
    undefined null : Value
    boolean : Bool → Value
    number : Number → Value
    string : Text → Value
    array : Items → Value
    object : Fields → Value

  pub data Items : Type 0 where
    nil : Items
    cons : Value → Items → Items

  pub data Fields : Type 0 where
    end : Fields
    field : Text → Value → Fields → Fields

-- `o.k`
abbrev pub get_field : Text → Fields → Value
get_field k end = undefined
get_field k (field j v fs) = if text_eq j k then v else get_field k fs

-- `{ ...o, k: v }`
abbrev pub set_field : Text → Value → Fields → Fields
set_field k v end = field k v end
set_field k v (field j w fs) =
    let rest = set_field k v fs in if text_eq j k then field k v fs else field j w rest

abbrev pub integer : ℕ → Value
integer n = number (finite (pos n) false)

-- `Number.parseInt(s, 10)` of a text of digits, with the digits read so far.
abbrev pub digits_value : ℕ → Text → ℕ
digits_value acc [] = acc
digits_value acc (c ∷ s) = digits_value (acc * 10 + (c - b'0')) s

-- `/^\d+$/.test(s)`
abbrev pub is_digits : Text → Bool
is_digits [] = false
is_digits (c ∷ s) = all is_digit (c ∷ s)

abbrev positive : ℕ → Option ℕ
positive v = if ltb 0 v then some v else none

unfoldable pub parse_positive_int : Value → Option ℕ
parse_positive_int (number (finite (pos n) fractional)) = positive n
parse_positive_int (string s) =
    if is_digits (trim s) then positive (digits_value 0 (trim s)) else none
parse_positive_int _ = none
