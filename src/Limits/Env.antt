-- ===== src/Limits/Env.antt =====
-- Numbers and switches from environment variables (api-worker/src/storeDO.ts, parseBoundedInt,
-- parseOptionalBoundedInt, parseBooleanQuery, parseBooleanEnv, parseOptionalBooleanEnv and
-- parseNonNegativeIntEnv). `none` is a missing variable.
use instant_grant_core.Prelude.{
  ℕ, ◌+◌, ◌-◌, ◌≤◌, min, Bool, true, false, ◌||◌, ◌&&◌, ◌==◌, Option, none, some, [], ◌∷◌, map,
  Text, codes, text_eq, trim, trim_start, is_digit, is_empty, ltb, leb, if◌then◌else◌, arith,
}
use instant_grant_core.Js.{ℤ, pos, negsuc, digits_value}

-- The digits that a text begins with.
unfoldable pub digit_prefix : Text → Text
digit_prefix [] = []
digit_prefix (c ∷ s) = let rest = digit_prefix s in if is_digit c then c ∷ rest else []

unfoldable pub parse_digits : Text → Option ℕ
unfolding digit_prefix
parse_digits s = if is_empty (digit_prefix s) then none else some (digits_value 0 (digit_prefix s))

abbrev negated : ℕ → ℤ
negated n = if n == 0 then pos 0 else negsuc (n - 1)

abbrev as_pos : Option ℕ → Option ℤ
as_pos none = none
as_pos (some n) = some (pos n)

abbrev as_negated : Option ℕ → Option ℤ
as_negated none = none
as_negated (some n) = some (negated n)

abbrev signed_text : Text → Option ℤ
signed_text [] = none
signed_text (c ∷ s) =
    if c == b'-'
    then as_negated (parse_digits s)
    else (if c == b'+' then as_pos (parse_digits s) else as_pos (parse_digits (c ∷ s)))

-- `Number.parseInt(s, 10)`; `none` is NaN.
unfoldable pub parse_int : Text → Option ℤ
unfolding parse_digits
parse_int s = signed_text (trim_start s)

abbrev clamped : ℕ → ℕ → ℕ → Option ℤ → ℕ
clamped fallback lo hi none = fallback
clamped fallback lo hi (some (negsuc n)) = lo
clamped fallback lo hi (some (pos n)) = if ltb n lo then lo else (if ltb hi n then hi else n)

unfoldable pub parse_bounded_int : Option Text → ℕ → ℕ → ℕ → ℕ
parse_bounded_int none fallback lo hi = fallback
parse_bounded_int (some raw) fallback lo hi =
    if is_empty raw then fallback else clamped fallback lo hi (parse_int raw)

abbrev limit_of : ℕ → ℕ → Option ℤ → Option ℕ
limit_of fallback hi none = some fallback
limit_of fallback hi (some (negsuc n)) = none
limit_of fallback hi (some (pos n)) = if n == 0 then none else some (min n hi)

-- `none` is no limit.
unfoldable pub parse_optional_bounded_int : Option Text → ℕ → ℕ → Option ℕ
parse_optional_bounded_int none fallback hi = some fallback
parse_optional_bounded_int (some raw) fallback hi =
    if is_empty raw then some fallback else limit_of fallback hi (parse_int raw)

-- `toLowerCase` on the letters of ASCII, the only ones that the switches are spelled with.
abbrev pub lower : ℕ → ℕ
lower c = if leb b'A' c && leb c b'Z' then c + 32 else c

abbrev switch_of : Text → Option Bool
switch_of s =
    if text_eq s (codes "1")
      || text_eq s (codes "true")
      || text_eq s (codes "yes")
      || text_eq s (codes "on")
    then some true
    else (if text_eq s (codes "0")
          || text_eq s (codes "false")
          || text_eq s (codes "no")
          || text_eq s (codes "off")
        then some false
        else none)

unfoldable pub parse_optional_boolean_env : Option Text → Option Bool
parse_optional_boolean_env none = none
parse_optional_boolean_env (some raw) = switch_of (map lower (trim raw))

abbrev bool_or : Bool → Option Bool → Bool
bool_or fallback none = fallback
bool_or fallback (some b) = b

unfoldable pub parse_boolean_env : Option Text → Bool → Bool
parse_boolean_env none fallback = fallback
parse_boolean_env (some raw) fallback = bool_or fallback (switch_of (map lower (trim raw)))

abbrev non_negative : ℕ → ℕ → Option ℤ → ℕ
non_negative fallback hi none = fallback
non_negative fallback hi (some (negsuc n)) = fallback
non_negative fallback hi (some (pos n)) = if ltb hi n then hi else n

unfoldable pub parse_non_negative_int_env : Option Text → ℕ → ℕ → ℕ
parse_non_negative_int_env none fallback hi = fallback
parse_non_negative_int_env (some raw) fallback hi =
    if is_empty (trim raw) then fallback else non_negative fallback hi (parse_int (trim raw))

-- Whatever the variable holds, a default within the bounds yields a number within the bounds.
pub parse_bounded_int-bounds :
    (raw : Option Text) (fallback lo hi : ℕ)
    → lo ≤ fallback
    → fallback ≤ hi
    → (lo ≤ parse_bounded_int raw fallback lo hi) × (parse_bounded_int raw fallback lo hi ≤ hi)
unfolding parse_bounded_int
parse_bounded_int-bounds none fallback lo hi a b = (a, b)
parse_bounded_int-bounds (some raw) fallback lo hi a b = ground arith
