-- ===== src/Claim/OnchainLaws.antt =====
-- The on-chain quota against the shared one: where they agree, and what a fraction does.
use instant_grant_core.Prelude.{◌==◌, ◌&&◌, not, Bool, true, false}
use instant_grant_core.Js.{pos, finite, Value, number, string}

-- A value that both ways of reading a policy agree on: no text, and no fraction below one.
abbrev pub is_plain : Value → Bool
is_plain (string s) = false
is_plain (number (finite (pos n) fractional)) = not (n == 0 && fractional)
is_plain _ = true
