-- ===== src/Claim/Keys.antt =====
-- Storage keys and the normal form of a subject (api-worker/src/claimLogic.ts, claimKey to
-- normalizeSubject).
use instant_grant_core.Prelude.{
  Bool, false, Option, none, some, [], ◌∷◌, ◌++◌, Text, codes, trim, is_space, is_empty,
  if◌then◌else◌,
}

abbrev pub claim_prefix_text : Text
claim_prefix_text = codes "claim:"

abbrev pub event_prefix_text : Text
event_prefix_text = codes "event:"

unfoldable pub claim_prefix : Text → Text
claim_prefix event_id = claim_prefix_text ++ (event_id ++ b':' ∷ [])

unfoldable pub claim_key : Text → Text → Text
claim_key event_id subject = claim_prefix_text ++ (event_id ++ (b':' ∷ subject))

unfoldable pub event_key : Text → Text
event_key event_id = event_prefix_text ++ event_id

-- `s.replace(/\s+/g, ' ')`; the flag tells whether the character before was white space.
unfoldable pub collapse : Bool → Text → Text
collapse after [] = []
collapse after (c ∷ s) =
    let rest = collapse (is_space c) s in
    if is_space c then (if after then rest else 32 ∷ rest) else c ∷ rest

-- `walletAddress ?? joinToken ?? ''`
abbrev pub raw_subject : Option Text → Option Text → Text
raw_subject (some wallet) join_token = wallet
raw_subject none (some token) = token
raw_subject none none = []

abbrev pub clean : Text → Option Text
clean raw = if is_empty raw then none else some (trim (collapse false raw))

unfoldable pub normalize_subject : Option Text → Option Text → Option Text
normalize_subject wallet_address join_token = clean (trim (raw_subject wallet_address join_token))
