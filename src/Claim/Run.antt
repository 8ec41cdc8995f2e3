-- ===== src/Claim/Run.antt =====
-- A run of submissions with one body, and the times at which claims were granted.
use instant_grant_core.Prelude.{ℕ, suc, ◌≤◌, ◌<◌, Option, List, [], ◌∷◌, Text, leb, if◌then◌else◌}
use instant_grant_core.Claim.Storage.{IClaimStorage}
use instant_grant_core.Claim.Submit.{
  ClaimBody, SchoolClaimResult, success, failure, Clock, submit_claim,
}
use instant_grant_core.Claim.WellFormed.{IsIssued}

-- The times of the claims that were granted, newest first.
abbrev pub granted : SchoolClaimResult → ℕ → List ℕ → List ℕ
granted (failure code) at log = log
granted (success r) at log = if r.already_joined then log else at ∷ log

abbrev pub granted_from : ℕ → List ℕ → ℕ
granted_from a [] = 0
granted_from a (d ∷ log) = if leb a d then suc (granted_from a log) else granted_from a log

-- Submissions of one body: the code that each is given and its readings of the clock.
abbrev pub Submissions : Type 0
Submissions = List (Option Text × Clock)

-- The clock does not run backwards, and codes are as the server issues them.
abbrev pub InOrder : ℕ → Submissions → Type 0
InOrder now [] = Unit {0}
InOrder now ((code, clock) ∷ rest) =
    (now ≤ clock.checked)
    × (clock.checked ≤ clock.added)
    × (0 < clock.added)
    × IsIssued code
    × InOrder clock.added rest

abbrev pub end_of : ℕ → Submissions → ℕ
end_of now [] = now
end_of now ((code, clock) ∷ rest) = end_of clock.added rest

module _ (storage : IClaimStorage) (body : ClaimBody) where
  open storage use {Store}

  -- The store after the submissions, and the times of those that were granted.
  unfoldable pub submit_all : Store → List ℕ → Submissions → Store × List ℕ
  submit_all s log [] = (s, log)
  submit_all s log ((code, clock) ∷ rest) =
      let (s', r) = submit_claim storage s body code clock in
      submit_all s' (granted r clock.added log) rest
