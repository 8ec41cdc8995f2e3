-- ===== src/Claim/Event.antt =====
-- School events (api-worker/src/types.ts, SchoolEvent). The two policy fields keep the values that
-- a request or a stored record gave them.
use instant_grant_core.Prelude.{ℕ, Option, Text}
use instant_grant_core.Js.{Value}

pub data EventState : Type 0 where
  draft published ended : EventState

pub data RiskProfile : Type 0 where
  school_internal public : RiskProfile

pub record SchoolEvent : Type 0 where
  pub id : Text
  pub title : Text
  pub datetime : Text
  pub host : Text
  pub state : Option EventState
  pub risk_profile : Option RiskProfile
  pub solana_mint : Option Text
  pub solana_authority : Option Text
  pub solana_grant_id : Option Text
  pub ticket_token_amount : Option ℕ
  pub claim_interval_days : Value
  pub max_claims_per_interval : Value
