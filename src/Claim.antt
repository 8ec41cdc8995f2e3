-- ===== src/Claim.antt =====
-- Claims on school events (api-worker/src/claimLogic.ts).
pub mod Event
pub mod State
pub mod Quota
pub mod Onchain
pub mod OnchainLaws
pub mod RoundTrip
pub mod Availability
pub mod Storage
pub mod Keys
pub mod Store
pub mod Listing
pub mod Events
pub mod Submit
pub mod WellFormed
pub mod Records
pub mod Run
pub mod Window
pub mod Beyond
mod Tests
pub mod KeyLaws
pub mod Answers
