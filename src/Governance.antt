-- ===== src/Governance.antt =====
-- The operators' consensus on heavy actions (api-worker/src/storeDO.ts).
pub mod Proposal
pub mod Reading
pub mod ReadingLaws
pub mod Process
pub mod View
pub mod Rows
pub mod Honest
pub mod Consensus
pub mod Effects
pub mod Keyed
pub mod Once
mod Tests
