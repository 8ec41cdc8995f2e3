-- ===== src/Limits.antt =====
-- The worker's request and issuance limits (api-worker/src/storeDO.ts, getSecurityBodySizeLimitBytes
-- to enforceAdminInviteIssueLimit, and the parsers of environment variables above them).
pub mod Env
pub mod Policy
pub mod Rate
pub mod Issue
pub mod Body
pub mod Counting
pub mod RateLaws
pub mod BlockLaws
pub mod IssueLaws
mod Tests
