-- ===== src/Audit.antt =====
-- The audit log (api-worker/src/audit/types.ts, hash.ts and immutable.ts; appendAuditLog and
-- verifyAuditIntegrity with what they call, in api-worker/src/storeDO.ts).
pub mod Canonical
pub mod CanonicalLaws
pub mod Entry
pub mod Services
pub mod Sinks
pub mod Append
pub mod Chain
pub mod Rows
pub mod Verify
pub mod Walks
pub mod Windows
pub mod Log
pub mod Honest
pub mod Sound
pub mod Tamper
pub mod Removed
pub mod SinkLaws
pub mod Copies
pub mod Conflicts
pub mod Immutable
pub mod FailClosed
pub mod Global
mod Sample
mod Tests
