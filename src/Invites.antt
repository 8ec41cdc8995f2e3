-- ===== src/Invites.antt =====
-- Invites of admins: proposals, their approval and rejection (api-worker/src/storeDO.ts,
-- AdminInviteProposalRecord, parseAdminInviteApproval, parseAdminInviteProposalRecord,
-- hasAdminInviteIssuanceAuthority to listInviteConsensusOperators, approveAdminInviteProposal and
-- rejectAdminInviteProposal).
pub mod Proposal
pub mod Operators
pub mod Decide
pub mod Settled
mod Tests
