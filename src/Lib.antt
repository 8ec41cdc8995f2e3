-- ===== src/Lib.antt =====
-- The grant worker: who may claim at an event and how often, what the worker lets through, and how
-- its operators agree on heavy actions.
--
-- The worker keeps one store (a Durable Object) and treats one request at a time; a request is one
-- step from a state to a state and an answer. A claim is submitted for an event by a subject, which
-- is a wallet address or a join token in normal form. The claim store keeps one record for each
-- event and subject, and lets a new claim through while the event's policy has room in its interval.
-- Before a request gets that far the rate limiter counts it against the budget of its client and of
-- all clients. Operators who freeze or delete a user or revoke an operator need the approval of a
-- whole circle, which the governance collects in proposals. Every request is put on record in the
-- audit log, a chain of hashes with copies outside the worker, and
-- a participant's receipt can be checked against it. Users are registered once, and a new operator is
-- invited by a proposal that the operators approve.
--
-- Claim (api-worker/src/claimLogic.ts and types.ts)
--   Claim/Event: SchoolEvent. Claim/State: ClaimState, parseClaimHistory, parsePendingClaim,
--   parseClaimState and the serializers. Claim/Quota: resolveClaimPolicy, buildClaimQuotaStatus.
--   Claim/Storage: IClaimStorage, an interface whose laws say that a read shows the last write and
--   that a listing shows the rows under its prefix. Claim/Keys: claimKey, eventKey,
--   normalizeSubject. Claim/Store, Claim/Listing, Claim/Events and Claim/Submit: the methods of
--   ClaimStore. Claim/Onchain: the worker's own resolveClaimPolicy and its quota from confirmed
--   claims (api-worker/src/storeDO.ts). Claim/OnchainLaws, RoundTrip, WellFormed, Availability,
--   Records, Run, Window, Beyond, KeyLaws and Answers hold the proofs, Claim/Tests the runs.
-- Codes (api-worker/src/storeDO.ts)
--   Codes: genConfirmationCode, reserveUniqueConfirmationCode, ensureConfirmationCodeIndexed,
--   releaseReservedConfirmationCode and confirmationCodeBelongsToSubject, over rows that are an
--   interface of get, put and delete. Codes/Unique and Codes/Service hold the proofs.
-- Guard (api-worker/src/storeDO.ts)
--   Guard: the security state of an admin, collectSuspiciousSignals, enforceAdminSecurityOperation and
--   ensureUserNotModerated. Guard/Watch: what POST /v1/school/events does with them before an event
--   is created. Guard/Bursts and Guard/Frozen hold the proofs.
-- Limits (api-worker/src/storeDO.ts)
--   Limits/Env: parseBoundedInt and the other parsers of variables. Limits/Policy:
--   getSecurityRatePolicy. Limits/Rate: consumeSecurityRateState, enforceSecurityRateLimit.
--   Limits/Body: enforceSecurityBodySizeLimit, enforceSecurityPreflight.
--   Limits/Issue: consumeSecurityIssueLimit and its two callers. Limits/Counting, RateLaws, BlockLaws
--   and IssueLaws hold the proofs.
-- Governance (api-worker/src/storeDO.ts)
--   Governance/Proposal: the records and their order. Governance/Reading:
--   parseAdminSecurityGovernanceProposal. Governance/Process:
--   processAdminSecurityGovernanceAction with what it calls. Governance/View: governanceProposalView
--   and parseGovernanceReason. Governance/ReadingLaws, Rows, Honest, Consensus, Effects, Keyed and
--   Once hold the proofs.
-- Audit (api-worker/src/audit and api-worker/src/storeDO.ts)
--   Audit/Canonical: hash.ts. Audit/Entry: types.ts, buildAuditHashInput and buildImmutablePayload.
--   Audit/Services and Audit/Sinks: immutable.ts, over services whose laws are those of
--   puts with and without a condition. Audit/Append: appendAuditLog, getAuditLogs, getAuditStatus,
--   getAuditEntryByHash. Audit/Chain, Audit/Rows and Audit/Verify: verifyAuditIntegrity.
--   The abstract log and how appends implement it are in Audit/Log, the logs that appends make in
--   Audit/Honest. Walks, Windows, Sound, Tamper, Removed, SinkLaws, Copies, Conflicts,
--   Immutable, FailClosed, Global and CanonicalLaws hold the proofs.
-- Receipt (api-worker/src/storeDO.ts)
--   Receipt/Record: ParticipationTicketReceipt, buildParticipationTicketReceipt and the row under which
--   it is stored. Receipt/Reading: parseParticipationTicketReceipt,
--   storeParticipationTicketReceipt and getParticipationTicketReceipt. Receipt/Check:
--   verifyParticipationTicketReceipt, over the audit log's entries. Receipt/Genuine and Receipt/RoundTrip hold the proofs.
-- Users (api-worker/src/storeDO.ts)
--   Users: registerUserWithUniqueId with the index of ids and the chain of their hashes.
--   Users/Unique and Users/Linked hold the proofs.
-- Invites (api-worker/src/storeDO.ts)
--   Invites/Proposal: parseAdminInviteProposalRecord. Invites/Operators:
--   listInviteConsensusOperators. Invites/Decide: approveAdminInviteProposal and
--   rejectAdminInviteProposal. Invites/Settled holds the proofs.
-- Access (api-worker/src/storeDO.ts)
--   Access: the passwords, authenticateOperator, requireMasterAuthorization, parseAdminCodeRecord and
--   the requests that sign an operator in and that rename or revoke a code. Access/Laws and
--   Access/Revoked hold the proofs.
--
-- The bucket's put is a parameter that takes its condition: by its laws only a put on the condition
-- that there is no object keeps the object under its own key. Invites' proposals and users are rows
-- as their parsers read them; a confirmation code's time is a number that is always there.
--
-- Texts are lists of UTF-16 code units, times are milliseconds, and every reading of the clock is an
-- argument. Numbers are exact: the rounding of numbers from 2^53 on is not modelled. A stored number
-- is its integral part and whether it has a fraction. An object under an event's key is an event.
-- Letters change case on ASCII alone. Hashes, random ids, the storage, the operators that have been
-- revoked and the effect of an agreed action are parameters. The texts of messages are left out.
--
-- The walk over the audit log has as much fuel as the window has entries, and one more.
-- The digits of an event's id have fuel: a time has fewer digits than its own value plus one. A
-- reservation makes at most the program's own 128 attempts. No other function runs on fuel.
--
-- Not modelled: the grant program and its vendored libraries (Rust), the mobile app and its server,
-- and in the worker the security log's hash chain, report obligations, the making and
-- the listing of invites, proofs of presence and routing.

pub mod Prelude
pub mod Js
pub mod Claim
pub mod Codes
pub mod Guard
pub mod Limits
pub mod Governance
pub mod Audit
pub mod Receipt
pub mod Users
pub mod Invites
pub mod Access
