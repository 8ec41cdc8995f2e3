-- ===== src/Receipt.antt =====
-- Participation receipts (api-worker/src/types.ts, ParticipationTicketReceipt;
-- buildParticipationTicketReceipt to getParticipationTicketReceipt and
-- verifyParticipationTicketReceipt of api-worker/src/storeDO.ts).
pub mod Record
pub mod Reading
pub mod Check
pub mod Genuine
pub mod RoundTrip
mod Tests
