-- ===== src/EmailVerification.antt =====
-- auth/email-verification.service.ts: the operations in EmailVerification/Service.antt, and what
-- they do in EmailVerification/Confirmation.antt.
pub mod Service
pub mod Confirmation
