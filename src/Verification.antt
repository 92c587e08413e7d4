-- ===== src/Verification.antt =====
-- providers/verification.ts: the functions in Verification/Badges.antt, and what they do in
-- Verification/Evidence.antt.
pub mod Badges
pub mod Evidence
