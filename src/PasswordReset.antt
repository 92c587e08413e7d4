-- ===== src/PasswordReset.antt =====
-- auth/password-reset.service.ts: the operations in PasswordReset/Service.antt, and what they do in
-- the other children.
pub mod Service
pub mod Lockout
pub mod Flow
