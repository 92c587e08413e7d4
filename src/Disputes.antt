-- ===== src/Disputes.antt =====
-- disputes/disputes.module.ts: the operations in Disputes/Service.antt, and what they do in the
-- other children.
pub mod Service
pub mod Consistency
pub mod Steps
