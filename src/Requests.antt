-- ===== src/Requests.antt =====
-- requests/requests.service.ts: the lifecycle table in Requests/Lifecycle.antt, the operations in
-- Requests/Service.antt, and what they do in the other children.
pub mod Lifecycle
pub mod Service
pub mod Notices
pub mod Consistency
pub mod Steps
pub mod Effects
