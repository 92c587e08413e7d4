-- ===== src/Admin.antt =====
-- The parts of admin/admin.service.ts that act on disputes, reviews, reports and accounts.
pub mod Service
pub mod Accounts
pub mod Suspension
pub mod Consistency
pub mod Steps
pub mod Outcomes
pub mod Visibility
