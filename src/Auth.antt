-- ===== src/Auth.antt =====
-- auth/auth.service.ts and auth/google-auth.service.ts: the tables in Auth/Tables.antt, the
-- operations in Auth/Service.antt, Auth/Refresh.antt and Auth/Google.antt, any sequence of them in
-- Auth/Calls.antt.
pub mod Tables
pub mod Service
pub mod Refresh
pub mod Google
pub mod Calls
pub mod Families
pub mod Rotation
pub mod Reuse
pub mod Lockout
pub mod Access
pub mod Continuity
pub mod Linking
