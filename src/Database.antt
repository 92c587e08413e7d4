-- ===== src/Database.antt =====
-- The database that the services run against: the row level security policies, the CHECK
-- constraints, the unique indexes and the triggers of prisma/migrations, and the reads and writes
-- of Prisma's client over them.
pub mod Policies
pub mod Constraints
pub mod Writes
pub mod Moderation
pub mod Consistency
pub mod History
pub mod WritesKeep
pub mod WritesReturn
pub mod ModerationKeeps
pub mod ModerationReturns
