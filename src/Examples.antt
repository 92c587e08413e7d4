-- ===== src/Examples.antt =====
-- A small marketplace, the theorems at it, and tests.
mod World
mod Histories
mod Calls
mod Codes
mod Badges
mod Sessions
mod Moderation
mod Categories
