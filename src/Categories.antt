-- ===== src/Categories.antt =====
-- The categories of the marketplace, a tree that administrators edit.
pub mod Tables
pub mod Service
pub mod Forest
pub mod Growth
pub mod Removal
pub mod Calls
