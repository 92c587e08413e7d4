-- ===== src/Schema.antt =====
-- The tables of prisma/schema.prisma that the modelled services read and write: the enums in
-- Schema/Enums.antt, the rows and the database in Schema/Rows.antt.
mod Enums
mod Rows
unfoldable pub use Enums.*
unfoldable pub use Rows.*
