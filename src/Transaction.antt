-- ===== src/Transaction.antt =====
-- prisma/prisma.service.ts: `withUser`, which runs a function inside one transaction that carries
-- the caller's identity. A step of a transaction reads the session's settings, reads and writes the
-- database, and may fail; a failure rolls the transaction back.
pub mod Keeps
pub mod Returns
mod Core
unfoldable pub use Core.*
