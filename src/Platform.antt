-- ===== src/Platform.antt =====
-- The services of bookings/, quotes/, requests/ and disputes/ over one database.
mod Calls
pub mod Invariant
pub mod Refinement
pub mod Promises
unfoldable pub use Calls.*
