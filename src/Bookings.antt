-- ===== src/Bookings.antt =====
-- bookings/bookings.service.ts: the lifecycle table in Bookings/Lifecycle.antt, the operations in
-- Bookings/Service.antt, and what they do in the other children.
pub mod Lifecycle
pub mod Service
pub mod Owners
pub mod Consistency
pub mod Spec
pub mod OtherTables
pub mod Moderated
pub mod Refinement
pub mod Stepping
pub mod Implements
pub mod Rescheduling
pub mod Promises
pub mod Access
pub mod Loading
pub mod Effects
pub mod Completion
pub mod Releases
pub mod Permanence
