-- ===== src/Reviews.antt =====
-- reviews/reviews.service.ts.
pub mod Rating
pub mod Service
pub mod Aggregate
pub mod Outcomes
pub mod Revisions
pub mod Consistency
pub mod Steps
