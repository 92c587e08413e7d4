-- ===== src/Quotes.antt =====
-- quotes/quotes.service.ts: the operations in Quotes/Service.antt, and what they do in the other
-- children.
pub mod Service
pub mod Consistency
pub mod Steps
pub mod Acceptance
pub mod Vetting
