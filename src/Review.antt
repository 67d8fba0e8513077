-- ===== src/Review.antt =====
-- The review of published weeks (src/review).
pub mod Publication
pub mod Decisions
