-- ===== src/Review.antt =====
-- web/features/games/review-approval.ts: the approval of the games that wait for a review.
pub mod Judging
pub mod Batch
pub mod Approval
pub mod Publishable
pub mod Counts
pub mod Between
pub mod Approved
pub mod Snapshot
mod Tests
