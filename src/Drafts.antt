-- ===== src/Drafts.antt =====
-- web/features/player/save-drafts.ts and draft-upload.ts: saves that are not uploaded yet.
pub mod Identity
pub mod Paths
pub mod Keys
pub mod Leaves
pub mod Renewal
pub mod Store
pub mod Kept
pub mod Others
pub mod Uploaded
pub mod Listing
mod Tests
