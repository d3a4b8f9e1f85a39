-- ===== src/Transfer.antt =====
-- web/features/scans/upload-transfer.ts: the upload of files in chunks.
pub mod Selection
pub mod Folders
pub mod Uploadable
pub mod Verdict
pub mod Sending
pub mod Files
pub mod Protocol
pub mod Rounds
pub mod Sent
pub mod Stored
mod SampleServer
mod Tests
