-- ===== src/Chain.antt =====
-- identity_iota_client/src: the chains of documents and of differences that are built from the
-- messages of a DID, in whatever order they are received.
pub mod Index
pub mod Milestone
pub mod Documents
pub mod Integration
pub mod Differences
pub mod History
mod Tests
