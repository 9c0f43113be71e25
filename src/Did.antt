-- ===== src/Did.antt =====
-- identity_did/src: DID URLs, verification methods, services and the DID document that holds them.
pub mod Url
pub mod Query
pub mod Method
pub mod Service
pub mod Document
pub mod Editing
pub mod Mapping
pub mod Builder
pub mod Building
pub mod Verify
pub mod Signing
pub mod Revocation
pub mod Samples
mod Tests
