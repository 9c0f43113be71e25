-- ===== src/Iota.antt =====
-- identity_iota_core/src: the DID documents of the IOTA method.
pub mod Document
pub mod Did
pub mod Metadata
pub mod Differences
pub mod Chains
mod Tests
