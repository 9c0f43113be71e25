-- ===== src/Stardust.antt =====
-- identity_stardust/src: DIDs and documents that are kept in the state metadata of an alias output.
pub mod Did
pub mod Conversion
pub mod Metadata
mod Tests
mod PackingTests
