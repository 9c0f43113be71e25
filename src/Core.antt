-- ===== src/Core.antt =====
-- identity_core/src/common
pub mod OrderedSet
pub mod OneOrSet
pub mod OneOrMany
pub mod Proof
mod Tests
