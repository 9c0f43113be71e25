-- ===== src/Diff.antt =====
-- identity_diff/src: differences between two values, that are sent in place of the new value and
-- merged into the old one. `Interface` is the trait (traits.rs, error.rs); the children implement
-- it for the types that the crate covers.
pub mod Interface
pub mod Texts
pub mod Options
pub mod Vecs
pub mod Maps
pub mod Sets
pub mod Collections
pub mod Parsed
pub mod Sameness
pub mod Methods
pub mod Services
pub mod Documents
pub mod Samples
mod Tests
