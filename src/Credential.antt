-- ===== src/Credential.antt =====
-- identity_credential/src: verifiable credentials, presentations of them, and their validation.
pub mod Data
pub mod Builder
pub mod Structure
pub mod Status
pub mod Validator
pub mod Presentation
pub mod Samples
mod Tests
