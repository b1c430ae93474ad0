-- ===== src/Auth.antt =====
-- kaguya-auth (auth/src): one module for each of its source files, and one for the handlers.
pub mod Sessions
pub mod Store
pub mod Claims
pub mod Crates
pub mod Verify
pub mod Keys
pub mod Jwks
pub mod Device
pub mod Server
pub mod Rebac
pub mod Service
pub mod Requests
pub mod Stubs
pub mod Admin
pub mod Main
pub mod Tests
