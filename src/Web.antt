-- ===== src/Web.antt =====
-- kaguya-web (web/src): one module for each part of its source.
pub mod Store
pub mod Cookies
pub mod Hex
pub mod Crates
pub mod Oidc
pub mod AuthClient
pub mod Lore
pub mod Handlers
pub mod Requests
pub mod Main
mod Tests
