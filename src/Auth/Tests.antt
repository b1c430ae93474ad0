-- ===== src/Auth/Tests.antt =====
-- Runs of kaguya-auth on concrete tables, tokens and answers.
pub mod Tables
mod Beside
mod Store
mod Sessions
mod Device
mod Reload
mod Claims
pub mod Toy
mod Calls
mod Guards
mod Start
mod Slow
mod Flight
mod Idp
mod Minting
mod Published
