-- ===== src/Dynamic.antt =====
-- Credentials that providers make for one lease: src/dynamic/.
pub mod Grants
pub mod Sealing
pub mod Saving
pub mod Minting
pub mod Manager
pub mod Keys
mod Revoking
mod Reaping
mod Configs
mod Examples
