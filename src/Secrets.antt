-- ===== src/Secrets.antt =====
-- secrets/engine.ts: values under envelope encryption, their versions, and the change of the key.
pub mod Vault
pub mod Engine
pub mod Rekey
pub mod Tables
pub mod Reads
pub mod Rewrapping
pub mod Rotation
pub mod Examples
