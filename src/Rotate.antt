-- ===== src/Rotate.antt =====
-- api/rotate.ts: one-time links by which an agent gets a new secret for its role.
pub mod Hits
pub mod Tokens
mod Links
mod Exchange
mod Spent
mod OneShot
mod Outcomes
mod Examples
