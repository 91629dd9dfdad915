-- ===== src/Gates.antt =====
-- api/proxyGates.ts: the gates that a proxied call passes before it may use secrets.
pub mod Enforce
pub mod Approval
pub mod Coverage
mod Examples
