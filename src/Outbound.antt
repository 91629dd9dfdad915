-- ===== src/Outbound.antt =====
-- lease/webhook.ts and security/ssrf.ts: what the server sends out, and to whom.
pub mod Webhook
mod Private
pub mod Paths
mod Examples
