-- ===== src/Settings.antt =====
-- settings/proxyLimits.ts: the bounds on proxied requests, kept in the `settings` table and cached.
pub mod ProxyLimits
pub mod Cache
pub mod Routes
mod Examples
