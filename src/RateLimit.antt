-- ===== src/RateLimit.antt =====
-- rateLimits/limiter.ts and rateLimits/rateLimitValidation.ts: the limits on proxy traffic.
pub mod Limiter
pub mod History
pub mod Secrets
pub mod Enforcement
pub mod Retry
pub mod Validation
mod Examples
