-- ===== src/Policy.antt =====
-- policy/engine.ts: glob rules, the engine that holds the policies, and the decision.
pub mod Glob
pub mod Engine
pub mod Check
pub mod Durable
pub mod Operations
pub mod Invariant
pub mod Reachable
mod Examples
