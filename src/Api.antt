-- ===== src/Api.antt =====
-- The handlers of src/api/ over the components.
pub mod Leases
pub mod Checkout
mod Values
mod Release
mod Decisions
mod Examples
pub mod Secrets
pub mod Writes
mod Reading
