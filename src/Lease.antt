-- ===== src/Lease.antt =====
-- lease/manager.ts: leases on secrets, and the requests that a human approves or denies.
pub mod State
pub mod Manager
pub mod Decisions
pub mod Life
pub mod Rows
pub mod Inserts
pub mod Updates
pub mod Sweeps
pub mod History
pub mod Closing
pub mod Finding
pub mod Reaping
pub mod Approval
pub mod Requests
pub mod Examples
