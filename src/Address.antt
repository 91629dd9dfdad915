-- ===== src/Address.antt =====
-- auth/cidr.ts and auth/sourceIp.ts: which network a caller comes from.
pub mod Number
pub mod Cidr
pub mod Subnet
pub mod Source
pub mod Spoofing
mod Examples
