-- ===== src/Core.antt =====
-- The crate crates/bind9-sdk-core: names, record data, records, code points, zones.
pub mod Domain
pub mod Rdata
pub mod Record
pub mod Protocol
pub mod Transfer
pub mod Tsig
pub mod Update
pub mod Zone
