-- ===== src/Net.antt =====
-- The crate crates/bind9-sdk-net: the rndc channel, zone transfers and the sender of updates.
pub mod Rndc
pub mod Wire
pub mod Transfer
pub mod NsUpdate
