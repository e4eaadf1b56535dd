-- ===== src/Core/Record/Strategy.antt =====
-- `SerialStrategy::next` in the order of serials (crates/bind9-sdk-core/src/record.rs).
