-- ===== src/Discovery.antt =====
-- crates/openplay-discovery: the receivers that mDNS reports.
pub mod Address
pub mod Record
