-- ===== src/Net.antt =====
-- src/net: addresses.
pub mod Address
