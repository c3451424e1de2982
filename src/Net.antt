-- ===== src/Net.antt =====
-- src/kernel/net: the network.
pub mod Tcp
