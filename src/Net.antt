-- ===== src/Net.antt =====
-- kernel/src/net: the network stack.
pub mod Checksum
pub mod Tcp
pub mod Udp
