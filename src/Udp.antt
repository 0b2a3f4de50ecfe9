-- ===== src/Udp.antt =====
-- The programs that send datagrams: socket/exmaple/UDP and socket/spread_method.
pub mod Echo
pub mod Client
pub mod Finder
pub mod Broadcast
mod Tests
