-- ===== src/Net.antt =====
-- The packet headers of ietf/.
pub mod Udp
pub mod Ip
pub mod Rtp
pub mod Rtcp
mod Tests
