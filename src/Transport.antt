-- ===== src/Transport.antt =====
-- transport: the flows that the sender and the receiver read and write.
pub mod Udp
pub mod Quic
