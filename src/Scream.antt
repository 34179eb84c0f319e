-- ===== src/Scream.antt =====
-- internal/scream: the SCReAM interceptors of the sender and of the receiver.
pub mod RtpQueue
pub mod Ssrc
pub mod Ntp
pub mod Sender
pub mod Receiver
