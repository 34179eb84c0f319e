-- ===== src/Rtc.antt =====
-- rtc: the sender and the receiver, and the feedback that the sender infers for itself.
pub mod FeedbackInferer
pub mod Writers
pub mod Sender
pub mod Receiver
pub mod Ending
