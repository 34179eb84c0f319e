-- ===== src/Rtc/Sender/Setup/Tests.antt =====
-- rtc/sender.go with rtc/receiver.go: both ends of a session with `-cc scream`.
use rtq_go_endpoint.Common.{true, false, [], ◌∷◌}
use rtq_go_endpoint.Rtc.Sender.Setup.{
  Sender, scream_interceptor, rtp_log_interceptor, default_writer,
}

abbrev sender : Sender
sender = record {
  write_rtp = default_writer;
  rtcp_feedback = record { type = "ack"; parameter = "ccfb" } ∷ [];
  ir = scream_interceptor ∷ rtp_log_interceptor ∷ [];
  is_inferring = false;
  is_accepting = true;
  stats_loops = 1;
}
