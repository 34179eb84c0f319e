-- ===== src/Rtc/Sender/Setup.antt =====
-- rtc/sender.go: what `NewSender`, the `Configure…` functions and `AcceptFeedback` set up, and main.go: the
-- switch on `rtcc` in `send`. `fails` says whether the constructor of the interceptor fails; the
-- function then returns its error, which is `false` here. A started goroutine is a flag or a counter.
pub mod Sources
mod Tests
use rtq_go_endpoint.Common.{ℕ, ◌+◌, Bool, true, false, List, [], ◌∷◌, ◌++◌, if◌then◌else◌}
use rtq_go_endpoint.Scream.Ntp.{RtcpFeedback}
use rtq_go_endpoint.Session.{
  Controller, nocc, scream, scream_infer, naive_adaption, other_controller,
}

pub data Interceptor : Type 0 where
  rtp_log_interceptor : Interceptor
  scream_interceptor : Interceptor
  naive_interceptor : Interceptor

-- `defaultRTPWriterFunc` or `fbi.rtpWriterFunc`
pub data WriteRtp : Type 0 where
  default_writer : WriteRtp
  inferring_writer : WriteRtp

pub record Sender : Type 0 where
  pub write_rtp : WriteRtp
  pub rtcp_feedback : List RtcpFeedback
  pub ir : List Interceptor
  -- the goroutines: `inferFeedback` with `buffer`, `AcceptFeedback`, `runSCReAMStats`
  pub is_inferring : Bool
  pub is_accepting : Bool
  pub stats_loops : ℕ

abbrev pub new_sender : Sender
new_sender = record {
  write_rtp = default_writer;
  rtcp_feedback = [];
  ir = [];
  is_inferring = false;
  is_accepting = false;
  stats_loops = 0;
}

-- The lines that both SCReAM functions end with.
add_scream : Sender → Sender
add_scream s = record s {
  rtcp_feedback = s.rtcp_feedback ++ (record { type = "ack"; parameter = "ccfb" } ∷ []);
  ir = s.ir ++ (scream_interceptor ∷ []);
  stats_loops = s.stats_loops + 1;
}

-- The writer is replaced and the goroutines are started before the interceptor is made.
unfoldable pub configure_infering_scream_interceptor : Bool → Sender → Bool × Sender
unfolding add_scream
configure_infering_scream_interceptor fails s =
    let s' : Sender = record s { write_rtp = inferring_writer; is_inferring = true } in
    if fails then (false, s') else (true, add_scream s')

unfoldable pub configure_naive_bitrate_adaption : Bool → Sender → Bool × Sender
configure_naive_bitrate_adaption fails s =
    if fails
    then (false, s)
    else (true, record s { ir = s.ir ++ (naive_interceptor ∷ []); stats_loops = s.stats_loops + 1 })

unfoldable pub configure_scream_interceptor : Bool → Sender → Bool × Sender
unfolding add_scream
configure_scream_interceptor fails s = if fails then (false, s) else (true, add_scream s)

-- `is_nil`: whether there is no reader
unfoldable pub start_accepting : Bool → Sender → Bool × Sender
start_accepting is_nil s = if is_nil then (false, s) else (true, record s { is_accepting = true })

unfoldable pub configure_rtp_log_interceptor : Sender → Sender
configure_rtp_log_interceptor s = record s { ir = s.ir ++ (rtp_log_interceptor ∷ []) }

accept_after : Bool → Bool × Sender → Bool × Sender
accept_after is_nil (false, s) = (false, s)
accept_after is_nil (true, s) = start_accepting is_nil s

log_after : Bool × Sender → Bool × Sender
log_after (false, s) = (false, s)
log_after (true, s) = (true, configure_rtp_log_interceptor s)

-- The switch on `rtcc`, where the log of the controller could be opened and, for `scream-infer`, the
-- writer is an `AckingRTPWriter`.
choose : Controller → Bool → Bool → Sender → Bool × Sender
choose scream fails is_nil s = accept_after is_nil (configure_scream_interceptor fails s)
choose scream_infer fails is_nil s = configure_infering_scream_interceptor fails s
choose naive_adaption fails is_nil s = configure_naive_bitrate_adaption fails s
choose nocc fails is_nil s = (true, s)
choose other_controller fails is_nil s = (true, s)

unfoldable pub configure_sender : Controller → Bool → Bool → Bool × Sender
unfolding accept_after log_after choose
configure_sender rtcc fails is_nil = log_after (choose rtcc fails is_nil new_sender)
