-- ===== src/Session/Send.antt =====
-- main.go: `send`.
use rtq_go_endpoint.Common.{
  Bool, true, false, Option, some, [], returns, panics, failed_assertion, if◌then◌else◌,
}
use rtq_go_endpoint.Session.{
  Transport, quic, udp, other_transport, Controller, nocc, scream, scream_infer, naive_adaption,
  other_controller, session, write_flow, read_flow, stream_log, stream_context, rtcp_in_log,
  rtp_out_log, cc_log, the_sender, open_session, open_writer, open_reader, get_stream_log,
  get_rtp_log, new_sender, get_cc_log, configure_scream, accept_feedback, configure_infering,
  configure_naive, Failure, unknown_transport, failed_to_configure_naive, World, Step, goes, stops,
  panicking, Frame, Task, ◌>>=◌, ◌>>◌, pure, stop, panic, open_log, defer_close, acquire, open_rtq,
  check, try, Outcome, finishing,
}

-- The flags that decide the control flow.
pub record SendArguments : Type 0 where
  pub proto : Transport
  pub rtcc : Controller
  pub stream : Bool

module _ {E : Type 0} (w : World E) where
  -- The goroutine that `-stream` starts runs on its own.
  unfoldable pub send_stream : Bool → Task E (Unit {0})
  send_stream true = do try w get_stream_log; acquire stream_log; acquire stream_context
  send_stream false = pure tt

  -- The switch on `proto`. The result says whether the writer is an `AckingRTPWriter`: that of
  -- transport.UDP has no `WriteRTPNotify`.
  unfoldable pub send_transport : Transport → Bool → Task E Bool
  unfolding send_stream
  send_transport quic stream = do
    try w open_session
    open_rtq w
    try w open_writer
    acquire write_flow
    try w open_reader
    acquire read_flow
    send_stream stream
    pure w.quic_is_acking
  send_transport udp stream = do
    try w open_session
    acquire session
    try w open_writer
    acquire write_flow
    try w open_reader
    acquire read_flow
    pure false
  send_transport other_transport stream = stop unknown_transport

  -- The switch on `rtcc`; an unknown controller is only logged. `w.(rtc.AckingRTPWriter)` panics on a
  -- writer that is none.
  unfoldable pub configure : Controller → Bool → Task E (Unit {0})
  configure scream acking = do
    try w get_cc_log
    acquire cc_log
    try w configure_scream
    try w accept_feedback
  configure scream_infer acking = do
    try w get_cc_log
    acquire cc_log
    (if acking then pure tt else panic failed_assertion)
    try w configure_infering
  configure naive_adaption acking = do
    try w get_cc_log
    acquire cc_log
    check (λ _. failed_to_configure_naive) (w.fails configure_naive)
  configure nocc acking = pure tt
  configure other_controller acking = pure tt

  unfoldable pub send_body : SendArguments → Task E (Option (Failure E))
  unfolding send_transport configure
  send_body a = do
    acking ← send_transport a.proto a.stream
    try w get_rtp_log
    open_log w rtcp_in_log
    open_log w rtp_out_log
    defer_close w rtcp_in_log
    defer_close w rtp_out_log
    try w new_sender
    acquire the_sender
    configure a.rtcc acking
    pure (finishing w.finish)

-- The way out of a function: the deferred calls run.
abbrev pub leave : {E : Type 0} → Step E (Option (Failure E)) × Frame → Outcome E
leave (goes r, f) = record { opened = f.opened; closed = f.deferred; result = returns r }
leave (stops e, f) = record { opened = f.opened; closed = f.deferred; result = returns (some e) }
leave (panicking p, f) = record { opened = f.opened; closed = f.deferred; result = panics p }

abbrev pub empty_frame : Frame
empty_frame = record { opened = []; deferred = [] }

unfoldable pub send : {E : Type 0} → World E → SendArguments → Outcome E
unfolding send_body
send w a = leave (send_body w a empty_frame)
