-- ===== src/Session/Receive.antt =====
-- main.go: `receive`.
use rtq_go_endpoint.Common.{Bool, true, false, Option}
use rtq_go_endpoint.Session.{
  Transport, quic, udp, other_transport, Controller, nocc, scream, scream_infer, naive_adaption,
  other_controller, session, write_flow, read_flow, stream_log, stream_context, rtcp_out_log,
  rtp_in_log, open_session, open_writer, open_reader, get_stream_log, get_rtp_log, new_receiver,
  configure_scream, Failure, unknown_transport, World, Task, ◌>>◌, pure, stop, open_log,
  defer_close, acquire, opens, open_rtq, listener, the_receiver, accept_session, try, Outcome,
  finishing,
}
use rtq_go_endpoint.Session.Send.{SendArguments, leave, empty_frame}

module _ {E : Type 0} (w : World E) where
  unfoldable pub receive_stream : Bool → Task E (Unit {0})
  receive_stream true = do try w get_stream_log; acquire stream_log; acquire stream_context
  receive_stream false = pure tt

  -- The switch on `proto`: here the reader comes before the writer.
  unfoldable pub receive_transport : Transport → Bool → Task E (Unit {0})
  unfolding receive_stream
  receive_transport quic stream = do
    try w open_session
    opens listener
    try w accept_session
    open_rtq w
    try w open_reader
    acquire read_flow
    try w open_writer
    acquire write_flow
    receive_stream stream
  receive_transport udp stream = do
    try w open_session
    acquire session
    try w open_reader
    acquire read_flow
    try w open_writer
    acquire write_flow
  receive_transport other_transport stream = stop unknown_transport

  -- `if rtcc == SCREAM { … }`: no other controller needs feedback.
  unfoldable pub configure_receiver : Controller → Task E (Unit {0})
  configure_receiver scream = try w configure_scream
  configure_receiver nocc = pure tt
  configure_receiver scream_infer = pure tt
  configure_receiver naive_adaption = pure tt
  configure_receiver other_controller = pure tt

  unfoldable pub receive_body : SendArguments → Task E (Option (Failure E))
  unfolding receive_transport configure_receiver
  receive_body a = do
    receive_transport a.proto a.stream
    try w get_rtp_log
    open_log w rtcp_out_log
    open_log w rtp_in_log
    defer_close w rtcp_out_log
    defer_close w rtp_in_log
    try w new_receiver
    opens the_receiver
    configure_receiver a.rtcc
    pure (finishing w.finish)

unfoldable pub receive : {E : Type 0} → World E → SendArguments → Outcome E
unfolding receive_body
receive w a = leave (receive_body w a empty_frame)
