-- ===== src/Session/Tests.antt =====
-- main.go: `send` and `receive` with given flags.
use rtq_go_endpoint.Common.{
  ℕ, ◌≡◌, ◌↔◌, refl, true, false, none, some, [], ◌∷◌, returns, panics, failed_assertion, Option,
}
use rtq_go_endpoint.Session.{
  Call, quic, udp, scream, scream_infer, session, write_flow, read_flow, stream_log, stream_context,
  rtcp_in_log, rtp_out_log, rtcp_out_log, rtp_in_log, cc_log, the_sender, open_session, open_writer,
  open_reader, get_stream_log, get_rtp_log, new_sender, new_receiver, get_cc_log, configure_scream,
  accept_feedback, configure_infering, configure_naive, failed, World, finishing, interrupted,
  reached_eos, accept_session, new_rtq_session, listener, connection, the_receiver,
}
use rtq_go_endpoint.Session.Send.{SendArguments, send_transport, send_body, send}
use rtq_go_endpoint.Session.Receive.{receive}
use rtq_go_endpoint.Session.Success.Sending.{Ready, send-succeeds_iff}
use rtq_go_endpoint.Session.Success.Receiving
use rtq_go_endpoint.Session.Success.Receiving.{receive-succeeds_iff}
use rtq_go_endpoint.Session.Smooth.{smooth, send-smooth, receive-smooth}

-- The reader cannot be opened; the error is 7.
abbrev no_reader : Call → Option ℕ
no_reader open_reader = some 7
no_reader open_session = none
no_reader accept_session = none
no_reader new_rtq_session = none
no_reader open_writer = none
no_reader get_stream_log = none
no_reader get_rtp_log = none
no_reader new_sender = none
no_reader new_receiver = none
no_reader get_cc_log = none
no_reader configure_scream = none
no_reader accept_feedback = none
no_reader configure_infering = none
no_reader configure_naive = none

abbrev unreadable : World ℕ
unreadable = record {
  fails = no_reader;
  quic_is_acking = true;
  finish = reached_eos;
  log_opens = λ r. true;
}

abbrev over_quic : SendArguments
over_quic = record { proto = quic; rtcc = scream; stream = true }

abbrev inferring_over_udp : SendArguments
inferring_over_udp = record { proto = udp; rtcc = scream_infer; stream = false }

send-unreadable : send unreadable over_quic ≡ record {
  opened = write_flow ∷ session ∷ connection ∷ [];
  closed = write_flow ∷ session ∷ [];
  result = returns (some (failed open_reader 7));
}
unfolding send send_body send_transport
send-unreadable = refl

send-succeeds_iff_example :
    (send unreadable over_quic).result ≡ returns none
    ↔ (Ready unreadable over_quic × (finishing {E = ℕ} reached_eos ≡ none))
send-succeeds_iff_example = send-succeeds_iff unreadable over_quic

receive-succeeds_iff_run :
    (receive unreadable over_quic).result ≡ returns none
    ↔ (Receiving.Ready unreadable over_quic × (finishing {E = ℕ} reached_eos ≡ none))
receive-succeeds_iff_run = receive-succeeds_iff unreadable over_quic

send-smooth_run :
    ((send (smooth {E = ℕ} true interrupted) inferring_over_udp).opened
      ≡ cc_log ∷ the_sender ∷ rtp_out_log ∷ rtcp_in_log ∷ read_flow ∷ write_flow ∷ session ∷ [])
    × ((send (smooth {E = ℕ} true interrupted) inferring_over_udp).result ≡ panics failed_assertion)
send-smooth_run = send-smooth true interrupted inferring_over_udp

receive-smooth_run :
    ((receive (smooth {E = ℕ} true reached_eos) over_quic).opened
      ≡ the_receiver ∷ rtp_in_log ∷ rtcp_out_log ∷ stream_context ∷ stream_log ∷ write_flow
        ∷ read_flow ∷ session ∷ connection ∷ listener ∷ [])
    × ((receive (smooth {E = ℕ} true reached_eos) over_quic).result ≡ returns none)
receive-smooth_run = receive-smooth true reached_eos over_quic
