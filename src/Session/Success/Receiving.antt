-- ===== src/Session/Success/Receiving.antt =====
-- main.go: exactly when `receive` returns no error.
use rtq_go_endpoint.Common.{Bool, true, false, none, List, [], ◌∷◌, ◌≡◌, ◌↔◌, inr, returns}
use rtq_go_endpoint.Session.{
  Transport, quic, udp, other_transport, Controller, nocc, scream, scream_infer, naive_adaption,
  other_controller, session, write_flow, read_flow, stream_log, stream_context, rtcp_out_log,
  rtp_in_log, Call, open_session, accept_session, new_rtq_session, listener, the_receiver,
  open_writer, open_reader, get_stream_log, get_rtp_log, new_receiver, configure_scream, World,
  finishing,
}
use rtq_go_endpoint.Session.Send.{SendArguments}
use rtq_go_endpoint.Session.Receive.{
  receive_stream, receive_transport, configure_receiver, receive_body, receive,
}
use rtq_go_endpoint.Session.Success.{
  IsKnown, NoFails, NoFail, try_last, also, then_pure, acquire_last, leave-returns_none_iff,
  GivesIf, pure-GivesIf, weaken-GivesIf, bind-GivesIf, opens_then, open_rtq_then, try_then,
  acquire_then, open_log_then, defer_close_then,
}

-- The calls that are made for the transport and for the controller.
unfoldable pub transport_calls : Transport → Bool → List Call
transport_calls quic true =
    open_session ∷ accept_session ∷ new_rtq_session ∷ open_reader ∷ open_writer ∷ get_stream_log
    ∷ []
transport_calls quic false =
    open_session ∷ accept_session ∷ new_rtq_session ∷ open_reader ∷ open_writer ∷ []
transport_calls udp stream = open_session ∷ open_reader ∷ open_writer ∷ []
transport_calls other_transport stream = []

unfoldable pub controller_calls : Controller → List Call
controller_calls scream = configure_scream ∷ []
controller_calls scream_infer = []
controller_calls naive_adaption = []
controller_calls nocc = []
controller_calls other_controller = []

module _ {E : Type 0} (w : World E) where
  receive_transport-GivesIf :
      (proto : Transport) (stream : Bool)
      → GivesIf
          (IsKnown proto × NoFails w (transport_calls proto stream))
          tt
          (receive_transport w proto stream)
  unfolding receive_transport receive_stream transport_calls
  receive_transport-GivesIf quic true = also (
      try_then w open_session (
        opens_then listener (
          try_then w accept_session (
            open_rtq_then w (
              try_then w open_reader (
                acquire_then read_flow (
                  try_then w open_writer (
                    acquire_then write_flow (
                      try_then w get_stream_log
                        (acquire_then stream_log (acquire_last stream_context)))))))))))
  receive_transport-GivesIf quic false = also (
      try_then w open_session (
        opens_then listener (
          try_then w accept_session (
            open_rtq_then w (
              try_then w open_reader (
                acquire_then read_flow
                  (try_then w open_writer (acquire_then write_flow (pure-GivesIf tt)))))))))
  receive_transport-GivesIf udp stream = also (
      try_then w open_session (
        acquire_then session (
          try_then w open_reader
            (acquire_then read_flow (try_then w open_writer (acquire_last write_flow))))))
  receive_transport-GivesIf other_transport stream = record { at = λ f. inr ((λ h. h.0), tt) }

  configure_receiver-GivesIf :
      (rtcc : Controller)
      → GivesIf (NoFails w (controller_calls rtcc)) tt (configure_receiver w rtcc)
  unfolding configure_receiver controller_calls
  configure_receiver-GivesIf scream = try_last w configure_scream
  configure_receiver-GivesIf scream_infer = pure-GivesIf tt
  configure_receiver-GivesIf naive_adaption = pure-GivesIf tt
  configure_receiver-GivesIf nocc = pure-GivesIf tt
  configure_receiver-GivesIf other_controller = pure-GivesIf tt

  -- Everything that must go well before the receiver is started.
  abbrev pub Ready : SendArguments → Type 0
  Ready a =
      IsKnown a.proto
      × (NoFails w (transport_calls a.proto a.stream)
          × (NoFail w get_rtp_log
              × ((w.log_opens rtcp_out_log ≡ true)
                  × ((w.log_opens rtp_in_log ≡ true)
                      × (NoFail w new_receiver × NoFails w (controller_calls a.rtcc))))))

  receive_body-GivesIf :
      (a : SendArguments) → GivesIf (Ready a) (finishing w.finish) (receive_body w a)
  unfolding receive_body
  receive_body-GivesIf a =
      weaken-GivesIf ((λ h. (h.0.0, (h.0.1, h.1))), (λ h. ((h.0, h.1.0), h.1.1)))
        (bind-GivesIf (receive_transport w a.proto a.stream) _
          (receive_transport-GivesIf a.proto a.stream)
          (try_then w get_rtp_log (
            open_log_then w rtcp_out_log (
              open_log_then w rtp_in_log (
                defer_close_then w rtcp_out_log (
                  defer_close_then w rtp_in_log (
                    try_then w new_receiver (
                      opens_then the_receiver (
                        then_pure (configure_receiver w a.rtcc) (finishing w.finish)
                          (configure_receiver-GivesIf a.rtcc))))))))))

  -- `receive` returns no error, and does not panic, if and only if each of these holds: the transport is known; no
  -- call fails that is made for the transport, the RTP logs and the receiver, and for SCReAM; both files of
  -- the RTP log are there; and the pipeline's goroutine ends without an error.
  pub receive-succeeds_iff :
      (a : SendArguments)
      → (receive w a).result ≡ returns none ↔ (Ready a × (finishing w.finish ≡ none))
  unfolding receive
  receive-succeeds_iff a = leave-returns_none_iff (receive_body w a) (receive_body-GivesIf a)
