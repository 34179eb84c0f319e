-- ===== src/Session/Success/Sending.antt =====
-- main.go: exactly when `send` returns no error.
use rtq_go_endpoint.Common.{
  Bool, true, false, none, List, [], ◌∷◌, ◌≡◌, ◌↔◌, inl, inr, refl, returns, failed_assertion,
  if◌then◌else◌,
}
use rtq_go_endpoint.Session.{
  Transport, quic, udp, other_transport, Controller, nocc, scream, scream_infer, naive_adaption,
  other_controller, session, write_flow, read_flow, stream_log, stream_context, cc_log, the_sender,
  rtcp_in_log, rtp_out_log, Call, open_session, new_rtq_session, open_writer, open_reader,
  get_stream_log, get_rtp_log, new_sender, get_cc_log, configure_scream, accept_feedback,
  configure_infering, configure_naive, failed_to_configure_naive, World, pure, panic, try,
  finishing,
}
use rtq_go_endpoint.Session.Send.{
  SendArguments, send_stream, send_transport, configure, send_body, send,
}
use rtq_go_endpoint.Session.Success.{
  IsKnown, NoFails, try_last, also, then_pure, acquire_last, leave-returns_none_iff, GivesIf,
  pure-GivesIf, weaken-GivesIf, bind-GivesIf, open_rtq_then, check-GivesIf, NoFail, try_then,
  acquire_then, open_log_then, defer_close_then,
}

-- The calls that are made for the transport and for the controller.
unfoldable pub transport_calls : Transport → Bool → List Call
transport_calls quic true =
    open_session ∷ new_rtq_session ∷ open_writer ∷ open_reader ∷ get_stream_log ∷ []
transport_calls quic false = open_session ∷ new_rtq_session ∷ open_writer ∷ open_reader ∷ []
transport_calls udp stream = open_session ∷ open_writer ∷ open_reader ∷ []
transport_calls other_transport stream = []

unfoldable pub controller_calls : Controller → List Call
controller_calls scream = get_cc_log ∷ configure_scream ∷ accept_feedback ∷ []
controller_calls scream_infer = get_cc_log ∷ configure_infering ∷ []
controller_calls naive_adaption = get_cc_log ∷ configure_naive ∷ []
controller_calls nocc = []
controller_calls other_controller = []

-- Whether the writer suits the controller: only QUIC's can report arrivals.
abbrev pub Suits : Controller → Bool → Type 0
Suits scream_infer acking = acking ≡ true
Suits scream acking = Unit
Suits naive_adaption acking = Unit
Suits nocc acking = Unit
Suits other_controller acking = Unit

abbrev pub is_acking : Transport → Bool → Bool
is_acking quic b = b
is_acking udp b = false
is_acking other_transport b = false

module _ {E : Type 0} (w : World E) where
  asserted :
      (b : Bool)
      → GivesIf
          (b ≡ true)
          tt
          (if b then pure {E = E} tt else panic {E = E} {A = Unit {0}} failed_assertion)
  asserted true = record { at = λ f. inl (refl, (f, refl)) }
  asserted false = record { at = λ f. inr ((λ h. cc h), tt) }

  send_transport-GivesIf :
      (proto : Transport) (stream : Bool)
      → GivesIf
          (IsKnown proto × NoFails w (transport_calls proto stream))
          (is_acking proto w.quic_is_acking)
          (send_transport w proto stream)
  unfolding send_transport send_stream transport_calls
  send_transport-GivesIf quic true = also (
      try_then w open_session (
        open_rtq_then w (
          try_then w open_writer (
            acquire_then write_flow (
              try_then w open_reader (
                acquire_then read_flow (
                  then_pure (send_stream w true) w.quic_is_acking (
                    try_then w get_stream_log
                      (acquire_then stream_log (acquire_last stream_context))))))))))
  send_transport-GivesIf quic false = also (
      try_then w open_session (
        open_rtq_then w (
          try_then w open_writer (
            acquire_then write_flow (
              try_then w open_reader (
                acquire_then read_flow
                  (then_pure (send_stream w false) w.quic_is_acking (pure-GivesIf tt))))))))
  send_transport-GivesIf udp stream = also (
      try_then w open_session (
        acquire_then session (
          try_then w open_writer (
            acquire_then write_flow
              (try_then w open_reader (acquire_then read_flow (pure-GivesIf false)))))))
  send_transport-GivesIf other_transport stream = record { at = λ f. inr ((λ h. h.0), tt) }

  configure-GivesIf :
      (rtcc : Controller) (acking : Bool)
      → GivesIf (Suits rtcc acking × NoFails w (controller_calls rtcc)) tt (configure w rtcc acking)
  unfolding configure controller_calls
  configure-GivesIf scream acking = also (
      try_then w get_cc_log
        (acquire_then cc_log (try_then w configure_scream (try_last w accept_feedback))))
  configure-GivesIf scream_infer acking =
      weaken-GivesIf ((λ h. (h.1.0, (h.0, h.1.1))), (λ h. (h.1.0, (h.0, h.1.1))))
        (try_then w get_cc_log (
          acquire_then cc_log (
            bind-GivesIf (if acking then pure tt else panic failed_assertion)
              (λ _. try w configure_infering) (asserted acking) (try_last w configure_infering))))
  configure-GivesIf naive_adaption acking = also (
      try_then w get_cc_log (
        acquire_then cc_log (
          weaken-GivesIf ((λ h. (h, tt)), (λ h. h.0))
            (check-GivesIf (λ _. failed_to_configure_naive) (w.fails configure_naive)))))
  configure-GivesIf nocc acking = also (pure-GivesIf tt)
  configure-GivesIf other_controller acking = also (pure-GivesIf tt)

  -- Everything that must go well before the sender is started.
  abbrev pub Ready : SendArguments → Type 0
  Ready a =
      IsKnown a.proto
      × (NoFails w (transport_calls a.proto a.stream)
          × (NoFail w get_rtp_log
              × ((w.log_opens rtcp_in_log ≡ true)
                  × ((w.log_opens rtp_out_log ≡ true)
                      × (NoFail w new_sender
                          × (Suits a.rtcc (is_acking a.proto w.quic_is_acking)
                              × NoFails w (controller_calls a.rtcc)))))))

  send_body-GivesIf : (a : SendArguments) → GivesIf (Ready a) (finishing w.finish) (send_body w a)
  unfolding send_body
  send_body-GivesIf a =
      let acking = is_acking a.proto w.quic_is_acking in
      weaken-GivesIf ((λ h. (h.0.0, (h.0.1, h.1))), (λ h. ((h.0, h.1.0), h.1.1)))
        (bind-GivesIf (send_transport w a.proto a.stream) _
          (send_transport-GivesIf a.proto a.stream)
          (try_then w get_rtp_log (
            open_log_then w rtcp_in_log (
              open_log_then w rtp_out_log (
                defer_close_then w rtcp_in_log (
                  defer_close_then w rtp_out_log (
                    try_then w new_sender (
                      acquire_then the_sender (
                        then_pure (configure w a.rtcc acking) (finishing w.finish)
                          (configure-GivesIf a.rtcc acking))))))))))

  -- `send` returns no error, and does not panic, if and only if each of these holds: the transport is known; no call
  -- fails that is made for the transport, the RTP logs, the sender and the controller; both files of the
  -- RTP log are there; the writer suits the controller; and the pipeline's goroutine ends without an error.
  pub send-succeeds_iff :
      (a : SendArguments)
      → (send w a).result ≡ returns none ↔ (Ready a × (finishing w.finish ≡ none))
  unfolding send
  send-succeeds_iff a = leave-returns_none_iff (send_body w a) (send_body-GivesIf a)
