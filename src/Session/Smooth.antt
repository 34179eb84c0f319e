-- ===== src/Session/Smooth.antt =====
-- main.go: what `send` and `receive` open and answer when no call fails.
use rtq_go_endpoint.Common.{
  Bool, true, false, Option, none, some, List, [], ◌∷◌, ◌++◌, ◌≡◌, refl, ◌&&◌, not, if◌then◌else◌,
  Run, returns, panics, failed_assertion,
}
use rtq_go_endpoint.Session.{
  Transport, quic, udp, other_transport, Controller, nocc, scream, scream_infer, naive_adaption,
  other_controller, Resource, listener, connection, the_receiver, session, write_flow, read_flow,
  stream_log, stream_context, rtcp_in_log, rtcp_out_log, rtp_in_log, rtp_out_log, cc_log,
  the_sender, Failure, unknown_transport, World, Finish, pure, finishing,
}
use rtq_go_endpoint.Session.Send.{
  SendArguments, send_stream, send_transport, configure, send_body, send,
}
use rtq_go_endpoint.Session.Receive.{
  receive_stream, receive_transport, configure_receiver, receive_body, receive,
}

-- The world in which no call fails and every log file opens.
abbrev pub smooth : {E : Type 0} → Bool → Finish E → World E
smooth acking finish = record {
  fails = λ c. none;
  quic_is_acking = acking;
  finish = finish;
  log_opens = λ r. true;
}

-- Whether the arrival of packets must be reported to the sender.
abbrev pub needs_reports : Controller → Bool
needs_reports scream_infer = true
needs_reports nocc = false
needs_reports scream = false
needs_reports naive_adaption = false
needs_reports other_controller = false

-- The log of a controller that can run on the sender.
abbrev pub controller_logs : Controller → List Resource
controller_logs nocc = []
controller_logs scream = cc_log ∷ []
controller_logs scream_infer = cc_log ∷ []
controller_logs naive_adaption = cc_log ∷ []
controller_logs other_controller = []

-- What `-stream` opens; it has an effect over QUIC only.
abbrev pub stream_resources : Transport → Bool → List Resource
stream_resources quic true = stream_context ∷ stream_log ∷ []
stream_resources quic false = []
stream_resources udp b = []
stream_resources other_transport b = []

-- The error that ends a run in which no call fails, if one does.
abbrev pub answer : {E : Type 0} → Transport → Finish E → Option (Failure E)
answer other_transport finish = some unknown_transport
answer quic finish = finishing finish
answer udp finish = finishing finish

-- What the transport opens for its session.
abbrev pub client_resources : Transport → List Resource
client_resources quic = session ∷ connection ∷ []
client_resources udp = session ∷ []
client_resources other_transport = []

abbrev pub server_resources : Transport → List Resource
server_resources quic = session ∷ connection ∷ listener ∷ []
server_resources udp = session ∷ []
server_resources other_transport = []

abbrev pub sender_opens : SendArguments → List Resource
sender_opens a = elim a.proto [ other_transport ↦ [] | quic ↦ all | udp ↦ all ]
  where
    all : List Resource
    all =
        controller_logs a.rtcc
        ++ (the_sender ∷ rtp_out_log ∷ rtcp_in_log ∷ [])
        ++ stream_resources a.proto a.stream
        ++ (read_flow ∷ write_flow ∷ client_resources a.proto)

abbrev pub receiver_opens : SendArguments → List Resource
receiver_opens a = elim a.proto [ other_transport ↦ [] | quic ↦ all | udp ↦ all ]
  where
    all : List Resource
    all =
        (the_receiver ∷ rtp_in_log ∷ rtcp_out_log ∷ [])
        ++ stream_resources a.proto a.stream
        ++ (write_flow ∷ read_flow ∷ server_resources a.proto)

abbrev pub started : {E : Type 0} → Bool → Controller → Finish E → Run (Option (Failure E))
started reports c finish =
    if needs_reports c && not reports then panics failed_assertion else returns (finishing finish)

abbrev pub sender_result : {E : Type 0} → Bool → Finish E → SendArguments → Run (Option (Failure E))
sender_result acking finish a = elim a.proto [
  | other_transport ↦ returns (some unknown_transport)
  | quic ↦ started acking a.rtcc finish
  | udp ↦ started false a.rtcc finish
]

-- When no call fails and the log files open, `send` opens what its flags ask for, and nothing for an unknown transport. It
-- panics where the controller infers feedback and the transport does not report arrivals, as UDP does
-- not; else it returns how the sender ended, or that the transport is unknown.
pub send-smooth :
    {E : Type 0} (acking : Bool) (finish : Finish E) (a : SendArguments)
    → ((send (smooth acking finish) a).opened ≡ sender_opens a)
      × ((send (smooth acking finish) a).result ≡ sender_result acking finish a)
unfolding send send_body send_transport send_stream configure
send-smooth acking finish a = by_flags a.proto a.rtcc a.stream acking
  where
    by_flags :
        (p : Transport) (c : Controller) (s acking : Bool)
        → ((send (smooth acking finish) (record { proto = p; rtcc = c; stream = s })).opened
            ≡ sender_opens (record { proto = p; rtcc = c; stream = s }))
          × ((send (smooth acking finish) (record { proto = p; rtcc = c; stream = s })).result
              ≡ sender_result acking finish (record { proto = p; rtcc = c; stream = s }))
    by_flags other_transport c s acking = (refl, refl)
    by_flags udp nocc s acking = (refl, refl)
    by_flags udp scream s acking = (refl, refl)
    by_flags udp scream_infer s acking = (refl, refl)
    by_flags udp naive_adaption s acking = (refl, refl)
    by_flags udp other_controller s acking = (refl, refl)
    by_flags quic nocc true acking = (refl, refl)
    by_flags quic nocc false acking = (refl, refl)
    by_flags quic scream true acking = (refl, refl)
    by_flags quic scream false acking = (refl, refl)
    by_flags quic scream_infer true true = (refl, refl)
    by_flags quic scream_infer true false = (refl, refl)
    by_flags quic scream_infer false true = (refl, refl)
    by_flags quic scream_infer false false = (refl, refl)
    by_flags quic naive_adaption true acking = (refl, refl)
    by_flags quic naive_adaption false acking = (refl, refl)
    by_flags quic other_controller true acking = (refl, refl)
    by_flags quic other_controller false acking = (refl, refl)

receiver-smooth :
    {E : Type 0} (acking : Bool) (finish : Finish E) (c : Controller)
    → configure_receiver (smooth acking finish) c ≡ pure tt
unfolding configure_receiver
receiver-smooth acking finish scream = refl
receiver-smooth acking finish nocc = refl
receiver-smooth acking finish scream_infer = refl
receiver-smooth acking finish naive_adaption = refl
receiver-smooth acking finish other_controller = refl

-- When no call fails and the log files open, `receive` opens what its flags ask for, whatever the controller, and returns how
-- the receiver ended, or that the transport is unknown.
pub receive-smooth :
    {E : Type 0} (acking : Bool) (finish : Finish E) (a : SendArguments)
    → ((receive (smooth acking finish) a).opened ≡ receiver_opens a)
      × ((receive (smooth acking finish) a).result ≡ returns (answer a.proto finish))
unfolding receive receive_body receive_transport receive_stream
receive-smooth acking finish a = by_flags a.proto a.rtcc a.stream
  where
    by_flags :
        (p : Transport) (c : Controller) (s : Bool)
        → ((receive (smooth acking finish) (record { proto = p; rtcc = c; stream = s })).opened
            ≡ receiver_opens (record { proto = p; rtcc = c; stream = s }))
          × ((receive (smooth acking finish) (record { proto = p; rtcc = c; stream = s })).result
              ≡ returns (answer p finish))
    by_flags other_transport c s = (refl, refl)
    by_flags udp c s = (rw (receiver-smooth acking finish c), rw (receiver-smooth acking finish c))
    by_flags quic c true =
        (rw (receiver-smooth acking finish c), rw (receiver-smooth acking finish c))
    by_flags quic c false =
        (rw (receiver-smooth acking finish c), rw (receiver-smooth acking finish c))
