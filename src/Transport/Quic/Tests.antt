-- ===== src/Transport/Quic/Tests.antt =====
-- transport/quic.go: runs of the server, the client and a flow.
use rtq_go_endpoint.Common.{ℕ, ◌+◌, ◌==◌, if◌then◌else◌, true, List, [], ◌∷◌, ◌++◌, ◌≡◌, refl}
use rtq_go_endpoint.Logging.{System, there, get_qlog_writer, has_directory}
use rtq_go_endpoint.RtpLog.Text.{Bytes}
use rtq_go_endpoint.Transport.Quic.{
  fails, gives, Library, Network, made, failed_call, Quic, a_listener, a_session, new_quic_server,
  new_quic_client, generate_tls_config, client_config, server_config,
}
use rtq_go_endpoint.Transport.Quic.Flows.{Session, write_rtcp}
use rtq_go_endpoint.Transport.Quic.Leaks.{ClientLeft, ServerLeft, what_stays_open}
use rtq_go_endpoint.Transport.Quic.Tracers.{
  Sinks, gathered, Traced, qlog_sinks, new_quic_client-Traced,
}

-- A tracer is the list of those who get its events; 7 is qlog.
abbrev library : Library ℕ
library = record {
  Tracer = List ℕ;
  Key = ℕ;
  Der = ℕ;
  Pem = ℕ;
  Certificate = ℕ × ℕ;
  generate_key = λ bits. gives bits;
  create_certificate = λ serial key. gives (serial + key);
  key_block = λ key. key;
  certificate_block = λ der. der;
  x509_key_pair = λ cert key. gives (cert, key);
  new_tracer = λ qlog_writer. 7 ∷ [];
  new_multiplexed_tracer = gathered (λ t. t);
}

-- Connections are made, but `rtq.NewSession` takes only those of clients.
abbrev network : Network library
network = record {
  Listener = ℕ;
  Session = ℕ;
  RtqSession = ℕ;
  listen_addr = λ addr tls conf. gives 1;
  accept = λ l. gives 2;
  dial_addr = λ addr tls conf. gives 3;
  new_session = λ s. if s == 3 then gives 4 else fails 5;
}

abbrev listeners : Sinks library
listeners = record { Sink = ℕ; sinks = λ t. t; sinks-multiplexed = λ ts. refl }

abbrev with_qlog : System
with_qlog = record {
  main_log_file = [];
  cc_log_file = [];
  stream_log_file = [];
  qlog_dir = 113 ∷ [];
  rtp_log_dir = [];
  stat = λ dir. there;
  mkdir_all = λ dir mode. true;
  create = λ path. true;
}

abbrev client : Quic library network
client = record { rtq_session = 4; quic_session = 3 }

client_made : (new_quic_client library network with_qlog [] ((8 ∷ []) ∷ [])).ending ≡ made client
unfolding new_quic_client get_qlog_writer has_directory client_config
client_made = refl

server_fails :
    new_quic_server library network with_qlog []
    ≡ record { opened = a_session 2 ∷ a_listener 1 ∷ []; ending = failed_call 5 }
unfolding new_quic_server get_qlog_writer has_directory server_config generate_tls_config
server_fails = refl

what_stays_open_example :
    ClientLeft library network with_qlog []
      ((8 ∷ []) ∷ [])
      (new_quic_client library network with_qlog [] ((8 ∷ []) ∷ []))
    × ServerLeft library network with_qlog [] (new_quic_server library network with_qlog [])
what_stays_open_example = what_stays_open library network with_qlog [] ((8 ∷ []) ∷ [])

new_quic_client-Traced_example : Traced library network listeners client [] (
    qlog_sinks library network listeners (get_qlog_writer with_qlog)
    ++ gathered (λ t. t) ((8 ∷ []) ∷ []))
new_quic_client-Traced_example =
    new_quic_client-Traced library network listeners with_qlog [] ((8 ∷ []) ∷ []) client client_made

-- A session whose flows keep nothing: its state is what was written.
abbrev wire : Session ℕ
wire = record {
  State = List Bytes;
  WriteFlow = ℕ;
  ReadFlow = ℕ;
  SendStream = ℕ;
  ReceiveStream = ℕ;
  open_write_flow = λ id s. (gives id, s);
  accept_flow = λ id s. (gives id, s);
  write = λ f bytes s. (gives 1, bytes ∷ s);
  close_session = λ s. (gives tt, s);
  accept_stream = λ s. (gives 0, s);
  open_stream = λ s. (gives 0, s);
}

unwritten : write_rtcp wire (record { write_flow = 0 }) (fails 9) [] ≡ (fails 9, [])
unfolding write_rtcp
unwritten = refl
