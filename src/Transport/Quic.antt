-- ===== src/Transport/Quic.antt =====
-- transport/quic.go: the server and the client, the flows and streams on their session, and what is opened
-- on the way. quic-go, rtq-go and Go's TLS packages are a parameter: what their calls answer. `opened` lists what
-- the calls have opened, newest first; nothing in the two functions closes anything.
pub mod Tracers
pub mod Leaks
pub mod Flows
mod Tests
use rtq_go_endpoint.Common.{ℕ, Bool, true, false, Option, none, some, List, [], ◌∷◌, ◌++◌}
use Prim.Native.String.{String}
use rtq_go_endpoint.Logging.{Writer, System, QlogWriter, failed, unset, callback, get_qlog_writer}
use rtq_go_endpoint.RtpLog.Text.{Bytes}

-- A value, or the error.
pub data Result (E A : Type 0) : Type 0 where
  fails : E → Result E A
  gives : A → Result E A

pub record Library (E : Type 0) : Type 1 where
  pub Tracer : Type 0
  pub Key : Type 0
  pub Der : Type 0
  pub Pem : Type 0
  pub Certificate : Type 0
  -- rsa.GenerateKey, x509.CreateCertificate, the two blocks of pem.EncodeToMemory, tls.X509KeyPair
  pub generate_key : ℕ → Result E Key
  pub create_certificate : ℕ → Key → Result E Der
  pub key_block : Key → Pem
  pub certificate_block : Der → Pem
  pub x509_key_pair : Pem → Pem → Result E Certificate
  -- qlog.NewTracer, logging.NewMultiplexedTracer
  pub new_tracer : (Bytes → Option Writer) → Tracer
  pub new_multiplexed_tracer : List Tracer → Tracer

module _ {E : Type 0} (lib : Library E) where
  open lib use {
    Tracer, Certificate, generate_key, create_certificate, key_block, certificate_block,
    x509_key_pair, new_tracer, new_multiplexed_tracer,
  }

  pub record TlsConfig : Type 0 where
    pub certificates : List Certificate
    pub insecure_skip_verify : Bool
    pub next_protos : List String

  pub record QuicConfig : Type 0 where
    pub enable_datagrams : Bool
    pub tracer : Option Tracer

  -- The calls that open something: on which address, with which settings.
  pub record Network : Type 1 where
    pub Listener : Type 0
    pub Session : Type 0
    pub RtqSession : Type 0
    pub listen_addr : Bytes → TlsConfig → QuicConfig → Result E Listener
    pub accept : Listener → Result E Session
    pub dial_addr : Bytes → TlsConfig → QuicConfig → Result E Session
    pub new_session : Session → Result E RtqSession

  -- How `NewQUICServer` ends: a failure is that of the qlog writer or of a call; generateTLSConfig panics
  -- with the error of its call.
  pub data Ending (A : Type 0) : Type 0 where
    no_qlog_writer : Ending A
    failed_call : E → Ending A
    panicked_with : E → Ending A
    made : A → Ending A

  -- `panic(err)`, or on with the value
  unfoldable pub or_panic : {A B : Type 0} → Result E A → (A → Ending B) → Ending B
  or_panic (fails e) k = panicked_with e
  or_panic (gives a) k = k a

  unfoldable pub generate_tls_config : Ending TlsConfig
  unfolding or_panic
  generate_tls_config = or_panic (generate_key 1024) (λ key.
      or_panic (create_certificate 1 key) (λ cert_der.
        or_panic (x509_key_pair (certificate_block cert_der) (key_block key)) (λ tls_cert.
          made (record {
            certificates = tls_cert ∷ [];
            insecure_skip_verify = false;
            next_protos = "rtq" ∷ [];
          }))))

  abbrev pub client_tls_config : TlsConfig
  client_tls_config = record {
    certificates = [];
    insecure_skip_verify = true;
    next_protos = "rtq" ∷ [];
  }

  -- `len(t) == 0` leaves the tracer nil.
  unfoldable pub multiplexed : List Tracer → Option Tracer
  multiplexed [] = none
  multiplexed (t ∷ ts) = some (new_multiplexed_tracer (t ∷ ts))

  -- The settings of the client, from what `utils.GetQLOGWriter` gave.
  unfoldable pub client_config : List Tracer → QlogWriter → Ending QuicConfig
  unfolding multiplexed
  client_config ts failed = no_qlog_writer
  client_config ts unset = made (record { enable_datagrams = true; tracer = multiplexed ts })
  client_config ts (callback qlog_writer) = made (record {
    enable_datagrams = true;
    tracer = multiplexed ((new_tracer qlog_writer ∷ []) ++ ts);
  })

  unfoldable pub server_config : QlogWriter → Ending QuicConfig
  server_config failed = no_qlog_writer
  server_config unset = made (record { enable_datagrams = true; tracer = none })
  server_config (callback qlog_writer) =
      made (record { enable_datagrams = true; tracer = some (new_tracer qlog_writer) })

  module _ (net : Network) where
    open net use {Listener, Session, RtqSession, listen_addr, accept, dial_addr, new_session}

    pub record Quic : Type 0 where
      pub rtq_session : RtqSession
      pub quic_session : Session

    pub data Opened : Type 0 where
      a_listener : Listener → Opened
      a_session : Session → Opened
      an_rtq_session : RtqSession → Opened

    pub record Made : Type 0 where
      pub opened : List Opened
      pub ending : Ending Quic

    ends : List Opened → Ending Quic → Made
    ends os e = record { opened = os; ending = e }

    -- A call that opens something: its error ends the function.
    unfoldable pub opening :
        {A : Type 0} → (A → Opened) → List Opened → Result E A → (A → List Opened → Made) → Made
    unfolding ends
    opening note os (fails e) k = ends os (failed_call e)
    opening note os (gives a) k = k a (note a ∷ os)

    unfoldable pub on_session : Session → List Opened → Made
    unfolding opening ends
    on_session s os =
        opening an_rtq_session os (new_session s)
          (λ r os'. ends os' (made (record { rtq_session = r; quic_session = s })))

    -- What came before, or on with its value.
    unfoldable pub configured : {A : Type 0} → Ending A → (A → Made) → Made
    unfolding ends
    configured no_qlog_writer k = ends [] no_qlog_writer
    configured (failed_call e) k = ends [] (failed_call e)
    configured (panicked_with e) k = ends [] (panicked_with e)
    configured (made a) k = k a

    unfoldable pub new_quic_server : System → Bytes → Made
    unfolding configured on_session opening
    new_quic_server w addr = configured (server_config (get_qlog_writer w)) (λ quic_conf.
        configured generate_tls_config (λ tls.
          opening a_listener [] (listen_addr addr tls quic_conf)
            (λ listener os. opening a_session os (accept listener) on_session)))

    unfoldable pub new_quic_client : System → Bytes → List Tracer → Made
    unfolding configured on_session opening
    new_quic_client w addr ts =
        configured (client_config ts (get_qlog_writer w)) (λ quic_conf.
          opening a_session [] (dial_addr addr client_tls_config quic_conf) on_session)
