-- ===== src/Transport/Quic/Tracers.antt =====
-- transport/quic.go: who traces a connection of the client and of the server.
use rtq_go_endpoint.Common.{true, Option, none, some, List, [], ◌∷◌, ◌++◌, ◌≡◌, refl, ap}
use rtq_go_endpoint.Logging.{System, QlogWriter, failed, unset, callback, get_qlog_writer}
use rtq_go_endpoint.RtpLog.Text.{Bytes}
use rtq_go_endpoint.Transport.Quic.{
  Result, fails, gives, Library, QuicConfig, Network, made, Opened, client_config, multiplexed,
  client_tls_config, Quic, a_session, an_rtq_session, opening, on_session, configured,
  new_quic_client,
}

pub gathered : {A B : Type 0} → (A → List B) → List A → List B
gathered f [] = []
gathered f (a ∷ as_) = f a ++ gathered f as_

-- Who gets the events that a tracer is given: a multiplexed tracer hands them to each of its tracers, in order.
pub record Sinks {E : Type 0} (lib : Library E) : Type 1 where
  pub Sink : Type 0
  pub sinks : Library.Tracer lib → List Sink
  pub sinks-multiplexed :
      (ts : List (Library.Tracer lib))
      → sinks (Library.new_multiplexed_tracer lib ts) ≡ gathered sinks ts

module _ {E : Type 0} (lib : Library E) (net : Network lib) (listeners : Sinks lib) where
  open net use {Session, RtqSession, dial_addr, accept, listen_addr, new_session}
  open listeners use {Sink, sinks, sinks-multiplexed}

  abbrev pub traced : Option (Library.Tracer lib) → List Sink
  traced none = []
  traced (some t) = sinks t

  -- What qlog gets: nothing without QLOGDIR.
  abbrev pub qlog_sinks : QlogWriter → List Sink
  qlog_sinks failed = []
  qlog_sinks unset = []
  qlog_sinks (callback qlog_writer) = sinks (Library.new_tracer lib qlog_writer)

  traced-multiplexed :
      (ts : List (Library.Tracer lib)) → traced (multiplexed lib ts) ≡ gathered sinks ts
  unfolding multiplexed gathered
  traced-multiplexed [] = refl
  traced-multiplexed (t ∷ ts) = sinks-multiplexed (t ∷ ts)

  gives_session :
      (q : Quic lib net) (s : Session) (os : List (Opened lib net))
      → (r : Result E RtqSession)
      → (opening lib net an_rtq_session os r (λ x os'. record {
        opened = os';
        ending = made (record { rtq_session = x; quic_session = s });
      })).ending
        ≡ made q
      → s ≡ q.quic_session
  unfolding opening
  gives_session q s os (fails e) h = absurd cc
  gives_session q s os (gives r) h =
      let same : (record { rtq_session = r; quic_session = s }) ≡ q = cc in
      ap (λ x. x.quic_session) same

  opens_session :
      (q : Quic lib net) (os : List (Opened lib net))
      → (r : Result E Session)
      → (opening lib net a_session os r (on_session lib net)).ending ≡ made q
      → r ≡ gives q.quic_session
  unfolding opening on_session
  opens_session q os (fails e) h = absurd cc
  opens_session q os (gives s) h = ap gives (gives_session q s (a_session s ∷ os) (new_session s) h)

  pub record Traced (q : Quic lib net) (addr : Bytes) (who : List Sink) : Type 0 where
    pub config : QuicConfig lib
    pub dialled : dial_addr addr (client_tls_config lib) config ≡ gives q.quic_session
    pub has_datagrams : config.enable_datagrams ≡ true
    pub to_whom : traced config.tracer ≡ who

  configured-Traced :
      (q : Quic lib net) (addr : Bytes) (ts : List (Library.Tracer lib)) (qlog : QlogWriter)
      → (configured lib net (client_config lib ts qlog) (λ quic_conf.
          opening lib net a_session []
            (dial_addr addr (client_tls_config lib) quic_conf)
            (on_session lib net))).ending
        ≡ made q
      → Traced q addr (qlog_sinks qlog ++ gathered sinks ts)
  unfolding configured client_config gathered
  configured-Traced q addr ts failed h = absurd cc
  configured-Traced q addr ts unset h = record {
    config = _;
    dialled = opens_session q [] _ h;
    has_datagrams = refl;
    to_whom = traced-multiplexed ts;
  }
  configured-Traced q addr ts (callback qlog_writer) h = record {
    config = _;
    dialled = opens_session q [] _ h;
    has_datagrams = refl;
    to_whom = traced-multiplexed (Library.new_tracer lib qlog_writer ∷ ts);
  }

  -- Where `NewQUICClient` gives a `QUIC`: its session was dialled with settings that allow datagrams, and each event of
  -- the connection goes to qlog, if QLOGDIR is set, and then to whom the given tracers hand it, in order. It asks that a
  -- multiplexed tracer hands each event to all of its tracers, in order.
  pub new_quic_client-Traced :
      (w : System) (addr : Bytes) (ts : List (Library.Tracer lib)) (q : Quic lib net)
      → (new_quic_client lib net w addr ts).ending ≡ made q
      → Traced q addr (qlog_sinks (get_qlog_writer w) ++ gathered sinks ts)
  unfolding new_quic_client
  new_quic_client-Traced w addr ts q h = configured-Traced q addr ts (get_qlog_writer w) h
