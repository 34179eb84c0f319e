-- ===== src/Transport/Quic/Leaks.antt =====
-- transport/quic.go: what `NewQUICServer` and `NewQUICClient` leave open.
use rtq_go_endpoint.Common.{List, [], ◌∷◌, ◌≡◌, refl}
use rtq_go_endpoint.Logging.{System, get_qlog_writer}
use rtq_go_endpoint.RtpLog.Text.{Bytes}
use rtq_go_endpoint.Transport.Quic.{
  Result, fails, gives, Library, TlsConfig, QuicConfig, Network, Ending, no_qlog_writer,
  failed_call, panicked_with, made, generate_tls_config, client_config, server_config,
  client_tls_config, Quic, Opened, a_listener, a_session, an_rtq_session, Made, opening, on_session,
  configured, new_quic_server, new_quic_client,
}

module _ {E : Type 0} (lib : Library E) (net : Network lib) where
  open net use {Listener, Session, RtqSession, listen_addr, accept, dial_addr, new_session}

  -- What the call for a session answered decides what is open besides `before`, and how the function ended.
  pub data Left (before : List (Opened lib net)) (answer : Result E Session)
      : Made lib net → Type 0 where
    no_session :
        (e : E)
        → answer ≡ fails e
        → Left before answer (record { opened = before; ending = failed_call e })
    session_left :
        (s : Session) (e : E)
        → answer ≡ gives s
        → new_session s ≡ fails e
        → Left before answer (record { opened = a_session s ∷ before; ending = failed_call e })
    all_left :
        (q : Quic lib net)
        → answer ≡ gives q.quic_session
        → new_session q.quic_session ≡ gives q.rtq_session
        → Left before answer (record {
          opened = an_rtq_session q.rtq_session ∷ a_session q.quic_session ∷ before;
          ending = made q;
        })

  on_session-Left :
      (before : List (Opened lib net)) (answer : Result E Session) (s : Session)
      (r : Result E RtqSession)
      → answer ≡ gives s
      → new_session s ≡ r
      → Left before answer (
          opening lib net an_rtq_session (a_session s ∷ before) r (λ q os. record {
            opened = os;
            ending = made (record { rtq_session = q; quic_session = s });
          }))
  unfolding opening
  on_session-Left before answer s (fails e) a h = session_left s e a h
  on_session-Left before answer s (gives q) a h =
      all_left (record { rtq_session = q; quic_session = s }) a h

  -- The call that gives the session, and what follows.
  session-Left :
      (before : List (Opened lib net)) (answer : Result E Session)
      → Left before answer (opening lib net a_session before answer (on_session lib net))
  unfolding opening on_session
  session-Left before (fails e) = no_session e refl
  session-Left before (gives s) = on_session-Left before (gives s) s (new_session s) refl refl

  -- How a preparation that gave no value ends the function, with nothing opened.
  pub data Early {A : Type 0} : Ending lib A → Made lib net → Type 0 where
    early_qlog : Early no_qlog_writer (record { opened = []; ending = no_qlog_writer })
    early_error : (e : E) → Early (failed_call e) (record { opened = []; ending = failed_call e })
    early_panic :
        (e : E) → Early (panicked_with e) (record { opened = []; ending = panicked_with e })

  pub data ClientLeft (w : System) (addr : Bytes) (ts : List (Library.Tracer lib))
      (m : Made lib net) : Type 0 where
    not_configured : Early (client_config lib ts (get_qlog_writer w)) m → ClientLeft w addr ts m
    dialled :
        (conf : QuicConfig lib)
        → client_config lib ts (get_qlog_writer w) ≡ made conf
        → Left [] (dial_addr addr (client_tls_config lib) conf) m
        → ClientLeft w addr ts m

  -- With a listener, it is open besides whatever the rest leaves.
  pub data ListenLeft (answer : Result E Listener) : Made lib net → Type 0 where
    not_listening :
        (e : E)
        → answer ≡ fails e
        → ListenLeft answer (record { opened = []; ending = failed_call e })
    listening :
        (l : Listener) {m : Made lib net}
        → answer ≡ gives l
        → Left (a_listener l ∷ []) (accept l) m
        → ListenLeft answer m

  pub data ServerLeft (w : System) (addr : Bytes) (m : Made lib net) : Type 0 where
    no_server_config : Early (server_config lib (get_qlog_writer w)) m → ServerLeft w addr m
    no_tls_config :
        (conf : QuicConfig lib)
        → server_config lib (get_qlog_writer w) ≡ made conf
        → Early (generate_tls_config lib) m
        → ServerLeft w addr m
    listens :
        (conf : QuicConfig lib) (tls : TlsConfig lib)
        → server_config lib (get_qlog_writer w) ≡ made conf
        → generate_tls_config lib ≡ made tls
        → ListenLeft (listen_addr addr tls conf) m
        → ServerLeft w addr m

  configured_lem :
      {A : Type 0} (P : Made lib net → Type 0) (a : Ending lib A) (k : A → Made lib net)
      → ((m : Made lib net) → Early a m → P m)
      → ((x : A) → a ≡ made x → P (k x))
      → P (configured lib net a k)
  unfolding configured
  configured_lem P no_qlog_writer k early h = early _ early_qlog
  configured_lem P (failed_call e) k early h = early _ (early_error e)
  configured_lem P (panicked_with e) k early h = early _ (early_panic e)
  configured_lem P (made a) k early h = h a refl

  listen-ListenLeft :
      (answer : Result E Listener)
      → ListenLeft answer (
          opening lib net a_listener [] answer
            (λ l os. opening lib net a_session os (accept l) (on_session lib net)))
  unfolding opening
  listen-ListenLeft (fails e) = not_listening e refl
  listen-ListenLeft (gives l) = listening l refl (session-Left (a_listener l ∷ []) (accept l))

  -- However the two functions end, and by which call. Nothing was opened if the settings could not be made, which includes
  -- the panics of generateTLSConfig, or if the client cannot dial or the server not listen. From there on the listener
  -- of the server stays open on every way: if Accept fails, if `rtq.NewSession` fails, and if the function gives
  -- a `QUIC`, which does not hold it. The QUIC session stays open if `rtq.NewSession` fails; and both sessions
  -- are open, and held by the `QUIC`, if it does not.
  pub what_stays_open :
      (w : System) (addr : Bytes) (ts : List (Library.Tracer lib))
      → ClientLeft w addr ts (new_quic_client lib net w addr ts)
        × ServerLeft w addr (new_quic_server lib net w addr)
  unfolding new_quic_client new_quic_server
  what_stays_open w addr ts = (
    configured_lem (ClientLeft w addr ts) (client_config lib ts (get_qlog_writer w)) _
        (λ m. not_configured)
        (λ conf e. dialled conf e (session-Left [] (dial_addr addr (client_tls_config lib) conf))),
    configured_lem (ServerLeft w addr) (server_config lib (get_qlog_writer w)) _
        (λ m. no_server_config)
        (λ conf e.
          configured_lem (ServerLeft w addr) (generate_tls_config lib) _ (λ m. no_tls_config conf e)
            (λ tls e'. listens conf tls e e' (listen-ListenLeft (listen_addr addr tls conf)))),
  )
