-- ===== src/Session.antt =====
-- main.go: `send` and `receive`, as functions that open resources, `defer` their closing, and leave
-- early when a call fails. What the calls answer is an input: which of them fail and with what error,
-- and how the pipeline's goroutine ends. A deferred call runs on every way out, a panic included.
-- What ends the whole process under them, such as the log.Fatalf of a stream's goroutine, is in Session/Command.
pub mod Send
pub mod Receive
pub mod Closing
pub mod Smooth
pub mod Success
pub mod Command
pub mod StreamData
mod Tests
use rtq_go_endpoint.Common.{
  if◌then◌else◌, nil_dereference, Bool, true, false, Option, none, some, List, [], ◌∷◌, Run,
  returns, panics, Panic,
}

-- The constants of the flags; any other string is `other_…`.
pub data Transport : Type 0 where
  quic udp other_transport : Transport

pub data Controller : Type 0 where
  nocc scream scream_infer naive_adaption other_controller : Controller

-- What is opened. A QUIC server has a listener, and a QUIC session, here the connection, under the session of
-- rtq-go. The closing of the sender, and that which the receiver has, are closes of their `closeC`; that of the
-- stream's context is `cancelCtx()`.
pub data Resource : Type 0 where
  listener connection : Resource
  session write_flow read_flow stream_log stream_context : Resource
  rtcp_in_log rtcp_out_log rtp_in_log rtp_out_log cc_log the_sender the_receiver : Resource

-- What `send` and `receive` defer a closing of, once they have it. The listener and the connection are inside of
-- transport.NewQUICServer and NewQUICClient, and `receive` does not call the `Close` of the receiver.
abbrev pub is_owned : Resource → Bool
is_owned listener = false
is_owned connection = false
is_owned the_receiver = false
is_owned _ = true

abbrev pub owned : List Resource → List Resource
owned [] = []
owned (r ∷ rs) = if is_owned r then r ∷ owned rs else owned rs

-- The calls whose error ends the function. `open_session` dials, or listens; the settings before that are part of it.
pub data Call : Type 0 where
  open_session accept_session new_rtq_session open_writer open_reader get_stream_log get_rtp_log :
      Call
  new_sender new_receiver get_cc_log configure_scream accept_feedback : Call
  configure_infering configure_naive : Call

-- A returned error: that of a call or of the goroutine, wrapped by a message of its own; the message of
-- `ConfigureNaiveBitrateAdaption` leaves the error out.
pub data Failure (E : Type 0) : Type 0 where
  failed : Call → E → Failure E
  failed_to_configure_naive : Failure E
  unknown_transport : Failure E
  failed_to_start : E → Failure E

-- How the goroutine and the final select end.
pub data Finish (E : Type 0) : Type 0 where
  interrupted reached_eos : Finish E
  start_failed : E → Finish E

pub record World (E : Type 0) : Type 0 where
  pub fails : Call → Option E
  -- whether the write flow of rtq-go has `WriteRTPNotify`
  pub quic_is_acking : Bool
  pub finish : Finish E
  -- whether `rtpLogger` gives a file for this log, or nil
  pub log_opens : Resource → Bool

-- What was opened and the deferred closings, both newest first.
pub record Frame : Type 0 where
  pub opened : List Resource
  pub deferred : List Resource

pub data Step (E A : Type 0) : Type 0 where
  goes : A → Step E A
  stops : Failure E → Step E A
  panicking : Panic → Step E A

abbrev pub Task : Type 0 → Type 0 → Type 0
Task E A = Frame → Step E A × Frame

abbrev pub and_then : {E A B : Type 0} → (A → Task E B) → Step E A × Frame → Step E B × Frame
and_then k (goes a, f) = k a f
and_then k (stops e, f) = (stops e, f)
and_then k (panicking p, f) = (panicking p, f)

infixl 5 ◌>>=◌ ◌>>◌
abbrev pub ◌>>=◌ : {E A B : Type 0} → Task E A → (A → Task E B) → Task E B
◌>>=◌ m k f = and_then k (m f)

abbrev pub ◌>>◌ : {E B : Type 0} → Task E (Unit {0}) → Task E B → Task E B
m >> k = m >>= λ _. k

abbrev pub pure : {E A : Type 0} → A → Task E A
pure a f = (goes a, f)

abbrev pub stop : {E A : Type 0} → Failure E → Task E A
stop e f = (stops e, f)

abbrev pub panic : {E A : Type 0} → Panic → Task E A
panic p f = (panicking p, f)

abbrev pub opens : {E : Type 0} → Resource → Task E (Unit {0})
opens r f = (goes tt, record f { opened = r ∷ f.opened })

abbrev pub defers : {E : Type 0} → Resource → Task E (Unit {0})
defers r f = (goes tt, record f { deferred = r ∷ f.deferred })

abbrev pub acquire : {E : Type 0} → Resource → Task E (Unit {0})
acquire r = opens r >> defers r

-- `rtpLogger("…")`
abbrev pub open_log : {E : Type 0} → World E → Resource → Task E (Unit {0})
open_log w r = if w.log_opens r then opens r else pure tt

-- `defer closeErr(l.Close)`: the method of a nil interface cannot be taken.
abbrev pub defer_close : {E : Type 0} → World E → Resource → Task E (Unit {0})
defer_close w r = if w.log_opens r then defers r else panic nil_dereference

abbrev pub check : {E : Type 0} → (E → Failure E) → Option E → Task E (Unit {0})
check wrap none = pure tt
check wrap (some e) = stop (wrap e)

-- `if err != nil { return fmt.Errorf("…: %v", err) }` after the call
abbrev pub try : {E : Type 0} → World E → Call → Task E (Unit {0})
try w c = check (failed c) (w.fails c)

-- The end of NewQUICClient and NewQUICServer: a QUIC session is there, and `rtq.NewSession` is called on it.
abbrev pub open_rtq : {E : Type 0} → World E → Task E (Unit {0})
open_rtq w = do opens connection; try w new_rtq_session; acquire session

-- What a run of the function leaves behind: what it opened, newest first, what the deferred calls then
-- closed, in that order, and what it returned.
pub record Outcome (E : Type 0) : Type 0 where
  pub opened : List Resource
  pub closed : List Resource
  pub result : Run (Option (Failure E))

-- The last select: an interrupt and the end of the stream are no error.
abbrev pub finishing : {E : Type 0} → Finish E → Option (Failure E)
finishing interrupted = none
finishing reached_eos = none
finishing (start_failed e) = some (failed_to_start e)
