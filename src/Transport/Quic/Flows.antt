-- ===== src/Transport/Quic/Flows.antt =====
-- transport/quic.go: the flows and streams on a session. rtq-go, quic-go and pion/rtcp are parameters: a call
-- takes the state of the session and gives it back. `WriteRTCP` is that of the flow that `Writer` gave, on
-- whose `Write` it calls.
use rtq_go_endpoint.Common.{ℕ}
use rtq_go_endpoint.RtpLog.Text.{Bytes}
use rtq_go_endpoint.Transport.Quic.{Result, fails, gives}

pub record Session (E : Type 0) : Type 1 where
  pub State : Type 0
  pub WriteFlow : Type 0
  pub ReadFlow : Type 0
  pub SendStream : Type 0
  pub ReceiveStream : Type 0
  pub open_write_flow : ℕ → State → Result E WriteFlow × State
  pub accept_flow : ℕ → State → Result E ReadFlow × State
  pub write : WriteFlow → Bytes → State → Result E ℕ × State
  pub close_session : State → Result E (Unit {0}) × State
  pub accept_stream : State → Result E ReceiveStream × State
  pub open_stream : State → Result E SendStream × State

module _ {E : Type 0} (ses : Session E) where
  open ses use {
    State, WriteFlow, ReadFlow, SendStream, ReceiveStream, open_write_flow, accept_flow, write,
    close_session, accept_stream, open_stream,
  }

  -- The flow beside the `QUIC` that it is on, which is the state.
  pub record WriteFlowCloser : Type 0 where
    pub write_flow : WriteFlow

  pub record ReadFlowCloser : Type 0 where
    pub read_flow : ReadFlow

  write_flow_closer : Result E WriteFlow × State → Result E WriteFlowCloser × State
  write_flow_closer (fails e, s) = (fails e, s)
  write_flow_closer (gives f, s) = (gives (record { write_flow = f }), s)

  read_flow_closer : Result E ReadFlow × State → Result E ReadFlowCloser × State
  read_flow_closer (fails e, s) = (fails e, s)
  read_flow_closer (gives f, s) = (gives (record { read_flow = f }), s)

  unfoldable pub writer : ℕ → State → Result E WriteFlowCloser × State
  unfolding write_flow_closer
  writer id s = write_flow_closer (open_write_flow id s)

  unfoldable pub reader : ℕ → State → Result E ReadFlowCloser × State
  unfolding read_flow_closer
  reader id s = read_flow_closer (accept_flow id s)

  -- `buf` is what `rtcp.Marshal` gave.
  unfoldable pub write_rtcp : WriteFlowCloser → Result E Bytes → State → Result E ℕ × State
  write_rtcp q (fails e) s = (fails e, s)
  write_rtcp q (gives buf) s = write q.write_flow buf s

  unfoldable pub close : State → Result E (Unit {0}) × State
  close s = close_session s

  unfoldable pub accept_uni_stream : State → Result E ReceiveStream × State
  accept_uni_stream s = accept_stream s

  unfoldable pub open_uni_stream : State → Result E SendStream × State
  open_uni_stream s = open_stream s
