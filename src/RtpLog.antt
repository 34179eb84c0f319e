-- ===== src/RtpLog.antt =====
-- internal/utils/rtp_log_interceptor.go: `RTPLogInterceptor`. Its four channels are unbuffered, so that the
-- send of a reader or writer and the receive of `loop` are one event; so are `closed`'s, where `loop` meets a
-- `Close`. The goroutine of `loop` runs, waits at the deferred send, or is gone. A call of `Close`
-- has seen `done` open and is about to close it (`closing`), waits for `closed` (`waiting`), or has
-- returned. The streams are the bytes handed to the writers, whose errors are only logged.
pub mod Text
pub mod Runs
pub mod Growth
pub mod Logged
pub mod Closing
pub mod Bound
mod Tests
use rtq_go_endpoint.Common.{
  ℕ, zero, suc, ◌+◌, Bool, true, false, Option, none, some, List, [], ◌∷◌, ◌++◌, if◌then◌else◌,
}
use rtq_go_endpoint.RtpLog.Text.{
  Bytes, RtcpPacket, rtcp_text, RtpPacket, rtp_text, incoming, outgoing, line,
}

pub data Phase : Type 0 where
  running : Phase
  leaving : Phase
  gone : Phase

pub record Streams : Type 0 where
  pub rtcp_in_stream : Bytes
  pub rtcp_out_stream : Bytes
  pub rtp_in_stream : Bytes
  pub rtp_out_stream : Bytes

pub record State : Type 0 where
  pub streams : Streams
  pub is_done : Bool
  pub loop : Phase
  pub closing : ℕ
  pub waiting : ℕ
  pub returned : ℕ

abbrev pub new_rtp_log_interceptor : State
new_rtp_log_interceptor = record {
  streams = record {
    rtcp_in_stream = [];
    rtcp_out_stream = [];
    rtp_in_stream = [];
    rtp_out_stream = [];
  };
  is_done = false;
  loop = running;
  closing = 0;
  waiting = 0;
  returned = 0;
}

-- What the four bound functions send on the channels.
pub data Sent : Type 0 where
  rtcp_in : RtcpPacket → Sent
  rtcp_out : RtcpPacket → Sent
  rtp_in : RtpPacket → Sent
  rtp_out : RtpPacket → Sent

-- The case of the select that receives it.
unfoldable pub write_line : Sent → Streams → Streams
write_line (rtcp_in p) t = record t {
  rtcp_in_stream = t.rtcp_in_stream ++ line incoming (rtcp_text p);
}
write_line (rtcp_out p) t = record t {
  rtcp_out_stream = t.rtcp_out_stream ++ line outgoing (rtcp_text p);
}
write_line (rtp_in p) t = record t { rtp_in_stream = t.rtp_in_stream ++ line incoming (rtp_text p) }
write_line (rtp_out p) t = record t {
  rtp_out_stream = t.rtp_out_stream ++ line outgoing (rtp_text p);
}

pub data Event : Type 0 where
  sends : Sent → Event
  starts_close : Event
  closes_done : Event
  leaves : Event
  meets : Event

pub data Outcome : Type 0 where
  blocked : Outcome
  panicked : Outcome
  goes : State → Outcome

on_sends : Phase → Sent → State → Outcome
on_sends running sent s = goes (record s { streams = write_line sent s.streams })
on_sends leaving sent s = blocked
on_sends gone sent s = blocked

-- `if !r.isClosed()`
starts : State → State
starts s =
    if s.is_done then record s { waiting = s.waiting + 1 } else record s { closing = s.closing + 1 }

-- `close(r.done)`, which panics on a closed channel
on_closes_done : ℕ → State → Outcome
on_closes_done zero s = blocked
on_closes_done (suc closing) s =
    if s.is_done
    then panicked
    else goes (record s { is_done = true; closing = closing; waiting = s.waiting + 1 })

-- `case <-r.done: return`
on_leaves : Phase → Bool → State → Outcome
on_leaves running true s = goes (record s { loop = leaving })
on_leaves running false s = blocked
on_leaves leaving done s = blocked
on_leaves gone done s = blocked

-- `r.closed <- struct{}{}` and `<-r.closed`
on_meets : Phase → ℕ → State → Outcome
on_meets leaving (suc waiting) s =
    goes (record s { loop = gone; waiting = waiting; returned = s.returned + 1 })
on_meets leaving zero s = blocked
on_meets running waiting s = blocked
on_meets gone waiting s = blocked

unfoldable pub step : Event → State → Outcome
unfolding on_sends starts on_closes_done on_leaves on_meets
step (sends sent) s = on_sends s.loop sent s
step starts_close s = goes (starts s)
step closes_done s = on_closes_done s.closing s
step leaves s = on_leaves s.loop s.is_done s
step meets s = on_meets s.loop s.waiting s

-- A run: no event is blocked, and none panics.
unfoldable pub run : List Event → State → Outcome
run [] s = goes s
run (e ∷ es) s = elim (step e s) [ blocked ↦ blocked | panicked ↦ panicked | goes s' ↦ run es s' ]
