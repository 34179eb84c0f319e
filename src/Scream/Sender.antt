-- ===== src/Scream/Sender.antt =====
-- internal/scream/sender_interceptor.go: `SenderInterceptor`. The heap holds the `localStream`s that
-- were made, and a pointer is an index of it. `Tx` of scream-go, a C++ object behind cgo, is a
-- parameter: a call gets the queues registered with it, and says which of them it cleared. Each event
-- is a stretch of code between two points where goroutines can interleave; `returns none` is an event
-- that cannot happen yet. `waiting` counts the goroutines that are about to send on the unbuffered
-- channel `newFeedback`; the loop over a batch of RTCP packets is one event, whose sends are counted
-- there and do not hold it up. The mutexes `m` and `rtpStreamsMu` are not modelled. `BindRTCPReader` keeps the second one
-- while it sends on `newFeedback`, and `BindLocalStream` keeps the first one while it waits for the second, so
-- that with the stream's goroutine, which needs the first, all three can wait for each other for ever:
-- that a step can be made here does not say that no lock is in its way. Nothing reads `enqueued` and `taken`: they note what went through a queue.
pub mod Loop
pub mod Queues
pub mod Alive
pub mod Drains
pub mod Bitrate
mod Tests
use rtq_go_endpoint.Common.{
  ℕ, ◌+◌, ◌-◌, Bool, true, false, Option, none, some, List, [], ◌∷◌, ◌++◌, ◌≡◌, length, get_elem?,
  set, map, elem, Run, returns, panics, nil_dereference, close_of_nil, close_of_closed, ◌>>=◌,
  lookup, insert, erase, ltb, leb, ◌==◌, not, ◌&&◌, if◌then◌else◌,
}
use rtq_go_endpoint.External.{Rtp, Float64}
use rtq_go_endpoint.Scream.Ntp.{get_time_between_ntp}
use rtq_go_endpoint.Scream.RtpQueue.{
  Queue, RtpQueueItem, new_queue, enqueue, dequeue, size_of_queue, clear,
}
use rtq_go_endpoint.Scream.Ssrc.{extract_ssrcs}

-- A call of `Tx`.
pub data TxCall : Type 0 where
  incoming_feedback : (time : ℕ) → List ℕ → TxCall
  register_new_stream : (ssrc : ℕ) → TxCall
  new_media_frame : (time ssrc size : ℕ) → TxCall
  is_ok_to_transmit : (time ssrc : ℕ) → TxCall
  add_transmitted : (time ssrc size seq_nr : ℕ) → Bool → TxCall

-- github.com/dbaldassi/scream-go, `Tx`
pub record ScreamTx (rtp : Rtp) (fl : Float64) : Type 1 where
  pub Tx : Type 0
  -- the result, the streams whose queue was cleared, and the new state
  pub call : TxCall → List (ℕ × Queue rtp fl) → Tx → fl.Float × List ℕ × Tx
  pub get_target_bitrate : ℕ → Tx → fl.Float

module _ (rtp : Rtp) (fl : Float64) (stx : ScreamTx rtp fl) where
  open rtp use {Packet, marshal_size, sequence_number, marker}
  open fl use {Float, of_int, divide, ntp_unit, is_minus_one}
  open stx use {Tx}

  -- What became of a packet that left the queue.
  pub data Taken : Type 0 where
    written : Packet → Taken
    cleared : Packet → Taken

  -- `close` is nil (`none`), or a channel that is open or closed.
  pub record LocalStream : Type 0 where
    pub ssrc : ℕ
    pub queue : Queue rtp fl
    pub waiting : ℕ
    pub close : Option Bool
    pub enqueued : List Packet
    pub taken : List Taken

  -- Where the goroutine of a stream stands in `loop`.
  pub data Pc : Type 0 where
    starting : (ssrc : ℕ) → Pc
    selecting checking asking dequeuing : (ptr : ℕ) → Pc
    accounting : (ptr : ℕ) → Packet → Pc
    finished : Pc

  pub record State : Type 0 where
    pub is_closed : Bool
    pub t0 : Float
    pub tx : Tx
    pub rtp_streams : List (ℕ × ℕ)
    pub heap : List LocalStream
    pub workers : List Pc

  abbrev pub get_time_ntp : State → ℕ → ℕ
  get_time_ntp s t = get_time_between_ntp fl s.t0 t

  -- Each stream was registered with `Tx`, under its SSRC, when it was made.
  abbrev pub registered : LocalStream → ℕ × Queue rtp fl
  registered ls = (ls.ssrc, ls.queue)

  -- `Clear`, called back by `Tx` on the queues of the streams that it names
  abbrev pub clear_stream : List ℕ → LocalStream → LocalStream
  clear_stream ssrcs ls =
      if elem ls.ssrc ssrcs
      then record ls {
        queue = (clear rtp fl ls.queue).1;
        taken = ls.taken ++ map (λ i. cleared i.packet) ls.queue.queue;
      }
      else ls

  -- A call of `Tx` under the lock `m`.
  unfoldable pub call_tx : TxCall → State → Float × State
  call_tx c s =
      let (value, ssrcs, tx) = stx.call c (map registered s.heap) s.tx in
      (value, record s { tx = tx; heap = map (clear_stream ssrcs) s.heap })

  abbrev pub new_local_stream : ℕ → LocalStream
  new_local_stream ssrc = record {
    ssrc = ssrc;
    queue = new_queue rtp fl;
    waiting = 0;
    close = none;
    enqueued = [];
    taken = [];
  }

  -- `BindLocalStream` for a stream that supports SCReAM; after `Close` it changes nothing.
  unfoldable pub bind_local_stream : ℕ → State → State
  bind_local_stream ssrc s =
      if s.is_closed
      then s
      else (call_tx (register_new_stream ssrc) (record s {
        rtp_streams = insert ssrc (length s.heap) s.rtp_streams;
        heap = s.heap ++ (new_local_stream ssrc ∷ []);
        workers = s.workers ++ (starting ssrc ∷ []);
      })).1

  pub on_stream : ℕ → State → (LocalStream → LocalStream) → State
  on_stream ptr s f = elim (get_elem? s.heap ptr) [
    | none ↦ s
    | some ls ↦ record s { heap = set s.heap ptr (f ls) }
  ]

  -- The first part of the returned writer: `rtpQueue.Enqueue(pkt, float64(t)/65536.0)`.
  unfoldable pub write_enqueue : ℕ → ℕ → Packet → State → State
  unfolding on_stream
  write_enqueue now ptr p s = on_stream ptr s (λ ls. record ls {
    queue = enqueue rtp fl ls.queue p (divide (of_int (get_time_ntp s now)) ntp_unit);
    enqueued = ls.enqueued ++ (p ∷ []);
  })

  pub notify : ℕ → State → State
  unfolding on_stream
  notify ptr s = on_stream ptr s (λ ls. record ls { waiting = ls.waiting + 1 })

  -- The second part: `NewMediaFrame`, and the send on `newFeedback`. It may come at any time later.
  unfoldable pub write_announce : ℕ → ℕ → ℕ → Packet → State → State
  unfolding notify
  write_announce now ptr ssrc p s =
      notify ptr (call_tx (new_media_frame (get_time_ntp s now) ssrc (marshal_size p)) s).1

  -- `if stream, ok := s.rtpStreams[ssrc]; ok { stream.newFeedback <- struct{}{} }`
  unfoldable pub notify_ssrcs : List ℕ → State → State
  unfolding notify
  notify_ssrcs [] s = s
  notify_ssrcs (ssrc ∷ ssrcs) s =
      notify_ssrcs ssrcs (elim (lookup ssrc s.rtp_streams) [ none ↦ s | some ptr ↦ notify ptr s ])

  -- A packet that `rtcp.Unmarshal` gave: a `*rtcp.RawPacket`, or another type.
  pub data RtcpPacket : Type 0 where
    raw_packet : List ℕ → RtcpPacket
    other_packet : RtcpPacket

  -- The loop of the reader in `BindRTCPReader`, without its locks and with its sends noted as waiting, over what was read, `b[:n]`, at the time `t`.
  unfoldable pub on_rtcp : ℕ → List ℕ → List RtcpPacket → State → Run State
  on_rtcp t b [] s = returns s
  on_rtcp t b (other_packet ∷ pkts) s = on_rtcp t b pkts s
  on_rtcp t b (raw_packet packet ∷ pkts) s = extract_ssrcs packet >>= λ ssrcs.
      on_rtcp t b pkts (notify_ssrcs ssrcs (call_tx (incoming_feedback t b) s).1)

  -- `UnbindLocalStream`: the channel `close` of the stream is closed.
  close_channel : ℕ → ℕ → State → Option LocalStream → Run State
  close_channel ssrc ptr s none = panics nil_dereference
  close_channel ssrc ptr s (some ls) = elim ls.close [
    | none ↦ panics close_of_nil
    | some closed ↦
        if closed
        then panics close_of_closed
        else returns (record s {
          heap = set s.heap ptr (record ls { close = some true });
          rtp_streams = erase ssrc s.rtp_streams;
        })
  ]

  unfoldable pub unbind_local_stream : ℕ → State → Run State
  unfolding close_channel
  unbind_local_stream ssrc s = elim (lookup ssrc s.rtp_streams) [
    | none ↦ panics nil_dereference
    | some ptr ↦ close_channel ssrc ptr s (get_elem? s.heap ptr)
  ]

  unfoldable pub close : State → State
  close s = if s.is_closed then s else record s { is_closed = true }
