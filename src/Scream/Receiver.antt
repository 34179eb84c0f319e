-- ===== src/Scream/Receiver.antt =====
-- internal/scream/receiver_interceptor.go: `ReceiverInterceptor`, which feeds each incoming RTP packet
-- to the SCReAM receiver of its stream and, on each tick, sends the feedback that the receivers have.
-- `Rx` of scream-go is a parameter. The channel `receive` is unbuffered: the send of a reader and the
-- receive of a loop are one event. `loops` counts the goroutines that run `loop`. `sent` notes what
-- was written to the RTCP writer, whose error is only logged.
pub mod Streams
pub mod Closed
mod Tests
use rtq_go_endpoint.Common.{
  ℕ, ◌+◌, ◌-◌, Bool, true, false, Option, none, some, List, [], ◌∷◌, ◌++◌, ◌≡◌, lookup, insert,
  erase, leb, if◌then◌else◌,
}
use rtq_go_endpoint.External.{Rtp, Float64, ScreamRx}
use rtq_go_endpoint.Scream.Ntp.{get_time_between_ntp}

module _ (rtp : Rtp) (fl : Float64) (sx : ScreamRx) (new_rx : ℕ → sx.Rx) where
  open rtp use {Packet, marshal_size, sequence_number, ssrc}
  open fl use {Float}
  open sx use {Rx, receive, create_standardized_feedback}

  pub record State : Type 0 where
    pub is_closed : Bool
    pub t0 : Float
    pub scream_rx : List (ℕ × Rx)
    pub loops : ℕ
    pub sent : List (List ℕ)

  abbrev pub new_receiver_interceptor : Float → State
  new_receiver_interceptor t0 = record {
    is_closed = false;
    t0 = t0;
    scream_rx = [];
    loops = 0;
    sent = [];
  }

  abbrev pub get_time_ntp : State → ℕ → ℕ
  get_time_ntp s t = get_time_between_ntp fl s.t0 t

  -- After `Close` no loop is started.
  unfoldable pub bind_rtcp_writer : State → State
  bind_rtcp_writer s = if s.is_closed then s else record s { loops = s.loops + 1 }

  -- For a stream that supports SCReAM.
  unfoldable pub bind_remote_stream : ℕ → State → State
  bind_remote_stream id s = record s { scream_rx = insert id (new_rx id) s.scream_rx }

  unfoldable pub unbind_remote_stream : ℕ → State → State
  unbind_remote_stream id s = record s { scream_rx = erase id s.scream_rx }

  unfoldable pub close : State → State
  close s = if s.is_closed then s else record s { is_closed = true }

  -- `case pkt := <-r.receive`, at the time `now`
  unfoldable pub on_packet : ℕ → Packet → State → State
  on_packet now pkt s = elim (lookup (ssrc pkt) s.scream_rx) [
    | none ↦ s
    | some rx ↦ record s {
      scream_rx =
          insert (ssrc pkt)
            (receive (get_time_ntp s now) (ssrc pkt) (marshal_size pkt) (sequence_number pkt) 0 rx)
            s.scream_rx;
    }
  ]

  -- `if ok, feedback := …; ok { rtcpWriter.Write(…) }`
  send_feedback : Option (List ℕ) → List (List ℕ) → List (List ℕ)
  send_feedback none sent = sent
  send_feedback (some feedback) sent = sent ++ (feedback ∷ [])

  -- One turn of the loop over the map, for the stream `id` at the time `now`.
  unfoldable pub ask_feedback : ℕ → ℕ → State → State
  unfolding send_feedback
  ask_feedback id now s = elim (lookup id s.scream_rx) [
    | none ↦ s
    | some rx ↦
        let (feedback, rx') = create_standardized_feedback (get_time_ntp s now) true rx in
        record s { scream_rx = insert id rx' s.scream_rx; sent = send_feedback feedback s.sent }
  ]

  -- `case <-ticker.C`: the streams in the order in which Go's `range` visits the map, each with the
  -- time at which it is visited.
  unfoldable pub on_tick : List (ℕ × ℕ) → State → State
  on_tick [] s = s
  on_tick ((id, now) ∷ visits) s = on_tick visits (ask_feedback id now s)

  pub data Event : Type 0 where
    bind_writer : Event
    bind_stream : (id : ℕ) → Event
    unbind_stream : (id : ℕ) → Event
    shut : Event
    arrival : (now : ℕ) → Packet → Event
    tick : List (ℕ × ℕ) → Event
    leave : Event

  -- A case of the select happens only while a loop runs; a loop leaves only after `Close`.
  unfoldable pub step : Event → State → Option State
  step bind_writer s = some (bind_rtcp_writer s)
  step (bind_stream id) s = some (bind_remote_stream id s)
  step (unbind_stream id) s = some (unbind_remote_stream id s)
  step shut s = some (close s)
  step (arrival now pkt) s = if leb s.loops 0 then none else some (on_packet now pkt s)
  step (tick visits) s = if leb s.loops 0 then none else some (on_tick visits s)
  step leave s =
      if leb s.loops 0
      then none
      else (if s.is_closed then some (record s { loops = s.loops - 1 }) else none)

  unfoldable pub run : List Event → State → Option State
  run [] s = some s
  run (e ∷ es) s = elim (step e s) [ none ↦ none | some s' ↦ run es s' ]
