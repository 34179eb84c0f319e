-- ===== src/Adaption/Interceptor.antt =====
-- internal/utils/rate_adaption_interceptor.go: `SenderInterceptor`, the channel of each stream and
-- the goroutine that empties it. The heap holds the `localStream`s that were made, and a pointer is an
-- index of it: the map, the returned writers and the goroutines share a stream. Each event is a
-- stretch of code between two points where goroutines can interleave. `returns none` is an event
-- that cannot happen yet (a channel operation that would block). Nothing reads `sent` and `written`:
-- they note what went through a channel.
pub mod Inversion
pub mod Inv
pub mod Reach
pub mod Shutdown
use rtq_go_endpoint.Common.{
  ℕ, ◌+◌, Bool, true, false, Option, none, some, List, [], ◌∷◌, ◌++◌, ◌≡◌, length, get_elem?, set,
  Run, returns, panics, send_on_closed, nil_dereference, close_of_closed, ◌>>=◌, lookup, insert,
  erase, ltb, if◌then◌else◌,
}
use rtq_go_endpoint.External.{Rtp}
use rtq_go_endpoint.Adaption.{
  BitrateConfig, target, initial_target_bitrate, LoopVars, initial_vars, Readings, adapt, Control,
}

-- `make(chan *rtp.Packet, 1_000_000)`
abbrev pub queue_capacity : ℕ
queue_capacity = 1_000_000

module _ (rtp : Rtp) where
  open rtp use {Packet, marshal_size}

  pub record LocalStream : Type 0 where
    pub queue : List Packet
    pub queue_closed : Bool
    pub target_bitrate : BitrateConfig
    pub sent : List Packet
    pub written : List Packet

  -- Where the goroutine of a stream stands.
  pub data Worker : Type 0 where
    starting : ℕ → Worker  -- before it looks its SSRC up
    looping : ℕ → LoopVars → Worker  -- at the select, with its stream
    finished : Worker

  pub record State : Type 0 where
    pub is_closed : Bool
    pub streams : List (ℕ × ℕ)
    pub heap : List LocalStream
    pub workers : List Worker

  unfoldable pub new_sender_interceptor : State
  new_sender_interceptor = record { is_closed = false; streams = []; heap = []; workers = [] }

  abbrev pub new_local_stream : LocalStream
  new_local_stream = record {
    queue = [];
    queue_closed = false;
    target_bitrate = initial_target_bitrate;
    sent = [];
    written = [];
  }

  -- The writer that is returned to the caller holds the new stream, whose pointer is `length s.heap`.
  unfoldable pub bind_local_stream : ℕ → State → State
  bind_local_stream ssrc s = record s {
    streams = insert ssrc (length s.heap) s.streams;
    heap = s.heap ++ (new_local_stream ∷ []);
    workers = s.workers ++ (starting ssrc ∷ []);
  }

  -- `ls.queue <- pkt`
  send_packet : Packet → LocalStream → Run (Option LocalStream)
  send_packet p ls =
      if ls.queue_closed
      then panics send_on_closed
      else if ltb (length ls.queue) queue_capacity
      then returns (some (record ls { queue = ls.queue ++ (p ∷ []); sent = ls.sent ++ (p ∷ []) }))
      else returns none

  with_stream : ℕ → State → Option LocalStream → Run (Option State)
  with_stream ptr s none = returns none
  with_stream ptr s (some ls) = returns (some (record s { heap = set s.heap ptr ls }))

  -- The writer of the stream at `ptr`. It returns `pkt.MarshalSize()` beside the effect.
  unfoldable pub write : ℕ → Packet → State → Run (Option State)
  unfolding send_packet with_stream
  write ptr p s = elim (get_elem? s.heap ptr) [
    | none ↦ panics nil_dereference
    | some ls ↦ send_packet p ls >>= with_stream ptr s
  ]

  -- `close(s.streams[info.SSRC].queue)` and `delete`
  close_queue : ℕ → ℕ → State → Option LocalStream → Run State
  close_queue ssrc ptr s none = panics nil_dereference
  close_queue ssrc ptr s (some ls) =
      if ls.queue_closed
      then panics close_of_closed
      else returns (record s {
        heap = set s.heap ptr (record ls { queue_closed = true });
        streams = erase ssrc s.streams;
      })

  unfoldable pub unbind_local_stream : ℕ → State → Run State
  unfolding close_queue
  unbind_local_stream ssrc s = elim (lookup ssrc s.streams) [
    | none ↦ returns s
    | some ptr ↦ close_queue ssrc ptr s (get_elem? s.heap ptr)
  ]

  -- `Close` without the wait: the channel is closed once.
  unfoldable pub close : State → State
  close s = if s.is_closed then s else record s { is_closed = true }

  -- The head of `loop`. A stream that is gone is a nil pointer, which the select reads at once.
  unfoldable pub start_loop : ℕ → State → Run Worker
  start_loop ssrc s = elim (lookup ssrc s.streams) [
    | none ↦ panics nil_dereference
    | some ptr ↦ returns (looping ptr initial_vars)
  ]

  -- `case packet := <-stream.queue` with what follows it. A closed and empty channel gives nil. An
  -- error of the writer is only logged, so the packet counts as written.
  receive_packet :
      Readings → LoopVars → LocalStream → List Packet → Run (Option (LocalStream × LoopVars))
  receive_packet now vars ls [] = if ls.queue_closed then panics nil_dereference else returns none
  receive_packet now vars ls (packet ∷ rest) =
      let c =
        adapt now (length rest) (record { vars = vars; target_bitrate = ls.target_bitrate }) in
      returns (
        some (
          record ls {
            queue = rest;
            target_bitrate = c.target_bitrate;
            written = ls.written ++ (packet ∷ []);
          },
          c.vars,
        ))

  resume : ℕ → ℕ → State → Option (LocalStream × LoopVars) → Run (Option State)
  resume w ptr s none = returns none
  resume w ptr s (some (ls, vars)) =
      returns
        (some (record s { heap = set s.heap ptr ls; workers = set s.workers w (looping ptr vars) }))

  unfoldable pub receive : ℕ → ℕ → LoopVars → Readings → State → Run (Option State)
  unfolding receive_packet resume
  receive w ptr vars now s = elim (get_elem? s.heap ptr) [
    | none ↦ panics nil_dereference
    | some ls ↦ receive_packet now vars ls ls.queue >>= resume w ptr s
  ]

  -- What can happen next: a call of the interceptor, or a step of the goroutine number `w`.
  pub data Event : Type 0 where
    bind : (ssrc : ℕ) → Event
    send : (ptr : ℕ) → Packet → Event
    unbind : (ssrc : ℕ) → Event
    shut : Event
    start : (w : ℕ) → Event
    round : (w : ℕ) → Readings → Event
    leave : (w : ℕ) → Event

  -- `case <-s.close`
  pub leave_loop : ℕ → State → Worker → Run (Option State)
  leave_loop w s (looping ptr vars) =
      if s.is_closed
      then returns (some (record s { workers = set s.workers w finished }))
      else returns none
  leave_loop w s _ = returns none

  pub run_round : ℕ → Readings → State → Worker → Run (Option State)
  run_round w now s (looping ptr vars) = receive w ptr vars now s
  run_round w now s _ = returns none

  pub run_start : ℕ → State → Worker → Run (Option State)
  run_start w s (starting ssrc) =
      start_loop ssrc s >>= λ worker. returns (some (record s { workers = set s.workers w worker }))
  run_start w s _ = returns none

  pub on_worker : ℕ → State → (Worker → Run (Option State)) → Run (Option State)
  on_worker w s f = elim (get_elem? s.workers w) [ none ↦ returns none | some worker ↦ f worker ]

  unfoldable pub step : Event → State → Run (Option State)
  unfolding leave_loop run_round run_start on_worker
  step (bind ssrc) s = returns (some (bind_local_stream ssrc s))
  step (send ptr p) s = write ptr p s
  step (unbind ssrc) s = unbind_local_stream ssrc s >>= λ s'. returns (some s')
  step shut s = returns (some (close s))
  step (start w) s = on_worker w s (run_start w s)
  step (round w now) s = on_worker w s (run_round w now s)
  step (leave w) s = on_worker w s (leave_loop w s)

  -- The states that some sequence of events leads to.
  pub data Reachable : State → Type 0 where
    fresh : Reachable new_sender_interceptor
    later : {s t : State} (e : Event) → Reachable s → step e s ≡ returns (some t) → Reachable t

  -- `GetTargetBitrate`; `none` is the error "unknown SSRC". The int is an exact float64.
  unfoldable pub get_target_bitrate : ℕ → State → Run (Option ℕ)
  get_target_bitrate ssrc s = elim (lookup ssrc s.streams) [
    | none ↦ returns none
    | some ptr ↦ elim (get_elem? s.heap ptr) [
      | none ↦ panics nil_dereference
      | some ls ↦ target ls.target_bitrate >>= λ bps. returns (some bps)
    ]
  ]
