-- ===== src/Scream/Sender/Loop.antt =====
-- internal/scream/sender_interceptor.go: `loop`, the goroutine that takes the packets of a stream out
-- of its queue when SCReAM allows it, the events of the interceptor, and the states they lead to.
use rtq_go_endpoint.Common.{
  ℕ, ◌-◌, false, Option, none, some, List, [], ◌∷◌, ◌++◌, ◌≡◌, get_elem?, set, Run, returns, panics,
  nil_dereference, ◌>>=◌, lookup, leb, if◌then◌else◌,
}
use rtq_go_endpoint.External.{Rtp, Float64}
use rtq_go_endpoint.Scream.RtpQueue.{Queue, dequeue, size_of_queue}
use rtq_go_endpoint.Scream.Sender.{
  ScreamTx, is_ok_to_transmit, add_transmitted, LocalStream, written, Pc, starting, selecting,
  checking, asking, dequeuing, accounting, finished, State, get_time_ntp, call_tx,
  bind_local_stream, write_enqueue, write_announce, RtcpPacket, on_rtcp, unbind_local_stream, close,
}

-- Which case of the select is taken. Nothing is ever sent on `newFrame`.
pub data Case : Type 0 where
  new_feedback closing default : Case

module _ (rtp : Rtp) (fl : Float64) (stx : ScreamTx rtp fl) where
  open rtp use {Packet, marshal_size, sequence_number, marker}
  open fl use {Float, is_minus_one}
  open stx use {Tx}

  abbrev pub Ls : Type 0
  Ls = LocalStream rtp fl stx

  abbrev pub S : Type 0
  S = State rtp fl stx

  abbrev pub goto : ℕ → Pc rtp fl stx → S → Run (Option S)
  goto w pc s = returns (some (record s { workers = set s.workers w pc }))

  -- The select: with nobody waiting and the interceptor open, only `default` is ready.
  unfoldable pub on_select : ℕ → ℕ → Case → S → Ls → Run (Option S)
  on_select w ptr new_feedback s ls =
      if leb ls.waiting 0
      then returns none
      else goto w (checking ptr)
          (record s { heap = set s.heap ptr (record ls { waiting = ls.waiting - 1 }) })
  on_select w ptr closing s ls = if s.is_closed then goto w finished s else returns none
  on_select w ptr default s ls =
      if leb ls.waiting 0
      then (if s.is_closed then returns none else goto w (checking ptr) s)
      else returns none

  -- `packet := stream.queue.Dequeue()`, and the write, whose error is only logged.
  unfoldable pub on_dequeue : ℕ → ℕ → S → Ls → Option Packet × Queue rtp fl → Run (Option S)
  on_dequeue w ptr s ls (none, q) =
      goto w (selecting ptr) (record s { heap = set s.heap ptr (record ls { queue = q }) })
  on_dequeue w ptr s ls (some p, q) = goto w (accounting ptr p) (record s {
    heap = set s.heap ptr (record ls { queue = q; taken = ls.taken ++ (written p ∷ []) });
  })

  unfoldable pub with_stream : ℕ → S → (Ls → Run (Option S)) → Run (Option S)
  with_stream ptr s f = elim (get_elem? s.heap ptr) [
    | none ↦ panics nil_dereference
    | some ls ↦ f ls
  ]

  -- One stretch of the goroutine number `w`, which stands at `pc`. `now` is what the clock shows.
  unfoldable pub advance : ℕ → Case → ℕ → S → Pc rtp fl stx → Run (Option S)
  unfolding on_select on_dequeue with_stream
  advance w choice now s (starting ssrc) = elim (lookup ssrc s.rtp_streams) [
    | none ↦ panics nil_dereference
    | some ptr ↦ goto w (selecting ptr) s
  ]
  advance w choice now s (selecting ptr) = with_stream ptr s (on_select w ptr choice s)
  advance w choice now s (checking ptr) = with_stream ptr s (λ ls.
      if leb (size_of_queue rtp fl ls.queue) 0
      then goto w (selecting ptr) s
      else goto w (asking ptr) s)
  advance w choice now s (asking ptr) = with_stream ptr s (λ ls.
      let (transmit, s') =
        call_tx rtp fl stx (is_ok_to_transmit (get_time_ntp rtp fl stx s now) ls.ssrc) s in
      if is_minus_one transmit then goto w (selecting ptr) s' else goto w (dequeuing ptr) s')
  advance w choice now s (dequeuing ptr) =
      with_stream ptr s (λ ls. on_dequeue w ptr s ls (dequeue rtp fl ls.queue))
  advance w choice now s (accounting ptr p) = with_stream ptr s (λ ls.
      goto w (selecting ptr)
        (call_tx rtp fl stx
          (add_transmitted (get_time_ntp rtp fl stx s now) ls.ssrc (marshal_size p)
            (sequence_number p) (marker p))
          s).1)
  advance w choice now s finished = returns none

  pub data Event : Type 0 where
    bind : (ssrc : ℕ) → Event
    put : (now ptr : ℕ) → Packet → Event
    announce : (now ptr ssrc : ℕ) → Packet → Event
    rtcp : (now : ℕ) → List ℕ → List (RtcpPacket rtp fl stx) → Event
    unbind : (ssrc : ℕ) → Event
    shut : Event
    go : (w : ℕ) → Case → (now : ℕ) → Event

  unfoldable pub lift : Run S → Run (Option S)
  lift m = m >>= λ s. returns (some s)

  unfoldable pub step : Event → S → Run (Option S)
  unfolding lift
  step (bind ssrc) s = returns (some (bind_local_stream rtp fl stx ssrc s))
  step (put now ptr p) s = returns (some (write_enqueue rtp fl stx now ptr p s))
  step (announce now ptr ssrc p) s = returns (some (write_announce rtp fl stx now ptr ssrc p s))
  step (rtcp now b pkts) s = lift (on_rtcp rtp fl stx (get_time_ntp rtp fl stx s now) b pkts s)
  step (unbind ssrc) s = lift (unbind_local_stream rtp fl stx ssrc s)
  step shut s = returns (some (close rtp fl stx s))
  step (go w choice now) s = elim (get_elem? s.workers w) [
    | none ↦ returns none
    | some pc ↦ advance w choice now s pc
  ]

  abbrev pub new_sender_interceptor : Tx → Float → S
  new_sender_interceptor tx t0 = record {
    is_closed = false;
    t0 = t0;
    tx = tx;
    rtp_streams = [];
    heap = [];
    workers = [];
  }

  pub data Reachable : S → Type 0 where
    fresh : (tx : Tx) (t0 : Float) → Reachable (new_sender_interceptor tx t0)
    later : {s t : S} (e : Event) → Reachable s → step e s ≡ returns (some t) → Reachable t
