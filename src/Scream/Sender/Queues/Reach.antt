-- ===== src/Scream/Sender/Queues/Reach.antt =====
-- internal/scream/sender_interceptor.go: the events of the interceptor keep what its streams keep.
use rtq_go_endpoint.Common.{
  ℕ, ◌≡◌, subst, true, false, inl, inr, none, some, List, [], ◌∷◌, ◌++◌, get_elem?, All-get_elem?,
  Run, returns, panics, out_of_fuel, ◌>>=◌, lookup, Option-cases, if◌then◌else◌, arith,
  get_elem?_of_lt, nil_dereference, close_of_nil,
}
use rtq_go_endpoint.External.{Rtp, Float64}
use rtq_go_endpoint.Scream.Ssrc.{extract_ssrcs}
use rtq_go_endpoint.Scream.RtpQueue.Refine.{IsValid}
use rtq_go_endpoint.Scream.Sender.{
  ScreamTx, LocalStream, State, incoming_feedback, RtcpPacket, raw_packet, other_packet, close,
  on_rtcp, unbind_local_stream, close_channel,
}
use rtq_go_endpoint.Scream.Sender.Loop.{
  Event, bind, put, announce, rtcp, unbind, shut, go, step, lift, Reachable, fresh, later,
}
use rtq_go_endpoint.Scream.Sender.Queues.{
  Sound, packets, queued, call_tx-Inv, bind-Inv, write_enqueue-Inv, write_announce-Inv,
  notify_ssrcs-Inv,
}
use rtq_go_endpoint.Scream.Sender.Queues.Advance.{Gives, Holds, Good, advance-Inv}

pub Gives-bind :
    {A B : Type 0} (P : A → Type 0) (Q : B → Type 0) (m : Run A) (f : A → Run B)
    → Gives P m
    → ((a : A) → P a → Gives Q (f a))
    → Gives Q (m >>= f)
Gives-bind P Q (returns a) f h k = k a h
Gives-bind P Q (panics e) f h k = tt
Gives-bind P Q out_of_fuel f h k = tt

pub Gives-always : {A : Type 0} (P : A → Type 0) (m : Run A) → ((a : A) → P a) → Gives P m
Gives-always P (returns a) f = f a
Gives-always P (panics e) f = tt
Gives-always P out_of_fuel f = tt

lookup-nothing : (k p : ℕ) → ¬ (lookup k [] ≡ some p)
unfolding lookup
lookup-nothing k p h = ground arith

module _ (rtp : Rtp) (fl : Float64) (stx : ScreamTx rtp fl) where
  open rtp use {Packet}

  abbrev GoodState : State rtp fl stx → Type 0
  GoodState s = Good rtp fl stx s

  on_rtcp-Inv :
      (t : ℕ) (b : List ℕ) (pkts : List (RtcpPacket rtp fl stx)) {s : State rtp fl stx}
      → GoodState s
      → Gives GoodState (on_rtcp rtp fl stx t b pkts s)
  unfolding on_rtcp
  on_rtcp-Inv t b [] inv = inv
  on_rtcp-Inv t b (other_packet ∷ pkts) inv = on_rtcp-Inv t b pkts inv
  on_rtcp-Inv t b (raw_packet p ∷ pkts) inv =
      Gives-bind (λ _. Unit) GoodState (extract_ssrcs p) _
        (Gives-always _ (extract_ssrcs p) (λ _. tt))
        (λ ssrcs _.
          on_rtcp-Inv t b pkts (
            notify_ssrcs-Inv rtp fl stx ssrcs (call_tx-Inv rtp fl stx (incoming_feedback t b) inv)))

  close_channel-nil :
      (ssrc ptr : ℕ) (s : State rtp fl stx) (ls : LocalStream rtp fl stx)
      → ls.close ≡ none
      → close_channel rtp fl stx ssrc ptr s (some ls) ≡ panics close_of_nil
  unfolding close_channel
  close_channel-nil ssrc ptr s ls e = rw e

  -- What `UnbindLocalStream` does in a state that keeps the invariant: the channel of a bound stream is nil.
  unbind-panics_of_Inv :
      (ssrc : ℕ) {s : State rtp fl stx}
      → GoodState s
      → unbind_local_stream rtp fl stx ssrc s
        ≡ panics
            (elim (lookup ssrc s.rtp_streams) [ none ↦ nil_dereference | some _ ↦ close_of_nil ])
  unfolding unbind_local_stream close_channel
  unbind-panics_of_Inv ssrc {s} inv = elim (Option-cases (lookup ssrc s.rtp_streams)) [
    | inl e ↦ rw (unbind_local_stream, e)
    | inr (ptr, e) ↦
        let (ls, there) = get_elem?_of_lt s.heap ptr (inv.mapped ssrc ptr e) in
        rw (unbind_local_stream, e, there)
          (close_channel-nil ssrc ptr s ls
            (All-get_elem? (Sound rtp fl stx) s.heap ptr inv.sound there).close_nil)
  ]

  close-Inv : {s : State rtp fl stx} → GoodState s → GoodState (close rtp fl stx s)
  unfolding close
  close-Inv {s} inv =
      elim s.is_closed as (λ b. GoodState (if b then s else record s { is_closed = true })) [
        | true ↦ inv
        | false ↦ record { sound = inv.sound; mapped = inv.mapped }
      ]

  step-Inv :
      (e : Event rtp fl stx) {s : State rtp fl stx}
      → GoodState s
      → Gives (Holds GoodState) (step rtp fl stx e s)
  unfolding step lift
  step-Inv (bind ssrc) inv = bind-Inv rtp fl stx ssrc inv
  step-Inv (put now ptr p) inv = write_enqueue-Inv rtp fl stx now ptr p inv
  step-Inv (announce now ptr ssrc p) inv = write_announce-Inv rtp fl stx now ptr ssrc p inv
  step-Inv (rtcp now b pkts) inv =
      Gives-bind GoodState (Holds GoodState) _ _ (on_rtcp-Inv _ b pkts inv) (λ t h. h)
  step-Inv (unbind ssrc) inv = rw (unbind-panics_of_Inv ssrc inv) tt
  step-Inv shut inv = close-Inv inv
  step-Inv (go w c now) {s} inv = elim (Option-cases (get_elem? s.workers w)) [
    | inl e ↦ rw (step, e) tt
    | inr (pc, e) ↦ rw (step, e) (advance-Inv rtp fl stx w c now pc inv)
  ]

  pub Reachable-Inv : {s : State rtp fl stx} → Reachable rtp fl stx s → GoodState s
  Reachable-Inv (fresh tx t0) = record {
    sound = tt;
    mapped = λ k p h. absurd (lookup-nothing k p h);
  }
  Reachable-Inv (later e r h) = subst (Gives (Holds GoodState)) h (step-Inv e (Reachable-Inv r))

  -- What went into the queue of a stream is what left it, then what waits in it, in that order, and
  -- its byte counter is the bytes of what waits, modulo 2^64: in every reachable state.
  pub streams_in_order :
      {s : State rtp fl stx}
      → Reachable rtp fl stx s
      → (ptr : ℕ) (ls : LocalStream rtp fl stx) → get_elem? s.heap ptr ≡ some ls
      → (ls.enqueued ≡ packets rtp fl stx ls.taken ++ queued rtp fl stx ls)
        × IsValid rtp fl ls.queue
  streams_in_order {s} r ptr ls e =
      let h = All-get_elem? (Sound rtp fl stx) s.heap ptr (Reachable-Inv r).sound e in
      (h.in_order, h.counted)

  -- In every reachable state `UnbindLocalStream` panics: on closing a nil channel when the stream is
  -- bound, on a nil pointer when it is not.
  pub unbind-panics :
      {s : State rtp fl stx}
      → Reachable rtp fl stx s
      → (ssrc : ℕ)
      → unbind_local_stream rtp fl stx ssrc s
        ≡ panics
            (elim (lookup ssrc s.rtp_streams) [ none ↦ nil_dereference | some _ ↦ close_of_nil ])
  unbind-panics r ssrc = unbind-panics_of_Inv ssrc (Reachable-Inv r)
