-- ===== src/Scream/Sender/Alive.antt =====
-- internal/scream/sender_interceptor.go: the goroutines of the streams always find their stream.
pub mod Steps
pub mod Reach
use rtq_go_endpoint.Common.{
  ℕ, ◌+◌, ◌-◌, ◌<◌, ◌≤◌, ◌≡◌, ◌∙◌, ap, sym, refl, subst, Bool, true, false, inl, inr, Option, none,
  some, List, [], ◌∷◌, ◌++◌, map, length, length-append, length-set, length-map, get_elem?,
  get_elem?_of_lt, set, All, All-append, All-get_elem?, All-set, Run, returns, panics, out_of_fuel,
  nil_dereference, ◌>>=◌, lookup, insert, lookup-insert, ◌==◌, Bool-cases, Option-cases, leb,
  if◌then◌else◌, arith,
}
use rtq_go_endpoint.External.{Rtp, Float64}
use rtq_go_endpoint.Scream.RtpQueue.{Queue, enqueue}
use rtq_go_endpoint.Scream.Ssrc.{extract_ssrcs}
use rtq_go_endpoint.Scream.Sender.{
  ScreamTx, TxCall, LocalStream, State, Pc, starting, selecting, checking, asking, dequeuing,
  accounting, finished, call_tx, clear_stream, on_stream, notify, register_new_stream,
  new_local_stream, bind_local_stream, write_enqueue, write_announce, notify_ssrcs, RtcpPacket,
  raw_packet, other_packet, on_rtcp, incoming_feedback, close,
}
use rtq_go_endpoint.Scream.Sender.Queues.Reach.{Gives-bind, Gives-always}
use rtq_go_endpoint.Scream.Sender.Queues.Advance.{Gives, Holds}

Gives-map :
    {A : Type 0} (P Q : A → Type 0) (m : Run A) → ((a : A) → P a → Q a) → Gives P m → Gives Q m
Gives-map P Q (returns a) f h = f a h
Gives-map P Q (panics e) f h = tt
Gives-map P Q out_of_fuel f h = tt

module _ (rtp : Rtp) (fl : Float64) (stx : ScreamTx rtp fl) where
  open rtp use {Packet}

  abbrev S : Type 0
  S = State rtp fl stx

  -- Where a goroutine stands, its stream is there.
  abbrev pub Stands : S → Pc rtp fl stx → Type 0
  Stands s (starting ssrc) =
      (ptr : ℕ) × (lookup ssrc s.rtp_streams ≡ some ptr) × (ptr < length s.heap)
  Stands s (selecting ptr) = ptr < length s.heap
  Stands s (checking ptr) = ptr < length s.heap
  Stands s (asking ptr) = ptr < length s.heap
  Stands s (dequeuing ptr) = ptr < length s.heap
  Stands s (accounting ptr p) = ptr < length s.heap
  Stands s finished = Unit

  -- `t` has the streams and the goroutines of `s`, whatever became of the queues.
  pub record Same (s t : S) : Type 0 where
    pub streams : t.rtp_streams ≡ s.rtp_streams
    pub heap : length t.heap ≡ length s.heap
    pub workers : t.workers ≡ s.workers

  pub Same-refl : (s : S) → Same s s
  Same-refl s = record { streams = refl; heap = refl; workers = refl }

  pub Same-trans : {s t u : S} → Same s t → Same t u → Same s u
  Same-trans a b = record {
    streams = b.streams ∙ a.streams;
    heap = b.heap ∙ a.heap;
    workers = b.workers ∙ a.workers;
  }

  pub call_tx-Same : (c : TxCall) (s : S) → Same s (call_tx rtp fl stx c s).1
  unfolding call_tx
  call_tx-Same c s = record {
    streams = refl;
    heap = length-map (clear_stream rtp fl stx _) s.heap;
    workers = refl;
  }

  on_stream-Same :
      (ptr : ℕ) (s : S) (f : LocalStream rtp fl stx → LocalStream rtp fl stx)
      → Same s (on_stream rtp fl stx ptr s f)
  unfolding on_stream
  on_stream-Same ptr s f = elim (Option-cases (get_elem? s.heap ptr)) [
    | inl e ↦ simp (e, on_stream) (Same-refl s)
    | inr (ls, e) ↦
        simp (e, on_stream)
          (record { streams = refl; heap = length-set s.heap ptr (f ls); workers = refl })
  ]

  notify-Same : (ptr : ℕ) (s : S) → Same s (notify rtp fl stx ptr s)
  unfolding notify
  notify-Same ptr s = on_stream-Same ptr s _

  pub write_enqueue-Same :
      (now ptr : ℕ) (p : Packet) (s : S) → Same s (write_enqueue rtp fl stx now ptr p s)
  unfolding write_enqueue
  write_enqueue-Same now ptr p s = on_stream-Same ptr s _

  pub write_announce-Same :
      (now ptr ssrc : ℕ) (p : Packet) (s : S) → Same s (write_announce rtp fl stx now ptr ssrc p s)
  unfolding write_announce
  write_announce-Same now ptr ssrc p s = Same-trans (call_tx-Same _ s) (notify-Same ptr _)

  notify_ssrcs-Same : (ssrcs : List ℕ) (s : S) → Same s (notify_ssrcs rtp fl stx ssrcs s)
  unfolding notify_ssrcs
  notify_ssrcs-Same [] s = Same-refl s
  notify_ssrcs-Same (ssrc ∷ ssrcs) s =
      Same-trans
        (elim (lookup ssrc s.rtp_streams)
          as (λ o. Same s (elim o [ none ↦ s | some ptr ↦ notify rtp fl stx ptr s ])) [
            | none ↦ Same-refl s
            | some ptr ↦ notify-Same ptr s
          ])
        (notify_ssrcs-Same ssrcs _)

  pub on_rtcp-Same :
      (t : ℕ) (b : List ℕ) (pkts : List (RtcpPacket rtp fl stx)) (s : S)
      → Gives (Same s) (on_rtcp rtp fl stx t b pkts s)
  unfolding on_rtcp
  on_rtcp-Same t b [] s = Same-refl s
  on_rtcp-Same t b (other_packet ∷ pkts) s = on_rtcp-Same t b pkts s
  on_rtcp-Same t b (raw_packet p ∷ pkts) s =
      Gives-bind (λ _. Unit) (Same s) (extract_ssrcs p) _
        (Gives-always _ (extract_ssrcs p) (λ _. tt))
        (λ ssrcs _.
          Gives-map (Same (next ssrcs)) (Same s) (on_rtcp rtp fl stx t b pkts (next ssrcs))
            (λ u m. Same-trans {t = next ssrcs} {u = u} (told ssrcs) m)
            (on_rtcp-Same t b pkts (next ssrcs)))
    where
      next : List ℕ → S
      next ssrcs = notify_ssrcs rtp fl stx ssrcs (call_tx rtp fl stx (incoming_feedback t b) s).1

      told : (ssrcs : List ℕ) → Same s (next ssrcs)
      told ssrcs = Same-trans (call_tx-Same (incoming_feedback t b) s) (notify_ssrcs-Same ssrcs _)

  pub close-Same : (s : S) → Same s (close rtp fl stx s)
  unfolding close
  close-Same s =
      elim s.is_closed as (λ b. Same s (if b then s else record s { is_closed = true })) [
        | true ↦ Same-refl s
        | false ↦ record { streams = refl; heap = refl; workers = refl }
      ]

  -- A goroutine that stands in `s` stands in every state with those streams.
  pub Stands-same :
      (s t : S)
      → t.rtp_streams ≡ s.rtp_streams
      → length t.heap ≡ length s.heap
      → (pc : Pc rtp fl stx) → Stands s pc
      → Stands t pc
  Stands-same s t m h (starting ssrc) (ptr, e, lt) = (ptr, rw m e, rw h lt)
  Stands-same s t m h (selecting ptr) lt = rw h lt
  Stands-same s t m h (checking ptr) lt = rw h lt
  Stands-same s t m h (asking ptr) lt = rw h lt
  Stands-same s t m h (dequeuing ptr) lt = rw h lt
  Stands-same s t m h (accounting ptr p) lt = rw h lt
  Stands-same s t m h finished lt = tt
