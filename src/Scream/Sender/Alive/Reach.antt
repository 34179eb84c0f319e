-- ===== src/Scream/Sender/Alive/Reach.antt =====
-- internal/scream/sender_interceptor.go: no goroutine of a stream panics.
use rtq_go_endpoint.Common.{
  All-mono, ℕ, ◌+◌, ◌≡◌, refl, subst, true, false, inl, inr, Option, none, some, [], ◌∷◌, ◌++◌,
  length, length-append, get_elem?, All-append, All-get_elem?, Run, returns, panics, out_of_fuel,
  lookup, insert, lookup-insert, ◌==◌, Bool-cases, Option-cases, if◌then◌else◌, arith,
}
use rtq_go_endpoint.External.{Rtp, Float64}
use rtq_go_endpoint.Scream.Sender.{
  ScreamTx, State, Pc, starting, selecting, checking, asking, dequeuing, accounting, finished,
  call_tx, register_new_stream, new_local_stream, bind_local_stream,
}
use rtq_go_endpoint.Scream.Sender.Loop.{
  Case, lift, Event, bind, put, announce, rtcp, unbind, shut, go, step, Reachable, fresh, later,
}
use rtq_go_endpoint.Scream.Sender.Queues.Advance.{Gives, Holds}
use rtq_go_endpoint.Scream.Sender.Queues.Reach.{Gives-bind, unbind-panics}
use rtq_go_endpoint.Scream.Sender.Alive.{
  Stands, Same, call_tx-Same, write_enqueue-Same, write_announce-Same, on_rtcp-Same, close-Same,
}
use rtq_go_endpoint.Scream.Sender.Alive.Steps.{Alive, Fine, Same-Alive, advance-Fine}

module _ (rtp : Rtp) (fl : Float64) (stx : ScreamTx rtp fl) where
  open rtp use {Packet}

  abbrev Sender : Type 0
  Sender = State rtp fl stx

  abbrev AliveState : Sender → Type 0
  AliveState s = Alive rtp fl stx s

  abbrev FineRun : Run (Option Sender) → Type 0
  FineRun m = Fine rtp fl stx m

  bind-Alive :
      (ssrc : ℕ) (s : Sender) → AliveState s → AliveState (bind_local_stream rtp fl stx ssrc s)
  unfolding bind_local_stream
  bind-Alive ssrc s alive =
      elim s.is_closed
        as (λ b.
          AliveState (if b then s else (call_tx rtp fl stx (register_new_stream ssrc) made).1)) [
            | true ↦ alive
            | false ↦
                Same-Alive rtp fl stx (call_tx-Same rtp fl stx (register_new_stream ssrc) made) (
                  All-append (Stands rtp fl stx made) s.workers _
                    (All-mono (Stands rtp fl stx s) (Stands rtp fl stx made) kept s.workers alive)
                    ((length s.heap, found, omega (arith, longer)), tt))
          ]
    where
      made : Sender
      made = record s {
        rtp_streams = insert ssrc (length s.heap) s.rtp_streams;
        heap = s.heap ++ (new_local_stream rtp fl stx ssrc ∷ []);
        workers = s.workers ++ (starting ssrc ∷ []);
      }

      longer : length made.heap ≡ length s.heap + 1
      longer = length-append s.heap (new_local_stream rtp fl stx ssrc ∷ [])

      found : lookup ssrc made.rtp_streams ≡ some (length s.heap)
      found = ground (arith, lookup-insert ssrc ssrc (length s.heap) s.rtp_streams)

      kept : (pc : Pc rtp fl stx) → Stands rtp fl stx s pc → Stands rtp fl stx made pc
      kept (starting id) (ptr, e, lt) = elim (Bool-cases (ssrc == id)) [
        | inl same ↦ (
          length s.heap,
          rw (lookup-insert ssrc id (length s.heap) s.rtp_streams, same),
          omega (arith, longer),
        )
        | inr other ↦ (
          ptr,
          rw (lookup-insert ssrc id (length s.heap) s.rtp_streams, other) e,
          omega (arith, longer, lt),
        )
      ]
      kept (selecting ptr) lt = omega (arith, longer, lt)
      kept (checking ptr) lt = omega (arith, longer, lt)
      kept (asking ptr) lt = omega (arith, longer, lt)
      kept (dequeuing ptr) lt = omega (arith, longer, lt)
      kept (accounting ptr p) lt = omega (arith, longer, lt)
      kept finished lt = tt

  Fine-Gives : (m : Run (Option Sender)) → FineRun m → Gives (Holds AliveState) m
  Fine-Gives (returns none) h = tt
  Fine-Gives (returns (some t)) h = h
  Fine-Gives (panics e) h = tt
  Fine-Gives out_of_fuel h = tt

  go-Fine :
      (w : ℕ) (c : Case) (now : ℕ) (s : Sender)
      → AliveState s
      → FineRun (step rtp fl stx (go w c now) s)
  unfolding step
  go-Fine w c now s alive = elim (Option-cases (get_elem? s.workers w)) [
    | inl e ↦ rw (step, e) tt
    | inr (pc, e) ↦
        rw (step, e)
          (advance-Fine rtp fl stx w c now s pc alive
            (All-get_elem? (Stands rtp fl stx s) s.workers w alive e))
  ]

  step-Alive :
      (e : Event rtp fl stx) {s : Sender}
      → Reachable rtp fl stx s
      → AliveState s
      → Gives (Holds AliveState) (step rtp fl stx e s)
  unfolding step lift
  step-Alive (bind ssrc) {s} r alive = bind-Alive ssrc s alive
  step-Alive (put now ptr p) {s} r alive =
      Same-Alive rtp fl stx (write_enqueue-Same rtp fl stx now ptr p s) alive
  step-Alive (announce now ptr ssrc p) {s} r alive =
      Same-Alive rtp fl stx (write_announce-Same rtp fl stx now ptr ssrc p s) alive
  step-Alive (rtcp now b pkts) {s} r alive =
      Gives-bind (Same rtp fl stx s) (Holds AliveState) _ _ (on_rtcp-Same rtp fl stx _ b pkts s)
        (λ t m. Same-Alive rtp fl stx m alive)
  step-Alive (unbind ssrc) r alive = rw (unbind-panics rtp fl stx r ssrc) tt
  step-Alive shut {s} r alive = Same-Alive rtp fl stx (close-Same rtp fl stx s) alive
  step-Alive (go w c now) {s} r alive = Fine-Gives _ (go-Fine w c now s alive)

  Reachable-Alive : {s : Sender} → Reachable rtp fl stx s → AliveState s
  Reachable-Alive (fresh tx t0) = tt
  Reachable-Alive (later e r h) =
      subst (Gives (Holds AliveState)) h (step-Alive e r (Reachable-Alive r))

  Fine-returns : (m : Run (Option Sender)) → FineRun m → (o : Option Sender) × (m ≡ returns o)
  Fine-returns (returns o) h = (o, refl)
  Fine-returns (panics e) h = absurd h
  Fine-returns out_of_fuel h = absurd h

  -- In every reachable state each goroutine, at the place where it stands and whatever its select
  -- finds, goes on without a panic, or has nothing to do yet.
  pub go-returns :
      {s : Sender}
      → Reachable rtp fl stx s
      → (w : ℕ) (c : Case) (now : ℕ)
      → (o : Option Sender) × (step rtp fl stx (go w c now) s ≡ returns o)
  go-returns {s} r w c now = Fine-returns _ (go-Fine w c now s (Reachable-Alive r))
