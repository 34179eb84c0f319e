-- ===== src/Scream/Receiver/Closed.antt =====
-- internal/scream/receiver_interceptor.go: what is still possible after `Close`.
use rtq_go_endpoint.Common.{ℕ, true, Option, none, some, List, [], ◌∷◌, ◌≡◌, refl, subst}
use rtq_go_endpoint.External.{Rtp, Float64, ScreamRx}
use rtq_go_endpoint.Scream.Receiver.{
  State, bind_rtcp_writer, bind_remote_stream, unbind_remote_stream, close, Event, bind_writer,
  bind_stream, unbind_stream, shut, arrival, tick, leave, step, run,
}
use rtq_go_endpoint.Scream.Receiver.Streams.{run-some}

module _ (rtp : Rtp) (fl : Float64) (sx : ScreamRx) (new_rx : ℕ → sx.Rx) where
  abbrev S : Type 0
  S = State rtp fl sx new_rx

  -- Closed, with no loop left, and nothing sent since `s`.
  pub record Quiet (s t : S) : Type 0 where
    pub shut_down : t.is_closed ≡ true
    pub no_loops : t.loops ≡ 0
    pub nothing_sent : t.sent ≡ s.sent

  abbrev After : S → Option S → Type 0
  After s none = Unit
  After s (some t) = Quiet s t

  step-Quiet :
      (e : Event rtp fl sx new_rx) (s t : S) → Quiet s t → After s (step rtp fl sx new_rx e t)
  unfolding step bind_rtcp_writer bind_remote_stream unbind_remote_stream close
  step-Quiet bind_writer s t q =
      rw q.shut_down
        (record { shut_down = refl; no_loops = q.no_loops; nothing_sent = q.nothing_sent })
  step-Quiet (bind_stream id) s t q = record {
    shut_down = q.shut_down;
    no_loops = q.no_loops;
    nothing_sent = q.nothing_sent;
  }
  step-Quiet (unbind_stream id) s t q = record {
    shut_down = q.shut_down;
    no_loops = q.no_loops;
    nothing_sent = q.nothing_sent;
  }
  step-Quiet shut s t q =
      rw q.shut_down
        (record { shut_down = refl; no_loops = q.no_loops; nothing_sent = q.nothing_sent })
  step-Quiet (arrival now pkt) s t q = rw q.no_loops tt
  step-Quiet (tick visits) s t q = rw q.no_loops tt
  step-Quiet leave s t q = rw q.no_loops tt

  run-Quiet :
      (es : List (Event rtp fl sx new_rx)) (s t : S) {u : S}
      → Quiet s t
      → run rtp fl sx new_rx es t ≡ some u
      → Quiet s u
  unfolding run
  run-Quiet [] s t q h = subst (After s) h q
  run-Quiet (e ∷ es) s t q h =
      let (t', n, rest) = run-some rtp fl sx new_rx t.t0 e es t h in
      run-Quiet es s t' (subst (After s) n (step-Quiet e s t q)) rest

  -- Once the interceptor is closed and its loops have left, nothing is sent any more and no loop runs
  -- again, whatever is bound or arrives.
  pub closed-stays :
      (es : List (Event rtp fl sx new_rx)) (s : S) {t : S}
      → s.is_closed ≡ true
      → s.loops ≡ 0
      → run rtp fl sx new_rx es s ≡ some t
      → (t.is_closed ≡ true) × (t.loops ≡ 0) × (t.sent ≡ s.sent)
  closed-stays es s c l h =
      let q = run-Quiet es s s (record { shut_down = c; no_loops = l; nothing_sent = refl }) h in
      (q.shut_down, q.no_loops, q.nothing_sent)
