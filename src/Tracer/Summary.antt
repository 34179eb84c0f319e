-- ===== src/Tracer/Summary.antt =====
-- internal/utils/qlog_tracer.go: what `Metrics` shows, told from the whole history of a connection.
use rtq_go_endpoint.Common.{
  ℕ, ◌+◌, ◌%◌, ◌^◌, ◌≡◌, ◌≢◌, refl, Bool, false, List, [], ◌∷◌, ◌==◌, if◌then◌else◌, arith,
}
use rtq_go_endpoint.Tracer.{
  RttTracer, RttStats, metrics, update_min_rtt, update_smoothed_rtt, update_rtt_var,
  update_latest_rtt, update_packet_drop, update_packet_loss, CongestionStates,
  update_congestion_state, new_tracer, Sample, updated_metrics, Event, dropped_packet, lost_packet,
  other, sampled, congestion, on_event, run,
}

-- A history has the newest event first.
pub newest_first : List Event → List Event → List Event
newest_first [] older = older
newest_first (e ∷ es) older = newest_first es (e ∷ older)

-- The newest reading that is not zero; zero if there is none.
pub last_nonzero : (Sample → ℕ) → List Event → ℕ
last_nonzero f [] = 0
last_nonzero f (sampled s ∷ older) =
    let before = last_nonzero f older in if f s == 0 then before else f s
last_nonzero f (_ ∷ older) = last_nonzero f older

pub losses : List Event → ℕ
losses [] = 0
losses (lost_packet ∷ older) = losses older + 1
losses (_ ∷ older) = losses older

pub drops : List Event → ℕ
drops [] = 0
drops (dropped_packet ∷ older) = drops older + 1
drops (_ ∷ older) = drops older

-- Whether the newest congestion state that was reported is `state`.
pub is_in : ℕ → List Event → Bool
is_in state [] = false
is_in state (congestion s ∷ older) = s == state
is_in state (_ ∷ older) = is_in state older

pub summary : CongestionStates → List Event → RttStats
summary c h = record {
  min_rtt = last_nonzero (λ s. s.min) h;
  smoothed_rtt = last_nonzero (λ s. s.smoothed) h;
  rtt_var = last_nonzero (λ s. s.mean_deviation) h;
  latest_rtt = last_nonzero (λ s. s.latest) h;
  packet_loss = losses h % 2 ^ 64;
  packet_dropped = drops h % 2 ^ 64;
  slow_start = is_in c.slow_start_state h;
  congestion_avoidance = is_in c.congestion_avoidance_state h;
  recovery = is_in c.recovery_state h;
  application_limited = is_in c.application_limited_state h;
}

-- The four constants are different numbers, without which the switch would not compile.
pub record AreDistinct (c : CongestionStates) : Type 0 where
  pub slow_avoid : c.slow_start_state ≢ c.congestion_avoidance_state
  pub slow_recover : c.slow_start_state ≢ c.recovery_state
  pub slow_limited : c.slow_start_state ≢ c.application_limited_state
  pub avoid_recover : c.congestion_avoidance_state ≢ c.recovery_state
  pub avoid_limited : c.congestion_avoidance_state ≢ c.application_limited_state
  pub recover_limited : c.recovery_state ≢ c.application_limited_state

module _ (c : CongestionStates) (distinct : AreDistinct c) where
  on_event-summary :
      (e : Event) (h : List Event) (q : RttTracer)
      → metrics q ≡ summary c h
      → metrics (on_event c e q) ≡ summary c (e ∷ h)
  unfolding metrics on_event update_packet_drop update_packet_loss updated_metrics update_min_rtt
      update_smoothed_rtt update_rtt_var update_latest_rtt update_congestion_state summary
      last_nonzero losses drops is_in
  on_event-summary dropped_packet h q e = ground arith
  on_event-summary lost_packet h q e = ground arith
  on_event-summary other h q e = ground arith
  on_event-summary (sampled s) h q e = ground arith
  on_event-summary (congestion state) h q e = ground arith

  run-summary :
      (es h : List Event) (q : RttTracer)
      → metrics q ≡ summary c h
      → metrics (run c es q) ≡ summary c (newest_first es h)
  unfolding run newest_first
  run-summary [] h q e = e
  run-summary (v ∷ es) h q e = run-summary es (v ∷ h) (on_event c v q) (on_event-summary v h q e)

  -- After any calls of a connection's tracer, `Metrics` shows for each round-trip figure the newest
  -- reading that was not zero, the numbers of lost and of dropped packets modulo 2^64, and as the one
  -- flag that is up the newest congestion state, if one of the four was reported. It asks that the
  -- constants of the four states are different.
  pub metrics-summary :
      (es : List Event) → metrics (run c es new_tracer) ≡ summary c (newest_first es [])
  unfolding new_tracer metrics summary last_nonzero losses drops is_in
  metrics-summary es = run-summary es [] new_tracer refl
