-- ===== src/Tracer/Tests.antt =====
-- internal/utils/qlog_tracer.go on a concrete history, and its law there.
use rtq_go_endpoint.Common.{◌≡◌, refl, true, false, List, [], ◌∷◌, arith}
use rtq_go_endpoint.Tracer.{
  metrics, RttStats, CongestionStates, new_tracer, Event, dropped_packet, lost_packet, other,
  sampled, congestion, run, on_event, update_packet_drop, update_packet_loss, updated_metrics,
  update_min_rtt, update_smoothed_rtt, update_rtt_var, update_latest_rtt, update_congestion_state,
}
use rtq_go_endpoint.Tracer.Summary.{newest_first, summary, metrics-summary}

abbrev states : CongestionStates
states = record {
  slow_start_state = 0;
  congestion_avoidance_state = 1;
  recovery_state = 2;
  application_limited_state = 3;
}

abbrev events : List Event
events =
    congestion 0
    ∷ sampled (record { min = 20; smoothed = 25; mean_deviation = 5; latest = 30 })
    ∷ lost_packet
    ∷ congestion 2
    ∷ sampled (record { min = 0; smoothed = 24; mean_deviation = 0; latest = 22 })
    ∷ dropped_packet
    ∷ other
    ∷ lost_packet
    ∷ []

abbrev shown : RttStats
shown = record {
  min_rtt = 20;
  smoothed_rtt = 24;
  rtt_var = 5;
  latest_rtt = 22;
  packet_loss = 2;
  packet_dropped = 1;
  slow_start = false;
  congestion_avoidance = false;
  recovery = true;
  application_limited = false;
}

metrics-shown : metrics (run states events new_tracer) ≡ shown
unfolding metrics run new_tracer on_event update_packet_drop update_packet_loss updated_metrics
    update_min_rtt update_smoothed_rtt update_rtt_var update_latest_rtt update_congestion_state
metrics-shown = refl

metrics-summary_example :
    metrics (run states events new_tracer) ≡ summary states (newest_first events [])
metrics-summary_example = metrics-summary states (omega arith) events
