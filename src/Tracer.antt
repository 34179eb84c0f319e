-- ===== src/Tracer.antt =====
-- internal/utils/qlog_tracer.go: `RTTTracer`, which notes what quic-go reports of a connection, and
-- `Metrics`, which hands a copy to the SCReAM statistics and to the feedback inferer. Durations and
-- counters are kept as the bit patterns of their 64 bits. A congestion state is a uint8 of quic-go,
-- whose four constants are parameters. The lock makes each update one step; the callbacks of
-- `ConnectionRTTTracer` with an empty body are `Event.other`.
pub mod Summary
mod Tests
use rtq_go_endpoint.Common.{
  ℕ, Bool, true, false, List, [], ◌∷◌, ◌++◌, add64, ◌==◌, if◌then◌else◌, not,
}

pub record RttTracer : Type 0 where
  pub min_rtt : ℕ
  pub smoothed_rtt : ℕ
  pub rtt_var : ℕ
  pub latest_rtt : ℕ
  pub packet_loss : ℕ
  pub packet_dropped : ℕ
  pub slow_start : Bool
  pub congestion_avoidance : Bool
  pub recovery : Bool
  pub application_limited : Bool

pub record RttStats : Type 0 where
  pub min_rtt : ℕ
  pub smoothed_rtt : ℕ
  pub rtt_var : ℕ
  pub latest_rtt : ℕ
  pub packet_loss : ℕ
  pub packet_dropped : ℕ
  pub slow_start : Bool
  pub congestion_avoidance : Bool
  pub recovery : Bool
  pub application_limited : Bool

unfoldable pub metrics : RttTracer → RttStats
metrics q = record {
  min_rtt = q.min_rtt;
  smoothed_rtt = q.smoothed_rtt;
  rtt_var = q.rtt_var;
  latest_rtt = q.latest_rtt;
  packet_loss = q.packet_loss;
  packet_dropped = q.packet_dropped;
  slow_start = q.slow_start;
  congestion_avoidance = q.congestion_avoidance;
  recovery = q.recovery;
  application_limited = q.application_limited;
}

unfoldable pub update_min_rtt : ℕ → RttTracer → RttTracer
update_min_rtt minrtt q = record q { min_rtt = minrtt }

unfoldable pub update_smoothed_rtt : ℕ → RttTracer → RttTracer
update_smoothed_rtt srtt q = record q { smoothed_rtt = srtt }

unfoldable pub update_rtt_var : ℕ → RttTracer → RttTracer
update_rtt_var rttvar q = record q { rtt_var = rttvar }

unfoldable pub update_latest_rtt : ℕ → RttTracer → RttTracer
update_latest_rtt rttvar q = record q { latest_rtt = rttvar }

unfoldable pub update_packet_drop : RttTracer → RttTracer
update_packet_drop q = record q { packet_dropped = add64 q.packet_dropped 1 }

unfoldable pub update_packet_loss : RttTracer → RttTracer
update_packet_loss q = record q { packet_loss = add64 q.packet_loss 1 }

-- logging.CongestionState of quic-go
pub record CongestionStates : Type 0 where
  pub slow_start_state : ℕ
  pub congestion_avoidance_state : ℕ
  pub recovery_state : ℕ
  pub application_limited_state : ℕ

unfoldable pub update_congestion_state : CongestionStates → ℕ → RttTracer → RttTracer
update_congestion_state c state q =
    let cleared : RttTracer = record q {
      slow_start = false;
      congestion_avoidance = false;
      recovery = false;
      application_limited = false;
    } in
    if state == c.slow_start_state
    then record cleared { slow_start = true }
    else if state == c.congestion_avoidance_state
    then record cleared { congestion_avoidance = true }
    else if state == c.recovery_state
    then record cleared { recovery = true }
    else if state == c.application_limited_state
    then record cleared { application_limited = true }
    else cleared

unfoldable pub new_tracer : RttTracer
new_tracer = record {
  min_rtt = 0;
  smoothed_rtt = 0;
  rtt_var = 0;
  latest_rtt = 0;
  packet_loss = 0;
  packet_dropped = 0;
  slow_start = false;
  congestion_avoidance = false;
  recovery = false;
  application_limited = false;
}

-- What the four readings of quic-go's RTTStats give.
pub record Sample : Type 0 where
  pub min : ℕ
  pub smoothed : ℕ
  pub mean_deviation : ℕ
  pub latest : ℕ

abbrev pub unless_zero : ℕ → (ℕ → RttTracer → RttTracer) → RttTracer → RttTracer
unless_zero n update q = if not (n == 0) then update n q else q

unfoldable pub updated_metrics : Sample → RttTracer → RttTracer
updated_metrics s q = unless_zero s.latest update_latest_rtt (
    unless_zero s.mean_deviation update_rtt_var
      (unless_zero s.smoothed update_smoothed_rtt (unless_zero s.min update_min_rtt q)))

-- The calls that quic-go makes of a connection's tracer.
pub data Event : Type 0 where
  dropped_packet lost_packet other : Event
  sampled : Sample → Event
  congestion : (state : ℕ) → Event

unfoldable pub on_event : CongestionStates → Event → RttTracer → RttTracer
on_event c dropped_packet q = update_packet_drop q
on_event c lost_packet q = update_packet_loss q
on_event c other q = q
on_event c (sampled s) q = updated_metrics s q
on_event c (congestion state) q = update_congestion_state c state q

unfoldable pub run : CongestionStates → List Event → RttTracer → RttTracer
run c [] q = q
run c (e ∷ es) q = run c es (on_event c e q)
