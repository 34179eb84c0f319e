-- ===== src/Rtc/FeedbackInferer/Tests.antt =====
-- rtc/feedback_inferer.go on concrete acknowledgements, with an insertion sort for `sort.Slice`.
use mathlib.Core.List.{Perm, Mem}
use rtq_go_endpoint.Common.{
  ℕ, ◌≤◌, ◌*◌, ◌≡◌, refl, Option, false, none, List, [], ◌∷◌, ◌++◌, map, All,
}
use rtq_go_endpoint.External.{whole_floats}
use rtq_go_endpoint.Tracer.{RttStats}
use rtq_go_endpoint.Rtc.FeedbackInferer.{
  AckedPkt, Ascending, Inferer, report, report_ts, ntp_time, get_time_between_ntp, on_acked,
  on_tick, Event, ack, timer, buffer, new_inferer,
}
use rtq_go_endpoint.Rtc.FeedbackInferer.Insertion.{insert_pkt, sort_pkts, by_insertion}
use rtq_go_endpoint.Rtc.FeedbackInferer.Reports.{
  Received, call_of, writing_rx, acks, on_tick-calls, buffer-reports,
}
use rtq_go_endpoint.Rtc.FeedbackInferer.Timestamp.{timed_rx, on_tick-last_ts}

abbrev pkt : ℕ → ℕ → AckedPkt
pkt sent seq = record { sent_ts = sent * 1_000_000_000; ssrc = 1; size = 100; seq_nr = seq }

abbrev rtts : RttStats
rtts = record {
  min_rtt = 0;
  smoothed_rtt = 0;
  rtt_var = 0;
  latest_rtt = 2_000_000_000;
  packet_loss = 0;
  packet_dropped = 0;
  slow_start = false;
  congestion_avoidance = false;
  recovery = false;
  application_limited = false;
}

abbrev quiet : ℕ → List Received → Option (List ℕ)
quiet t rx = none

abbrev events : List (Event whole_floats (writing_rx quiet) by_insertion)
events = ack (pkt 10 8) ∷ ack (pkt 9 7) ∷ timer rtts ∷ timer rtts ∷ ack (pkt 11 9) ∷ []

abbrev writing : Inferer whole_floats (writing_rx quiet) by_insertion
writing = record (new_inferer whole_floats (writing_rx quiet) by_insertion [] 0 false) {
  buf = pkt 10 8 ∷ pkt 9 7 ∷ [];
}

buffer_runs :
    let f =
      buffer whole_floats
        (writing_rx quiet)
        by_insertion
        events
        (new_inferer whole_floats (writing_rx quiet) by_insertion [] 0 false) in
    (f.rx ≡ call_of (pkt 9 7) ∷ call_of (pkt 10 8) ∷ []) × (f.buf ≡ pkt 11 9 ∷ [])
unfolding buffer on_acked on_tick report sort_pkts insert_pkt
buffer_runs = (refl, refl)

on_tick-calls_run :
    (sorted : List AckedPkt) × Perm writing.buf sorted
    × Ascending sorted
    × ((on_tick whole_floats (writing_rx quiet) by_insertion rtts writing).rx
        ≡ writing.rx ++ map call_of sorted)
    × ((on_tick whole_floats (writing_rx quiet) by_insertion rtts writing).buf ≡ [])
on_tick-calls_run = on_tick-calls whole_floats by_insertion quiet rtts writing

buffer-reports_run :
    let f =
      buffer whole_floats
        (writing_rx quiet)
        by_insertion
        events
        (new_inferer whole_floats (writing_rx quiet) by_insertion [] 0 false) in
    Perm (map call_of (acks whole_floats by_insertion quiet events)) (f.rx ++ map call_of f.buf)
buffer-reports_run = buffer-reports whole_floats by_insertion quiet events 0 false

-- the sequence numbers wrap around: 65535 was sent at 10 s, 0 at 11 s
abbrev wrapped : Inferer whole_floats timed_rx by_insertion
wrapped = record (new_inferer whole_floats timed_rx by_insertion tt 0 false) {
  buf = pkt 10 65535 ∷ pkt 11 0 ∷ [];
}

-- The feedback is made for 11 s (the send time of the older packet and half of two seconds).
wrapped_runs :
    (on_tick whole_floats timed_rx by_insertion rtts wrapped).received ≡ (11 * 65536 ∷ []) ∷ []
unfolding on_tick report report_ts ntp_time get_time_between_ntp sort_pkts insert_pkt
wrapped_runs = refl

on_tick-last_ts_example :
    (l : AckedPkt) × Mem l wrapped.buf
    × All (λ q. q.seq_nr ≤ l.seq_nr) wrapped.buf
    × ((on_tick whole_floats timed_rx by_insertion rtts wrapped).received
        ≡ wrapped.received
          ++ ((report_ts whole_floats timed_rx by_insertion wrapped rtts l ∷ []) ∷ []))
on_tick-last_ts_example = on_tick-last_ts whole_floats by_insertion rtts wrapped (λ e. cc e)
