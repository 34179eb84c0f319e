-- ===== src/Scream/Receiver/Tests.antt =====
-- internal/scream/receiver_interceptor.go on two streams, and its laws there.
use rtq_go_endpoint.Common.{
  ℕ, ◌*◌, ◌≡◌, refl, true, false, some, List, [], ◌∷◌, lookup, insert, erase,
}
use rtq_go_endpoint.External.{PlainPacket, plain_rtp, whole_floats, noting_rx}
use rtq_go_endpoint.Scream.Ntp.{get_time_between_ntp}
use rtq_go_endpoint.Scream.Receiver.{
  State, new_receiver_interceptor, Event, bind_writer, bind_stream, unbind_stream, shut, arrival,
  tick, step, run, bind_rtcp_writer, bind_remote_stream, unbind_remote_stream, close, on_packet,
  on_tick, ask_feedback,
}
use rtq_go_endpoint.Scream.Receiver.Streams.{run-streams}
use rtq_go_endpoint.Scream.Receiver.Closed.{closed-stays}

abbrev S : Type 0
S = State plain_rtp whole_floats noting_rx (λ id. [])

abbrev E : Type 0
E = Event plain_rtp whole_floats noting_rx (λ id. [])

abbrev pkt : ℕ → ℕ → PlainPacket
pkt id n = record { size = 100; seq_nr = n; source = id; is_marked = false }

abbrev second : ℕ → ℕ
second n = n * 1_000_000_000

abbrev events : List E
events =
    bind_writer
    ∷ bind_stream 3
    ∷ bind_stream 4
    ∷ arrival (second 1) (pkt 3 70)
    ∷ arrival (second 2) (pkt 4 80)
    ∷ arrival (second 3) (pkt 3 71)
    ∷ tick ((4, second 4) ∷ (3, second 5) ∷ [])
    ∷ unbind_stream 4
    ∷ []

abbrev before : S
before = new_receiver_interceptor plain_rtp whole_floats noting_rx (λ id. []) 0

abbrev after : S
after = record {
  is_closed = false;
  t0 = 0;
  scream_rx = (3, (3 * 65536, 71) ∷ (1 * 65536, 70) ∷ []) ∷ [];
  loops = 1;
  sent = (4 * 65536 ∷ []) ∷ (5 * 65536 ∷ []) ∷ [];
}

events-run : run plain_rtp whole_floats noting_rx (λ id. []) events before ≡ some after
unfolding run step bind_rtcp_writer bind_remote_stream unbind_remote_stream on_packet on_tick
    ask_feedback lookup insert erase get_time_between_ntp
events-run = refl

run-streams_example : lookup 3 after.scream_rx ≡ some ((3 * 65536, 71) ∷ (1 * 65536, 70) ∷ [])
unfolding lookup get_time_between_ntp
run-streams_example =
    run-streams plain_rtp whole_floats noting_rx (λ id. []) 0 3 events before refl events-run

abbrev closed : S
closed = record after { is_closed = true; loops = 0 }

bound_late :
    run plain_rtp whole_floats noting_rx
      (λ id. [])
      (bind_writer ∷ shut ∷ unbind_stream 4 ∷ [])
      closed
    ≡ some closed
unfolding run step bind_rtcp_writer close unbind_remote_stream erase
bound_late = refl

closed-stays_run : (closed.is_closed ≡ true) × (closed.loops ≡ 0) × (closed.sent ≡ after.sent)
closed-stays_run =
    closed-stays plain_rtp whole_floats noting_rx (λ id. [])
      (bind_writer ∷ shut ∷ unbind_stream 4 ∷ []) closed refl refl bound_late
