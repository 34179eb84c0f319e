-- ===== src/Rtc/Ending/Tests.antt =====
-- rtc/sender.go, rtc/receiver.go: `Close` is called while the pipeline runs.
use rtq_go_endpoint.Common.{false, true, refl}
use rtq_go_endpoint.Rtc.Ending.{receiver, State, started, closes, step, Reachable, fresh, later}
use rtq_go_endpoint.Rtc.Ending.Wound.{Wound, Reachable-Wound}

abbrev closed : State
closed = record (started 2) {
  signals = record { is_eos = false; is_closed = true; errors_waiting = 0 };
}

closed-Reachable : Reachable receiver closed
unfolding step
closed-Reachable = later closes (fresh 2) refl

Reachable-Wound_example : Wound receiver closed.phase closed.signals closed.calls
Reachable-Wound_example = Reachable-Wound closed-Reachable
