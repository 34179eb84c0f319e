-- ===== src/Rtc/FeedbackInferer/Acks/Tests.antt =====
-- rtc/feedback_inferer.go: two packets on their way from the writer to `Receive`.
use mathlib.Core.List.{Perm}
use rtq_go_endpoint.Common.{
  ℕ, ◌*◌, ◌≡◌, refl, true, false, Option, none, some, List, [], ◌∷◌, ◌++◌, map,
}
use rtq_go_endpoint.External.{whole_floats}
use rtq_go_endpoint.Rtc.Writers.{inferring_answer}
use rtq_go_endpoint.Rtc.FeedbackInferer.{AckedPkt, new_inferer, on_acked}
use rtq_go_endpoint.Rtc.FeedbackInferer.Insertion.{by_insertion}
use rtq_go_endpoint.Rtc.FeedbackInferer.Reports.{Received, call_of, writing_rx}
use rtq_go_endpoint.Rtc.FeedbackInferer.Acks.{
  Header, take_out, Passage, new_passage, rtp_writer_func, notify, send, receive_acked, Step, write,
  notified, sends, receives, step, run,
}
use rtq_go_endpoint.Rtc.FeedbackInferer.Acks.Conserved.{arrivals_conserved}

abbrev quiet : ℕ → List Received → Option (List ℕ)
quiet t rx = none

abbrev second : ℕ → ℕ
second n = n * 1_000_000_000

abbrev header : ℕ → Header
header seq = record { marshal_size = 12; ssrc = 1; sequence_number = seq }

abbrev steps : List (Step whole_floats (writing_rx quiet) by_insertion)
steps =
    write (second 1) (header 7) (0 ∷ 0 ∷ []) (14, none)
    ∷ write (second 2) (header 8) [] (12, none)
    ∷ notified 1 true
    ∷ notified 0 true
    ∷ sends 1
    ∷ receives
    ∷ []

abbrev first : AckedPkt
first = record { sent_ts = second 1; ssrc = 1; size = 14; seq_nr = 7 }

abbrev other : AckedPkt
other = record { sent_ts = second 2; ssrc = 1; size = 12; seq_nr = 8 }

abbrev after : Passage whole_floats (writing_rx quiet) by_insertion
after = record {
  written = first ∷ other ∷ [];
  sending = other ∷ [];
  acked = [];
  inferer = record (new_inferer whole_floats (writing_rx quiet) by_insertion [] 0 false) {
    buf = first ∷ [];
  };
  arrived = other ∷ first ∷ [];
}

steps-run :
    run whole_floats (writing_rx quiet) by_insertion steps (
      new_passage whole_floats
        (writing_rx quiet)
        by_insertion
        (new_inferer whole_floats (writing_rx quiet) by_insertion [] 0 false))
    ≡ some after
unfolding run step rtp_writer_func notify send receive_acked on_acked take_out inferring_answer
steps-run = refl

arrivals_conserved_example :
    Perm
      (map call_of (other ∷ first ∷ []))
      ([] ++ map call_of ((first ∷ []) ++ ([] ++ (other ∷ []))))
arrivals_conserved_example =
    arrivals_conserved whole_floats by_insertion quiet steps 0 false steps-run
