-- ===== src/Scream/RtpQueue/Tests.antt =====
-- Runs of the packet queue on concrete packets, and the laws at those inputs.
use rtq_go_endpoint.Common.{◌≡◌, refl, false, true, none, some, List, [], ◌∷◌, negsuc, arith}
use rtq_go_endpoint.External.{PlainPacket, plain_rtp, whole_floats}
use rtq_go_endpoint.Scream.RtpQueue.{
  Queue, new_queue, enqueue, dequeue, bytes_in_queue, seq_nr_of_last_rtp, get_delay,
  size_of_next_rtp, Call, int, nat, delay, packet, unit, run, call, ask_size_of_next_rtp,
  ask_bytes_in_queue, ask_seq_nr_of_last_rtp, ask_delay, do_dequeue, do_enqueue,
}
use rtq_go_endpoint.Scream.RtpQueue.Refine.{IsValid, call-IsValid, fifo_run, run_refines}

abbrev p1 : PlainPacket
p1 = record { size = 100; seq_nr = 7; source = 1; is_marked = false }

abbrev p2 : PlainPacket
p2 = record { size = 50; seq_nr = 8; source = 1; is_marked = true }

abbrev calls : List (Call plain_rtp whole_floats)
calls =
    do_enqueue p1 3
    ∷ do_enqueue p2 4
    ∷ ask_bytes_in_queue
    ∷ ask_seq_nr_of_last_rtp
    ∷ ask_delay 9
    ∷ do_dequeue
    ∷ ask_bytes_in_queue
    ∷ do_dequeue
    ∷ do_dequeue
    ∷ ask_size_of_next_rtp
    ∷ []

run-calls :
    run plain_rtp whole_floats (new_queue plain_rtp whole_floats) calls
    ≡ unit
      ∷ unit
      ∷ nat 150
      ∷ nat 8
      ∷ delay 6
      ∷ packet (some p1)
      ∷ nat 50
      ∷ packet (some p2)
      ∷ packet none
      ∷ int (negsuc 0)
      ∷ []
unfolding run call new_queue enqueue dequeue bytes_in_queue seq_nr_of_last_rtp get_delay
    size_of_next_rtp
run-calls = refl

run_refines_example :
    run plain_rtp whole_floats (new_queue plain_rtp whole_floats) calls
    ≡ fifo_run plain_rtp whole_floats [] calls
run_refines_example = run_refines plain_rtp whole_floats calls (omega arith)

abbrev one_waits : Queue plain_rtp whole_floats
one_waits = record { bytes_in_queue = 100; queue = record { packet = p1; ts = 3 } ∷ [] }

one_waits-IsValid : IsValid plain_rtp whole_floats one_waits
one_waits-IsValid = record { counted = refl }

calls_keep_count :
    IsValid plain_rtp whole_floats (call plain_rtp whole_floats one_waits do_dequeue).1
calls_keep_count = call-IsValid plain_rtp whole_floats do_dequeue one_waits one_waits-IsValid
