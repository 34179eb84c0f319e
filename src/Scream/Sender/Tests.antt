-- ===== src/Scream/Sender/Tests.antt =====
-- internal/scream/sender_interceptor.go on a concrete stream, and its laws there.
use rtq_go_endpoint.Scream.Sender.Alive.Reach.{go-returns}
use rtq_go_endpoint.Scream.Sender.Drains.{Permits, Goes}
use rtq_go_endpoint.Scream.Sender.Drains.Emptied.{queue_drains}
use rtq_go_endpoint.Scream.Sender.Loop.{go, default, advance}
use rtq_go_endpoint.Common.{
  ◌≤◌, get_elem?, some, Option, returns, ℕ, ◌≡◌, ◌++◌, refl, false, [], ◌∷◌, panics, close_of_nil,
  lookup, insert,
}
use rtq_go_endpoint.External.{PlainPacket, plain_rtp, whole_floats}
use rtq_go_endpoint.Scream.Ntp.{get_time_between_ntp}
use rtq_go_endpoint.Scream.RtpQueue.{enqueue, new_queue}
use rtq_go_endpoint.Scream.RtpQueue.Refine.{IsValid}
use rtq_go_endpoint.Scream.Sender.{
  selecting, ScreamTx, LocalStream, new_local_stream, State, bind_local_stream, write_enqueue,
  unbind_local_stream, call_tx,
}
use rtq_go_endpoint.Scream.Sender.Loop.{
  bind, put, Reachable, fresh, later, step, new_sender_interceptor,
}
use rtq_go_endpoint.Scream.Sender.Queues.{packets, queued}
use rtq_go_endpoint.Scream.Sender.Queues.Reach.{streams_in_order, unbind-panics}

-- A `Tx` that always lets a packet go, and clears nothing.
abbrev willing : ScreamTx plain_rtp whole_floats
willing = record { Tx = ℕ; call = λ c qs n. (0, [], n); get_target_bitrate = λ ssrc n. n }

abbrev S : Type 0
S = State plain_rtp whole_floats willing

abbrev p1 : PlainPacket
p1 = record { size = 100; seq_nr = 7; source = 9; is_marked = false }

abbrev p2 : PlainPacket
p2 = record { size = 50; seq_nr = 8; source = 9; is_marked = false }

abbrev new : S
new = new_sender_interceptor plain_rtp whole_floats willing 0 0

abbrev bound : S
bound = bind_local_stream plain_rtp whole_floats willing 9 new

bound-Reachable : Reachable plain_rtp whole_floats willing bound
unfolding step
bound-Reachable = later (bind 9) (fresh 0 0) refl

abbrev enqueued : S
enqueued =
    write_enqueue plain_rtp whole_floats willing 5 0 p2
      (write_enqueue plain_rtp whole_floats willing 4 0 p1 bound)

enqueued-Reachable : Reachable plain_rtp whole_floats willing enqueued
unfolding step
enqueued-Reachable = later (put 5 0 p2) (later (put 4 0 p1) bound-Reachable refl) refl

abbrev both : LocalStream plain_rtp whole_floats willing
both = record (new_local_stream plain_rtp whole_floats willing 9) {
  queue =
      enqueue plain_rtp whole_floats
        (enqueue plain_rtp whole_floats (new_queue plain_rtp whole_floats) p1 0) p2 0;
  enqueued = p1 ∷ p2 ∷ [];
}

streams_in_order_example :
    (both.enqueued
      ≡ packets plain_rtp whole_floats willing both.taken
        ++ queued plain_rtp whole_floats willing both)
    × IsValid plain_rtp whole_floats both.queue
unfolding bind_local_stream write_enqueue call_tx new_queue enqueue get_time_between_ntp
streams_in_order_example =
    streams_in_order plain_rtp whole_floats willing enqueued-Reachable 0 both refl

unbind-panics_example :
    unbind_local_stream plain_rtp whole_floats willing 9 bound ≡ panics close_of_nil
unfolding bind_local_stream call_tx lookup insert
unbind-panics_example = unbind-panics plain_rtp whole_floats willing bound-Reachable 9

-- The goroutine of the stream takes the first packet.
go-returns_example :
    (o : Option S) × (step plain_rtp whole_floats willing (go 0 default 6) enqueued ≡ returns o)
go-returns_example = go-returns plain_rtp whole_floats willing enqueued-Reachable 0 default 6

-- The goroutine has come to its select once.
abbrev running : S
running = record enqueued { workers = selecting 0 ∷ [] }

running-Reachable : Reachable plain_rtp whole_floats willing running
unfolding step advance lookup insert bind_local_stream write_enqueue call_tx
running-Reachable = later (go 0 default 6) enqueued-Reachable refl

willing-Permits : Permits plain_rtp whole_floats willing
willing-Permits time ssrc queues tx = refl

queue_drains_example :
    (n : ℕ) × (t : S) × (ls' : LocalStream plain_rtp whole_floats willing) × Goes plain_rtp
      whole_floats willing 0 n running t
    × (n ≤ 14)
    × (get_elem? t.heap 0 ≡ some ls')
    × (ls'.queue.queue ≡ [])
    × (packets plain_rtp whole_floats willing ls'.taken ≡ p1 ∷ p2 ∷ [])
unfolding bind_local_stream write_enqueue call_tx new_queue enqueue get_time_between_ntp
queue_drains_example =
    queue_drains plain_rtp whole_floats willing willing-Permits running-Reachable 0 0 (selecting 0)
      both refl refl refl refl (refl, tt)
