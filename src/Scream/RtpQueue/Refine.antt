-- ===== src/Scream/RtpQueue/Refine.antt =====
-- internal/scream/rtp_queue.go against a plain first-in first-out list of packets.
use rtq_go_endpoint.Common.{
  ℕ, ◌+◌, ◌%◌, ◌^◌, ◌<◌, ◌≡◌, refl, ap, ◌≤◌, none, some, List, [], ◌∷◌, ◌++◌, length, last?, sum_by,
  sum_by-append, pos, negsuc, sub64-add, arith,
}
use rtq_go_endpoint.External.{Rtp, Float64}
use rtq_go_endpoint.Scream.RtpQueue.{
  RtpQueueItem, Queue, new_queue, size_of_next_rtp, seq_nr_of_next_rtp, seq_nr_of_last_rtp,
  bytes_in_queue, size_of_queue, get_delay, get_size_of_last_frame, clear, enqueue, dequeue, Call,
  ask_size_of_next_rtp, ask_seq_nr_of_next_rtp, ask_seq_nr_of_last_rtp, ask_bytes_in_queue,
  ask_size_of_queue, ask_size_of_last_frame, ask_delay, do_clear, do_dequeue, do_enqueue, Reply,
  int, nat, delay, packet, unit, call, run,
}

module _ (rtp : Rtp) (fl : Float64) where
  open rtp use {Packet, marshal_size, sequence_number}
  open fl use {Float, zero_float, minus}

  abbrev pub Item : Type 0
  Item = RtpQueueItem rtp fl

  abbrev pub item_size : Item → ℕ
  item_size i = marshal_size i.packet

  abbrev pub new_item : Packet → Float → Item
  new_item p t = record { packet = p; ts = t }

  -- The counter holds the bytes of the packets that wait, modulo 2^64.
  pub record IsValid (q : Queue rtp fl) : Type 0 where
    pub counted : q.bytes_in_queue ≡ sum_by item_size q.queue % 2 ^ 64

  -- `Clear` and the constructor leave a queue whose counter agrees with its (no) packets.
  pub new_queue-IsValid : IsValid (new_queue rtp fl)
  unfolding new_queue
  new_queue-IsValid = record { counted = refl }

  pub enqueue-IsValid :
      (q : Queue rtp fl) (p : Packet) (t : Float) → IsValid q → IsValid (enqueue rtp fl q p t)
  unfolding enqueue
  enqueue-IsValid q p t v = record {
    counted = omega (arith, v.counted, sum_by-append {0} item_size q.queue (new_item p t ∷ []));
  }

  dequeue-counted :
      (bytes : ℕ) (items : List Item)
      → bytes ≡ sum_by item_size items % 2 ^ 64
      → let q = (dequeue rtp fl (record { bytes_in_queue = bytes; queue = items })).1 in
        q.bytes_in_queue ≡ sum_by item_size q.queue % 2 ^ 64
  unfolding dequeue
  dequeue-counted bytes [] h = h
  dequeue-counted bytes (i ∷ is) h = omega (arith, sub64-add (sum_by item_size is) (item_size i))

  pub dequeue-IsValid : (q : Queue rtp fl) → IsValid q → IsValid (dequeue rtp fl q).1
  dequeue-IsValid q v = record { counted = dequeue-counted q.bytes_in_queue q.queue v.counted }

  -- Every method keeps the byte counter equal to the bytes of the packets that wait, modulo 2^64.
  pub call-IsValid : (c : Call rtp fl) (q : Queue rtp fl) → IsValid q → IsValid (call rtp fl q c).1
  unfolding call clear
  call-IsValid ask_size_of_next_rtp q v = v
  call-IsValid ask_seq_nr_of_next_rtp q v = v
  call-IsValid ask_seq_nr_of_last_rtp q v = v
  call-IsValid ask_bytes_in_queue q v = v
  call-IsValid ask_size_of_queue q v = v
  call-IsValid ask_size_of_last_frame q v = v
  call-IsValid (ask_delay t) q v = v
  call-IsValid do_clear q v = record { counted = refl }
  call-IsValid do_dequeue q v = dequeue-IsValid q v
  call-IsValid (do_enqueue p t) q v = enqueue-IsValid q p t v

  -- The abstract queue: the packets that wait, oldest first, with the exact sum of their sizes.
  pub fifo_call : List Item → Call rtp fl → Reply rtp fl × List Item
  fifo_call [] ask_size_of_next_rtp = (int (negsuc 0), [])
  fifo_call (i ∷ is) ask_size_of_next_rtp = (int (pos (item_size i)), i ∷ is)
  fifo_call [] ask_seq_nr_of_next_rtp = (nat 0, [])
  fifo_call (i ∷ is) ask_seq_nr_of_next_rtp = (nat (sequence_number i.packet), i ∷ is)
  fifo_call [] ask_seq_nr_of_last_rtp = (nat 0, [])
  fifo_call (i ∷ is) ask_seq_nr_of_last_rtp =
      (elim (last? (i ∷ is)) [ none ↦ nat 0 | some l ↦ nat (sequence_number l.packet) ], i ∷ is)
  fifo_call is ask_bytes_in_queue = (nat (sum_by item_size is), is)
  fifo_call is ask_size_of_queue = (nat (length is), is)
  fifo_call [] ask_size_of_last_frame = (nat 0, [])
  fifo_call (i ∷ is) ask_size_of_last_frame =
      (elim (last? (i ∷ is)) [ none ↦ nat 0 | some l ↦ nat (item_size l) ], i ∷ is)
  fifo_call [] (ask_delay t) = (delay zero_float, [])
  fifo_call (i ∷ is) (ask_delay t) = (delay (minus t i.ts), i ∷ is)
  fifo_call is do_clear = (nat (length is), [])
  fifo_call [] do_dequeue = (packet none, [])
  fifo_call (i ∷ is) do_dequeue = (packet (some i.packet), is)
  fifo_call is (do_enqueue p t) = (unit, is ++ (new_item p t ∷ []))

  pub fifo_run : List Item → List (Call rtp fl) → List (Reply rtp fl)
  fifo_run is [] = []
  fifo_run is (c ∷ cs) = let (r, is') = fifo_call is c in r ∷ fifo_run is' cs

  -- the bytes that a call adds
  abbrev pub added : Call rtp fl → ℕ
  added (do_enqueue p t) = marshal_size p
  added _ = 0

  -- the queue that `Enqueue` and `Dequeue` have made of these packets
  abbrev pub holding : List Item → Queue rtp fl
  holding is = record { bytes_in_queue = sum_by item_size is; queue = is }

  call_refines :
      (c : Call rtp fl) (is : List Item)
      → sum_by item_size is + added c < 2 ^ 63
      → let (r, is') = fifo_call is c in call rtp fl (holding is) c ≡ (r, holding is')
  unfolding call fifo_call size_of_next_rtp seq_nr_of_next_rtp seq_nr_of_last_rtp bytes_in_queue
      size_of_queue get_delay get_size_of_last_frame clear enqueue dequeue
  call_refines ask_size_of_next_rtp [] h = refl
  call_refines ask_size_of_next_rtp (i ∷ is) h = refl
  call_refines ask_seq_nr_of_next_rtp [] h = refl
  call_refines ask_seq_nr_of_next_rtp (i ∷ is) h = refl
  call_refines ask_seq_nr_of_last_rtp [] h = refl
  call_refines ask_seq_nr_of_last_rtp (i ∷ is) h = ground arith
  call_refines ask_bytes_in_queue is h = refl
  call_refines ask_size_of_queue is h = refl
  call_refines ask_size_of_last_frame [] h = refl
  call_refines ask_size_of_last_frame (i ∷ is) h = ground arith
  call_refines (ask_delay t) [] h = refl
  call_refines (ask_delay t) (i ∷ is) h = refl
  call_refines do_clear is h = refl
  call_refines do_dequeue [] h = refl
  call_refines do_dequeue (i ∷ is) h = ground arith
  call_refines (do_enqueue p t) is h =
      ground (arith, sum_by-append {0} item_size is (new_item p t ∷ []))

  -- the bytes that a sequence of calls adds
  abbrev pub added_by : List (Call rtp fl) → ℕ
  added_by cs = sum_by added cs

  -- No call leaves more bytes behind than there were, and those that it adds.
  sum_by-kept :
      (c : Call rtp fl) (is : List Item)
      → sum_by item_size (fifo_call is c).1 ≤ sum_by item_size is + added c
  unfolding fifo_call
  sum_by-kept ask_size_of_next_rtp [] = omega arith
  sum_by-kept ask_size_of_next_rtp (i ∷ is) = omega arith
  sum_by-kept ask_seq_nr_of_next_rtp [] = omega arith
  sum_by-kept ask_seq_nr_of_next_rtp (i ∷ is) = omega arith
  sum_by-kept ask_seq_nr_of_last_rtp [] = omega arith
  sum_by-kept ask_seq_nr_of_last_rtp (i ∷ is) = omega arith
  sum_by-kept ask_bytes_in_queue is = omega arith
  sum_by-kept ask_size_of_queue is = omega arith
  sum_by-kept ask_size_of_last_frame [] = omega arith
  sum_by-kept ask_size_of_last_frame (i ∷ is) = omega arith
  sum_by-kept (ask_delay t) [] = omega arith
  sum_by-kept (ask_delay t) (i ∷ is) = omega arith
  sum_by-kept do_clear is = omega arith
  sum_by-kept do_dequeue [] = omega arith
  sum_by-kept do_dequeue (i ∷ is) = omega arith
  sum_by-kept (do_enqueue p t) is =
      omega (arith, sum_by-append {0} item_size is (new_item p t ∷ []))

  run_refines_from :
      (cs : List (Call rtp fl)) (is : List Item)
      → sum_by item_size is + added_by cs < 2 ^ 63
      → run rtp fl (holding is) cs ≡ fifo_run is cs
  unfolding run fifo_run
  run_refines_from [] is h = refl
  run_refines_from (c ∷ cs) is h = rw (call_refines c is (omega arith)) (
      ap (λ rs. (fifo_call is c).0 ∷ rs)
        (run_refines_from cs (fifo_call is c).1 (omega (arith, sum_by-kept c is))))

  -- The calls on a new queue, in any order, reply as the plain list does: the packets come out in the
  -- order in which they went in, and the counter is the exact number of bytes that wait. It holds
  -- while the bytes put in sum to less than 2^63, the largest an int can count.
  pub run_refines :
      (cs : List (Call rtp fl))
      → added_by cs < 2 ^ 63
      → run rtp fl (new_queue rtp fl) cs ≡ fifo_run [] cs
  unfolding new_queue
  run_refines cs h = run_refines_from cs [] (omega arith)
