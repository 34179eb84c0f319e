-- ===== src/Scream/RtpQueue.antt =====
-- internal/scream/rtp_queue.go: the queue in which packets wait until SCReAM lets them go.
-- `bytesInQueue` is an int, kept as the bit pattern of its 64 bits. `container/list` is a List,
-- front first. The mutex makes each method one step.
pub mod Refine
mod Tests
use rtq_go_endpoint.Common.{
  ℕ, zero, suc, Option, none, some, List, [], ◌∷◌, ◌++◌, length, last?, add64, sub64, ℤ, pos,
  negsuc,
}
use rtq_go_endpoint.External.{Rtp, Float64}

module _ (rtp : Rtp) (fl : Float64) where
  open rtp use {Packet, marshal_size, sequence_number}
  open fl use {Float, zero_float, minus}

  pub record RtpQueueItem : Type 0 where
    pub packet : Packet
    pub ts : Float

  pub record Queue : Type 0 where
    pub bytes_in_queue : ℕ
    pub queue : List RtpQueueItem

  unfoldable pub new_queue : Queue
  new_queue = record { bytes_in_queue = 0; queue = [] }

  size_of_front : List RtpQueueItem → ℤ
  size_of_front [] = negsuc 0
  size_of_front (item ∷ _) = pos (marshal_size item.packet)

  unfoldable pub size_of_next_rtp : Queue → ℤ
  unfolding size_of_front
  size_of_next_rtp q = size_of_front q.queue

  seq_nr_of_front : List RtpQueueItem → ℕ
  seq_nr_of_front [] = 0
  seq_nr_of_front (item ∷ _) = sequence_number item.packet

  unfoldable pub seq_nr_of_next_rtp : Queue → ℕ
  unfolding seq_nr_of_front
  seq_nr_of_next_rtp q = seq_nr_of_front q.queue

  seq_nr_of_item : Option RtpQueueItem → ℕ
  seq_nr_of_item none = 0
  seq_nr_of_item (some item) = sequence_number item.packet

  unfoldable pub seq_nr_of_last_rtp : Queue → ℕ
  unfolding seq_nr_of_item
  seq_nr_of_last_rtp q = seq_nr_of_item (last? q.queue)

  unfoldable pub bytes_in_queue : Queue → ℕ
  bytes_in_queue q = q.bytes_in_queue

  unfoldable pub size_of_queue : Queue → ℕ
  size_of_queue q = length q.queue

  delay_of_front : List RtpQueueItem → Float → Float
  delay_of_front [] ts = zero_float
  delay_of_front (item ∷ _) ts = minus ts item.ts

  unfoldable pub get_delay : Queue → Float → Float
  unfolding delay_of_front
  get_delay q ts = delay_of_front q.queue ts

  size_of_item : Option RtpQueueItem → ℕ
  size_of_item none = 0
  size_of_item (some item) = marshal_size item.packet

  unfoldable pub get_size_of_last_frame : Queue → ℕ
  unfolding size_of_item
  get_size_of_last_frame q = size_of_item (last? q.queue)

  -- the number of packets thrown away, and the emptied queue
  unfoldable pub clear : Queue → ℕ × Queue
  clear q = (length q.queue, record { bytes_in_queue = 0; queue = [] })

  unfoldable pub enqueue : Queue → Packet → Float → Queue
  enqueue q packet ts = record {
    bytes_in_queue = add64 q.bytes_in_queue (marshal_size packet);
    queue = q.queue ++ (record { packet = packet; ts = ts } ∷ []);
  }

  unfoldable pub dequeue_front : ℕ → List RtpQueueItem → Option Packet × Queue
  dequeue_front bytes [] = (none, record { bytes_in_queue = bytes; queue = [] })
  dequeue_front bytes (front ∷ rest) = (
    some front.packet,
    record { bytes_in_queue = sub64 bytes (marshal_size front.packet); queue = rest },
  )

  -- `none` is the nil that `Dequeue` returns on an empty queue.
  unfoldable pub dequeue : Queue → Option Packet × Queue
  unfolding dequeue_front
  dequeue q = dequeue_front q.bytes_in_queue q.queue

  -- One call of a method, with what the caller passes.
  pub data Call : Type 0 where
    ask_size_of_next_rtp ask_seq_nr_of_next_rtp ask_seq_nr_of_last_rtp : Call
    ask_bytes_in_queue ask_size_of_queue ask_size_of_last_frame : Call
    ask_delay : Float → Call
    do_clear do_dequeue : Call
    do_enqueue : Packet → Float → Call

  -- What the caller gets back.
  pub data Reply : Type 0 where
    int : ℤ → Reply
    nat : ℕ → Reply
    delay : Float → Reply
    packet : Option Packet → Reply
    unit : Reply

  unfoldable pub call : Queue → Call → Reply × Queue
  call q ask_size_of_next_rtp = (int (size_of_next_rtp q), q)
  call q ask_seq_nr_of_next_rtp = (nat (seq_nr_of_next_rtp q), q)
  call q ask_seq_nr_of_last_rtp = (nat (seq_nr_of_last_rtp q), q)
  call q ask_bytes_in_queue = (nat (bytes_in_queue q), q)
  call q ask_size_of_queue = (nat (size_of_queue q), q)
  call q ask_size_of_last_frame = (nat (get_size_of_last_frame q), q)
  call q (ask_delay ts) = (delay (get_delay q ts), q)
  call q do_clear = let (n, q') = clear q in (nat n, q')
  call q do_dequeue = let (p, q') = dequeue q in (packet p, q')
  call q (do_enqueue p ts) = (unit, enqueue q p ts)

  -- the replies to a sequence of calls
  unfoldable pub run : Queue → List Call → List Reply
  run q [] = []
  run q (c ∷ cs) = let (r, q') = call q c in r ∷ run q' cs
