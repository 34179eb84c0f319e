-- ===== src/Rtc/FeedbackInferer.antt =====
-- rtc/feedback_inferer.go: instead of SCReAM feedback from the receiver, the sender makes its own from
-- the acknowledgements of QUIC. A `time.Time` is the number of nanoseconds since 1970. `on_acked` and
-- `on_tick` are the cases of the select in `buffer`. The channel `received` is
-- the list of what was put into it; its capacity of a million messages is not modelled.
pub mod Reports
pub mod Timestamp
pub mod Acks
mod Insertion
mod Tests
use mathlib.Core.List.{Perm}
use rtq_go_endpoint.Common.{
  ℕ, ◌+◌, ◌-◌, ◌*◌, ◌/◌, ◌%◌, ◌^◌, ◌≤◌, Bool, true, false, ◌&&◌, ◌||◌, not, Option, none, some,
  List, [], ◌∷◌, ◌++◌, All, add64, if◌then◌else◌,
}
use rtq_go_endpoint.External.{Float64, ScreamRx}
use rtq_go_endpoint.Tracer.{RttStats}

-- Seconds and microseconds of a time: `Unix` and `UnixMicro`.
abbrev pub unix : ℕ → ℕ
unix t = t / 1_000_000_000

abbrev pub unix_micro : ℕ → ℕ
unix_micro t = t / 1_000

module _ (fl : Float64) where
  open fl use {Float, minus, plus, times, of_int, micro, milli, ntp_unit, to_uint64}

  abbrev pub seconds_of_time : ℕ → Float
  seconds_of_time t =
      let secs = unix t in
      let usecs = unix_micro t - secs * 1_000_000 in plus (of_int secs) (times (of_int usecs) micro)

  unfoldable pub get_ntp_t0 : ℕ → Float
  get_ntp_t0 now = minus (seconds_of_time now) milli

  -- `0xFFFFFFFF & ntp64`
  unfoldable pub get_time_between_ntp : Float → ℕ → ℕ
  get_time_between_ntp t0 tx =
      let tt = minus (seconds_of_time tx) t0 in
      let ntp64 = to_uint64 (times tt ntp_unit) in ntp64 % 2 ^ 32

pub record AckedPkt : Type 0 where
  pub sent_ts : ℕ
  pub ssrc : ℕ
  pub size : ℕ
  pub seq_nr : ℕ

-- In ascending order of the raw sequence numbers.
abbrev pub Ascending : List AckedPkt → Type 0
Ascending [] = Unit
Ascending (p ∷ ps) = All (λ q. p.seq_nr ≤ q.seq_nr) ps × Ascending ps

-- `sort.Slice(buf, …)` of Go's library: some ascending order of the same packets. Packets with equal
-- sequence numbers may come in either order.
pub record SortSlice : Type 0 where
  pub sort : List AckedPkt → List AckedPkt
  pub sort-perm : (buf : List AckedPkt) → Perm buf (sort buf)
  pub sort-Ascending : (buf : List AckedPkt) → Ascending (sort buf)

module _ (fl : Float64) (sx : ScreamRx) (slice : SortSlice) where
  open fl use {Float, times, ntp_unit, seconds, to_uint64}
  open sx use {Rx, receive, create_standardized_feedback}
  open slice use {sort}

  pub record Inferer : Type 0 where
    pub rx : Rx
    pub t0 : Float
    pub infer_from_smoothed_rtt : Bool
    pub buf : List AckedPkt
    pub received : List (List ℕ)

  unfoldable pub ntp_time : Inferer → ℕ → ℕ
  ntp_time f t = get_time_between_ntp fl f.t0 t

  -- `lastTS` of one packet: half a round trip after it was sent
  unfoldable pub report_ts : Inferer → RttStats → AckedPkt → ℕ
  report_ts f m pkt =
      let rtt_ntp =
        times (seconds (if f.infer_from_smoothed_rtt then m.smoothed_rtt else m.latest_rtt))
          ntp_unit in
      add64 (ntp_time f pkt.sent_ts) (to_uint64 rtt_ntp / 2)

  -- The loop over the sorted packets: `f.rx` and `lastTS` after it.
  unfoldable pub report : Inferer → RttStats → List AckedPkt → ℕ → Rx → ℕ × Rx
  report f m [] last_ts rx = (last_ts, rx)
  report f m (pkt ∷ pkts) last_ts rx =
      let ts = report_ts f m pkt in
      report f m pkts ts (receive ts pkt.ssrc pkt.size pkt.seq_nr 0 rx)

  unfoldable pub on_acked : AckedPkt → Inferer → Inferer
  on_acked pkt f = record f { buf = f.buf ++ (pkt ∷ []) }

  -- `f.received <- fb`, if there is feedback
  push_feedback : Option (List ℕ) → List (List ℕ) → List (List ℕ)
  push_feedback none received = received
  push_feedback (some fb) received = received ++ (fb ∷ [])

  tick_sorted : List AckedPkt → RttStats → Inferer → Inferer
  tick_sorted sorted m f =
      let (last_ts, rx) = report f m sorted 0 f.rx in
      let (fb, rx') = create_standardized_feedback last_ts true rx in
      record f { rx = rx'; buf = []; received = push_feedback fb f.received }

  pub tick : List AckedPkt → RttStats → Inferer → Inferer
  tick [] m f = f
  tick (pkt ∷ pkts) m f = tick_sorted (sort (pkt ∷ pkts)) m f

  -- The metrics are read when the ticker fires.
  unfoldable pub on_tick : RttStats → Inferer → Inferer
  unfolding tick tick_sorted push_feedback
  on_tick m f = tick f.buf m f

  pub data Event : Type 0 where
    ack : AckedPkt → Event
    timer : RttStats → Event

  unfoldable pub buffer : List Event → Inferer → Inferer
  buffer [] f = f
  buffer (ack pkt ∷ es) f = buffer es (on_acked pkt f)
  buffer (timer m ∷ es) f = buffer es (on_tick m f)

  abbrev pub new_inferer : Rx → Float → Bool → Inferer
  new_inferer rx t0 smoothed = record {
    rx = rx;
    t0 = t0;
    infer_from_smoothed_rtt = smoothed;
    buf = [];
    received = [];
  }
