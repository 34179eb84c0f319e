-- ===== src/External.antt =====
-- What the code uses of packages that are not in the repository: RTP packets of pion/rtp, and Go's
-- float64, on which nothing is computed here.
use rtq_go_endpoint.Common.{
  not, ◌==◌, ℕ, ◌+◌, ◌-◌, ◌*◌, ◌/◌, ◌%◌, ◌^◌, Bool, false, Option, some, List, [], ◌∷◌,
}

-- github.com/pion/rtp: a packet is opaque but for what the code reads of it.
pub record Rtp : Type 1 where
  pub Packet : Type 0
  pub marshal_size : Packet → ℕ
  pub sequence_number : Packet → ℕ
  pub ssrc : Packet → ℕ
  pub marker : Packet → Bool

-- float64, with the operations that the modelled code applies to it.
pub record Float64 : Type 1 where
  pub Float : Type 0
  pub zero_float : Float
  pub minus : Float → Float → Float
  pub plus : Float → Float → Float
  pub times : Float → Float → Float
  pub divide : Float → Float → Float
  pub is_minus_one : Float → Bool  -- x == -1
  pub is_positive : Float → Bool  -- x > 0
  pub of_int : ℕ → Float  -- the conversion of an integer that is not negative
  pub micro : Float  -- the constant 1e-6
  pub milli : Float  -- the constant 1e-3
  pub ntp_unit : Float  -- the constant 65536.0
  pub seconds : ℕ → Float  -- time.Duration.Seconds
  pub to_uint64 : Float → ℕ

-- github.com/dbaldassi/scream-go, `Rx`: the receiving side of SCReAM, a C++ object behind cgo.
pub record ScreamRx : Type 1 where
  pub Rx : Type 0
  -- receive time ssrc size seqNr ceBits
  pub receive : ℕ → ℕ → ℕ → ℕ → ℕ → Rx → Rx
  -- time isMark: the feedback, if there is one to send
  pub create_standardized_feedback : ℕ → Bool → Rx → Option (List ℕ) × Rx

-- A packet of which only these four readings are kept, for runs on concrete data.
pub record PlainPacket : Type 0 where
  pub size : ℕ
  pub seq_nr : ℕ
  pub source : ℕ
  pub is_marked : Bool

abbrev pub plain_rtp : Rtp
plain_rtp = record {
  Packet = PlainPacket;
  marshal_size = λ p. p.size;
  sequence_number = λ p. p.seq_nr;
  ssrc = λ p. p.source;
  marker = λ p. p.is_marked;
}

-- Whole numbers in place of floats, for the same purpose. Microseconds are dropped.
abbrev pub whole_floats : Float64
whole_floats = record {
  Float = ℕ;
  zero_float = 0;
  minus = λ a b. a - b;
  plus = λ a b. a + b;
  times = λ a b. a * b;
  divide = λ a b. a / b;
  is_minus_one = λ n. false;
  is_positive = λ n. not (n == 0);
  of_int = λ n. n;
  micro = 0;
  milli = 0;
  ntp_unit = 65536;
  seconds = λ ns. ns / 1_000_000_000;
  to_uint64 = λ n. n % 2 ^ 64;
}

-- A receiver that keeps the calls it gets, newest first, as times and sequence numbers.
abbrev pub noting_rx : ScreamRx
noting_rx = record {
  Rx = List (ℕ × ℕ);
  receive = λ t ssrc size seq_nr ce rx. (t, seq_nr) ∷ rx;
  create_standardized_feedback = λ t is_mark rx. (some (t ∷ []), rx);
}
