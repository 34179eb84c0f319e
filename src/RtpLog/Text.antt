-- ===== src/RtpLog/Text.antt =====
-- internal/utils/rtp_log_interceptor.go: the lines of the logs, as bytes. `fmt.Sprintf` is written out for
-- the verbs that the code uses.
pub mod Numbers
pub mod Split
pub mod Lines
use rtq_go_endpoint.Common.{
  ℕ, zero, suc, ◌+◌, ◌*◌, ◌/◌, ◌%◌, Bool, true, false, List, [], ◌∷◌, ◌++◌, map, length, ltb,
  if◌then◌else◌,
}

abbrev pub Bytes : Type 0
Bytes = List ℕ

-- The digits of `n`, most significant first; `n` divisions are enough.
unfoldable pub digits_on : ℕ → ℕ → ℕ → List ℕ
digits_on zero base n = n ∷ []
digits_on (suc fuel) base n =
    let rest = digits_on fuel base (n / base) in
    if ltb n base then n ∷ [] else rest ++ (n % base ∷ [])

unfoldable pub digits : ℕ → ℕ → List ℕ
digits base n = digits_on n base n

-- `0` to `9`, then `a` to `f`
unfoldable pub digit_char : ℕ → ℕ
digit_char d = if ltb d 10 then 48 + d else 87 + d

-- `%d` of an unsigned number, and `%x`
unfoldable pub decimal : ℕ → Bytes
decimal n = map digit_char (digits 10 n)

unfoldable pub hexadecimal : ℕ → Bytes
hexadecimal n = map digit_char (digits 16 n)

unfoldable pub bool_to_char : Bool → Bytes
bool_to_char false = 48 ∷ []
bool_to_char true = 49 ∷ []

-- The first part, and `\t` before each further one.
unfoldable pub joined : ℕ → Bytes → List Bytes → Bytes
joined sep first [] = first
joined sep first (part ∷ parts) = first ++ (sep ∷ joined sep part parts)

-- `time.Duration` in nanoseconds
abbrev pub milliseconds : ℕ → ℕ
milliseconds d = d / 1_000_000

-- What the code knows of a packet of pion/rtcp: a raw packet's bytes, or the name of its type.
pub data RtcpContent : Type 0 where
  raw_packet : Bytes → RtcpContent
  typed_packet : Bytes → RtcpContent

pub record RtcpPacket : Type 0 where
  pub packet : RtcpContent
  pub receive_time : ℕ

unfoldable pub content_text : RtcpContent → Bytes
content_text (raw_packet bytes) = decimal (length bytes)
content_text (typed_packet name) = name

-- `rtcpPacket.String`
unfoldable pub rtcp_text : RtcpPacket → Bytes
rtcp_text p =
    joined 9 (82 ∷ 84 ∷ 67 ∷ 80 ∷ [])
      (decimal (milliseconds p.receive_time) ∷ content_text p.packet ∷ [])

pub record RtpPacket : Type 0 where
  pub payload_type : ℕ
  pub ssrc : ℕ
  pub sequence_number : ℕ
  pub timestamp : ℕ
  pub marker : Bool
  pub payload : Bytes
  pub receive_time : ℕ

-- `rtpPacket.String`
unfoldable pub rtp_text : RtpPacket → Bytes
rtp_text p = joined 9 (82 ∷ 84 ∷ 80 ∷ []) (
    decimal (milliseconds p.receive_time)
    ∷ decimal p.payload_type
    ∷ hexadecimal p.ssrc
    ∷ decimal p.sequence_number
    ∷ decimal p.timestamp
    ∷ bool_to_char p.marker
    ∷ decimal (length p.payload)
    ∷ [])

pub data Direction : Type 0 where
  incoming : Direction
  outgoing : Direction

-- `fmt.Fprintf(…, "in:\t%s\n", p)`, and the same with `out:`.
unfoldable pub line : Direction → Bytes → Bytes
line incoming text = (105 ∷ 110 ∷ 58 ∷ []) ++ (9 ∷ (text ++ (10 ∷ [])))
line outgoing text = (111 ∷ 117 ∷ 116 ∷ 58 ∷ []) ++ (9 ∷ (text ++ (10 ∷ [])))
