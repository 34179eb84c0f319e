-- ===== src/RtpLog/Text/Lines.antt =====
-- internal/utils/rtp_log_interceptor.go: what a line of the RTP logs says of its packet.
use rtq_go_endpoint.Common.{
  ℕ, ◌≡◌, refl, ap, Bool, true, false, Option, none, some, List, [], ◌∷◌, ◌++◌, length, map,
  append_assoc, All, All-mono, ◌==◌, arith,
}
use rtq_go_endpoint.RtpLog.Text.{
  Bytes, decimal, hexadecimal, bool_to_char, joined, milliseconds, RtpPacket, rtp_text, Direction,
  incoming, outgoing, line,
}
use rtq_go_endpoint.RtpLog.Text.Numbers.{
  value, char_digit, read_number, read_number-decimal, read_number-hexadecimal, IsField,
  decimal-IsField, hexadecimal-IsField,
}
use rtq_go_endpoint.RtpLog.Text.Split.{
  split, Lacks, Field-Lacks, split-joined, ended, ended-split, joined-Lacks,
}

-- What a line has of a packet.
pub record Entry : Type 0 where
  pub millis : ℕ
  pub payload_type : ℕ
  pub ssrc : ℕ
  pub sequence_number : ℕ
  pub timestamp : ℕ
  pub marker : Bool
  pub size : ℕ

abbrev pub entry : RtpPacket → Entry
entry p = record {
  millis = milliseconds p.receive_time;
  payload_type = p.payload_type;
  ssrc = p.ssrc;
  sequence_number = p.sequence_number;
  timestamp = p.timestamp;
  marker = p.marker;
  size = length p.payload;
}

read_fields : List Bytes → Option Entry
read_fields (direction ∷ kind ∷ t ∷ pt ∷ id ∷ seq ∷ ts ∷ m ∷ (size ∷ [])) = some (record {
  millis = read_number 10 t;
  payload_type = read_number 10 pt;
  ssrc = read_number 16 id;
  sequence_number = read_number 10 seq;
  timestamp = read_number 10 ts;
  marker = read_number 10 m == 1;
  size = read_number 10 size;
})
read_fields _ = none

pub parts_of : RtpPacket → List Bytes
parts_of p =
    decimal (milliseconds p.receive_time)
    ∷ decimal p.payload_type
    ∷ hexadecimal p.ssrc
    ∷ decimal p.sequence_number
    ∷ decimal p.timestamp
    ∷ bool_to_char p.marker
    ∷ decimal (length p.payload)
    ∷ []

bool_to_char-IsField : (b : Bool) → IsField (bool_to_char b)
unfolding bool_to_char
bool_to_char-IsField false = (omega arith, tt)
bool_to_char-IsField true = (omega arith, tt)

read-bool_to_char : (b : Bool) → (read_number 10 (bool_to_char b) == 1) ≡ b
unfolding bool_to_char read_number value char_digit
read-bool_to_char false = refl
read-bool_to_char true = refl

parts_of-IsField : (p : RtpPacket) → All IsField (parts_of p)
unfolding parts_of
parts_of-IsField p =
    let two : IsField (decimal p.timestamp)
        × (IsField (bool_to_char p.marker) × (IsField (decimal (length p.payload)) × Unit {0})) =
      (
        decimal-IsField p.timestamp,
        (bool_to_char-IsField p.marker, (decimal-IsField (length p.payload), tt)),
      ) in
    (decimal-IsField _, (decimal-IsField _, (hexadecimal-IsField _, (decimal-IsField _, two))))

read_parts :
    (direction kind : Bytes) (p : RtpPacket)
    → read_fields (direction ∷ kind ∷ parts_of p) ≡ some (entry p)
unfolding read_fields parts_of
read_parts direction kind p =
    rw
      (
        read_number-decimal (milliseconds p.receive_time),
        read_number-decimal p.payload_type,
        read_number-hexadecimal p.ssrc,
        read_number-decimal p.sequence_number,
        read_number-decimal p.timestamp,
        read_number-decimal (length p.payload),
        read-bool_to_char p.marker,
      )
      refl

heading : Direction → Bytes
heading incoming = 105 ∷ 110 ∷ 58 ∷ []
heading outgoing = 111 ∷ 117 ∷ 116 ∷ 58 ∷ []

-- The line of a packet without its end.
line-parts :
    (d : Direction) (p : RtpPacket)
    → line d (rtp_text p) ≡ joined 9 (heading d) ((82 ∷ 84 ∷ 80 ∷ []) ∷ parts_of p) ++ (10 ∷ [])
unfolding line heading joined rtp_text parts_of
line-parts incoming p = refl
line-parts outgoing p = refl

heading-IsField : (d : Direction) → IsField (heading d)
unfolding heading
heading-IsField incoming = (omega arith, (omega arith, (omega arith, tt)))
heading-IsField outgoing = (omega arith, (omega arith, (omega arith, (omega arith, tt))))

kind_and_parts-IsField : (p : RtpPacket) → All IsField ((82 ∷ 84 ∷ 80 ∷ []) ∷ parts_of p)
kind_and_parts-IsField p = ((omega arith, (omega arith, (omega arith, tt))), parts_of-IsField p)

-- A log as a reader sees it: the entry of each line that ends.
pub read_log : Bytes → List (Option Entry)
read_log log = map (λ text. read_fields (split 9 text)) (ended (split 10 log))

-- What is written for the packets.
unfoldable pub rtp_lines : Direction → List RtpPacket → Bytes
rtp_lines d [] = []
rtp_lines d (p ∷ ps) = line d (rtp_text p) ++ rtp_lines d ps

read_line :
    (d : Direction) (p : RtpPacket) (rest : Bytes)
    → read_log (line d (rtp_text p) ++ rest) ≡ some (entry p) ∷ read_log rest
unfolding read_log
read_line d p rest =
    let parts = (82 ∷ 84 ∷ 80 ∷ []) ∷ parts_of p in
    let text = joined 9 (heading d) parts in
    let fields = kind_and_parts-IsField p in
    let whole : Lacks 10 text = joined-Lacks (heading d) parts (heading-IsField d) fields in
    let cut : split 9 text ≡ heading d ∷ parts =
      split-joined 9 (heading d) parts (Field-Lacks 9 (omega arith) _ (heading-IsField d))
        (All-mono _ _ (Field-Lacks 9 (omega arith)) parts fields) in
    rw (line-parts d p, append_assoc text (10 ∷ []) rest, ended-split 10 text rest whole, cut)
      (ap (λ e. e ∷ read_log rest) (read_parts (heading d) (82 ∷ 84 ∷ 80 ∷ []) p))

-- Whatever packets were logged in one direction, the entries are read back from the bytes of the log, one for
-- each packet and in order: time in milliseconds, payload type, SSRC, sequence number, timestamp, marker
-- and length of the payload.
pub read_log-rtp_lines :
    (d : Direction) (ps : List RtpPacket) → read_log (rtp_lines d ps) ≡ map (λ p. some (entry p)) ps
unfolding read_log rtp_lines split ended
read_log-rtp_lines d [] = refl
read_log-rtp_lines d (p ∷ ps) = rw (read_line d p (rtp_lines d ps), read_log-rtp_lines d ps) refl
