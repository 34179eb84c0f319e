-- ===== src/Scream/Ssrc/Format.antt =====
-- The feedback packets of SCReAM (RFC 8888) as bytes: the format that `extractSSRCs` of
-- internal/scream/sender_interceptor.go reads, described from the side of the writer.
use rtq_go_endpoint.Common.{
  ℕ, ◌+◌, ◌/◌, ◌%◌, ◌^◌, ◌<◌, true, false, List, [], ◌∷◌, ◌++◌, length, elem, ◌==◌, if◌then◌else◌,
}

-- The report on one stream: its SSRC, its first sequence number, and a 16-bit word for each packet.
pub record Block : Type 0 where
  pub ssrc : ℕ
  pub begin_seq : ℕ
  pub reports : List ℕ

-- 16-bit words in network order
abbrev pub words : List ℕ → List ℕ
words [] = []
words (w ∷ ws) = w / 0x100 ∷ w % 0x100 ∷ words ws

-- Two bytes fill up an odd number of reports.
abbrev pub padding : ℕ → List ℕ
padding n = if n % 2 == 0 then [] else 0 ∷ 0 ∷ []

abbrev pub encode_reports : List ℕ → List ℕ
encode_reports reports = words reports ++ padding (length reports)

abbrev pub encode_block : Block → List ℕ
encode_block b =
    b.ssrc / 0x1000000
    ∷ b.ssrc / 0x10000 % 0x100
    ∷ b.ssrc / 0x100 % 0x100
    ∷ b.ssrc % 0x100
    ∷ b.begin_seq / 0x100
    ∷ b.begin_seq % 0x100
    ∷ length b.reports / 0x100
    ∷ length b.reports % 0x100
    ∷ encode_reports b.reports

abbrev pub encode_blocks : List Block → List ℕ
encode_blocks [] = []
encode_blocks (b ∷ bs) = encode_block b ++ encode_blocks bs

-- The numbers fit their fields; a count of 2^16 - 1 is left out, since padding it overflows.
pub record Fits (b : Block) : Type 0 where
  pub ssrc_fits : b.ssrc < 2 ^ 32
  pub count_fits : length b.reports + 1 < 2 ^ 16

-- The streams in the order in which they first occur, without those already seen.
unfoldable pub first_seen : List ℕ → List Block → List ℕ
first_seen seen [] = []
first_seen seen (b ∷ bs) = elim (elem b.ssrc seen) [
  | true ↦ first_seen seen bs
  | false ↦ b.ssrc ∷ first_seen (b.ssrc ∷ seen) bs
]
