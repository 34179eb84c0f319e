-- ===== src/Scream/Ssrc.antt =====
-- internal/scream/sender_interceptor.go, `extractSSRCs`: the streams that a SCReAM feedback packet
-- reports on. The packet is a list of bytes. `int` sums of offsets stay far below 2^63 and are not
-- wrapped; the uint16 increment that pads the report count is.
pub mod Format
pub mod Safety
pub mod Blocks
pub mod RoundTrip
mod Tests
use rtq_go_endpoint.Common.{
  ℕ, zero, suc, ◌+◌, ◌*◌, ◌%◌, List, [], ◌∷◌, ◌++◌, length, drop, elem, true, false, Run, returns,
  panics, out_of_fuel, out_of_range, ◌>>=◌, leb, ltb, ◌==◌, if◌then◌else◌, u16, not,
}

-- `packet[offset:]`
unfoldable pub slice_from : List ℕ → ℕ → Run (List ℕ)
slice_from packet offset =
    if leb offset (length packet) then returns (drop offset packet) else panics out_of_range

-- `binary.BigEndian.Uint32(b)` reads `b[3]` first, and panics on fewer than four bytes.
unfoldable pub uint32 : List ℕ → Run ℕ
uint32 (a ∷ b ∷ c ∷ d ∷ _) = returns (a * 0x1000000 + b * 0x10000 + c * 0x100 + d)
uint32 _ = panics out_of_range

-- `binary.BigEndian.Uint16(b)`
unfoldable pub uint16 : List ℕ → Run ℕ
uint16 (a ∷ b ∷ _) = returns (a * 0x100 + b)
uint16 _ = panics out_of_range

-- The variables of the loop. The map `uniqueSSRCs` is the list of its keys.
pub record Scan : Type 0 where
  pub offset : ℕ
  pub unique_ssrcs : List ℕ
  pub ssrcs : List ℕ

-- `numReports++` on a uint16 where the number is odd
abbrev pub pad_reports : ℕ → ℕ
pad_reports num_reports = if not (num_reports % 2 == 0) then u16 (num_reports + 1) else num_reports

abbrev pub note_ssrc : ℕ → Scan → Scan
note_ssrc ssrc s =
    if not (elem ssrc s.unique_ssrcs)
    then record s { unique_ssrcs = ssrc ∷ s.unique_ssrcs; ssrcs = s.ssrcs ++ (ssrc ∷ []) }
    else s

-- the body of the loop
unfoldable pub scan_block : List ℕ → Scan → Run Scan
scan_block packet s = do
  from_ssrc ← slice_from packet s.offset
  ssrc ← uint32 from_ssrc
  let s' = note_ssrc ssrc s
  from_reports ← slice_from packet (s.offset + 6)
  num_reports ← uint16 from_reports
  returns (record s' { offset = s.offset + 2 * pad_reports num_reports + 8 })

-- `for offset < len(packet)-4`, with `offset+4 < len(packet)` for the int comparison
unfoldable pub scan : ℕ → List ℕ → Scan → Run (List ℕ)
scan zero packet s = out_of_fuel
scan (suc fuel) packet s = elim (ltb (s.offset + 4) (length packet)) [
  | true ↦ scan_block packet s >>= λ s'. scan fuel packet s'
  | false ↦ returns s.ssrcs
]

abbrev pub start : Scan
start = record { offset = 8; unique_ssrcs = []; ssrcs = [] }

-- Each round moves the offset on by 8 or more, so the length of the packet is fuel enough.
unfoldable pub extract_ssrcs : List ℕ → Run (List ℕ)
extract_ssrcs packet = scan (suc (length packet)) packet start
