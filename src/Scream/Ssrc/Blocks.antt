-- ===== src/Scream/Ssrc/Blocks.antt =====
-- internal/scream/sender_interceptor.go, `extractSSRCs`: which streams it lists, from the bytes of the packet alone.
use rtq_go_endpoint.Common.{
  ℕ, ◌+◌, ◌*◌, ◌≤◌, ◌<◌, ◌≡◌, true, false, List, [], ◌∷◌, length, drop, elem, returns,
}
use rtq_go_endpoint.Scream.Ssrc.{uint32, uint16, pad_reports}

-- The blocks of a packet from an offset on, as their streams: a block starts where more than four bytes are
-- left, the first four bytes are its stream, the count of its reports stands two bytes further, and each
-- report takes two bytes, with two more if their number is odd.
pub data Blocks (packet : List ℕ) : ℕ → List ℕ → Type 0 where
  at_end : (offset : ℕ) → length packet ≤ offset + 4 → Blocks packet offset []
  block :
      (offset ssrc reports : ℕ) (rest : List ℕ)
      → offset + 4 < length packet
      → uint32 (drop offset packet) ≡ returns ssrc
      → uint16 (drop (offset + 6) packet) ≡ returns reports
      → Blocks packet (offset + 2 * pad_reports reports + 8) rest
      → Blocks packet offset (ssrc ∷ rest)

-- The streams in the order in which they first occur, without those already seen.
unfoldable pub once : List ℕ → List ℕ → List ℕ
once seen [] = []
once seen (a ∷ as_) = elim (elem a seen) [ true ↦ once seen as_ | false ↦ a ∷ once (a ∷ seen) as_ ]
