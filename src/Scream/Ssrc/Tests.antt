-- ===== src/Scream/Ssrc/Tests.antt =====
-- Feedback packets on which `extractSSRCs` runs, and its laws at those inputs.
use rtq_go_endpoint.Common.{
  ℕ, ◌≡◌, refl, ◌⊎◌, List, [], ◌∷◌, ◌++◌, returns, panics, out_of_range, arith,
}
use rtq_go_endpoint.Scream.Ssrc.{slice_from, uint32, uint16, scan_block, scan, extract_ssrcs}
use rtq_go_endpoint.Scream.Ssrc.Format.{Block, encode_blocks, first_seen}
use rtq_go_endpoint.Scream.Ssrc.Safety.{Distinct, extract_ssrcs_ends, extract_ssrcs_panics}
use rtq_go_endpoint.Scream.Ssrc.Blocks.{Blocks}
use rtq_go_endpoint.Scream.Ssrc.RoundTrip.{extract_ssrcs-encode}

abbrev header : List ℕ
header = 0x8b ∷ 0xcd ∷ 0 ∷ 0 ∷ 0 ∷ 0 ∷ 0 ∷ 0 ∷ []

abbrev timestamp : List ℕ
timestamp = 1 ∷ 2 ∷ 3 ∷ 4 ∷ []

abbrev blocks : List Block
blocks =
    record { ssrc = 0x1020304; begin_seq = 9; reports = 0x8000 ∷ 0x8001 ∷ 0x8002 ∷ [] }
    ∷ record { ssrc = 7; begin_seq = 65535; reports = 0x8000 ∷ 0 ∷ [] }
    ∷ record { ssrc = 0x1020304; begin_seq = 12; reports = [] }
    ∷ []

abbrev feedback : List ℕ
feedback = header ++ (encode_blocks blocks ++ timestamp)

abbrev cut_short : List ℕ
cut_short = header ++ (0 ∷ 0 ∷ 0 ∷ 7 ∷ 0 ∷ [])

extract_ssrcs_runs : extract_ssrcs feedback ≡ returns (0x1020304 ∷ 7 ∷ [])
unfolding extract_ssrcs scan scan_block slice_from uint32 uint16
extract_ssrcs_runs = refl

extract_ssrcs-encode_example : extract_ssrcs feedback ≡ returns (first_seen [] blocks)
extract_ssrcs-encode_example = extract_ssrcs-encode header blocks timestamp refl refl (omega arith)

extract_ssrcs_ends_example :
    ((l : List ℕ) × (extract_ssrcs cut_short ≡ returns l) × Distinct l)
    ⊎ (extract_ssrcs cut_short ≡ panics out_of_range)
extract_ssrcs_ends_example = extract_ssrcs_ends cut_short

extract_ssrcs_panics_run : extract_ssrcs cut_short ≡ panics out_of_range
extract_ssrcs_panics_run = extract_ssrcs_panics cut_short (omega arith) (omega arith)
