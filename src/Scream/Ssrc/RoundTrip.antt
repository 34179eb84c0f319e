-- ===== src/Scream/Ssrc/RoundTrip.antt =====
-- internal/scream/sender_interceptor.go, `extractSSRCs`, on packets in the format of RFC 8888.
use rtq_go_endpoint.Common.{
  ℕ, zero, suc, ◌+◌, ◌*◌, ◌^◌, ◌≤◌, ◌<◌, ◌≡◌, ◌∙◌, ap, subst, refl, inl, inr, List, [], ◌∷◌, ◌++◌,
  append_assoc, append-nil, length, length-append, drop, drop-append, elem, returns, Bool-cases,
  All, arith,
}
use rtq_go_endpoint.Scream.Ssrc.{
  uint32, uint16, Scan, pad_reports, note_ssrc, scan_block, scan, start, extract_ssrcs,
}
use rtq_go_endpoint.Scream.Ssrc.Format.{
  Block, words, padding, encode_reports, encode_block, encode_blocks, Fits, first_seen,
}
use rtq_go_endpoint.Scream.Ssrc.Safety.{slice_from-returns, scan-done, scan-more}

length-words : (ws : List ℕ) → length (words ws) ≡ 2 * length ws
length-words [] = omega arith
length-words (w ∷ ws) = omega (arith, length-words ws)

-- The reports with their padding take the bytes that the reader skips.
length-encode_reports :
    (ws : List ℕ)
    → length ws + 1 < 2 ^ 16
    → length (encode_reports ws) ≡ 2 * pad_reports (length ws)
length-encode_reports ws h =
    ground (arith, length-append {0} (words ws) (padding (length ws)), length-words ws)

drop-nil : (m : ℕ) → drop {A = ℕ} m [] ≡ []
drop-nil zero = refl
drop-nil (suc m) = refl

drop-add : (n m : ℕ) (xs : List ℕ) → drop (n + m) xs ≡ drop m (drop n xs)
drop-add zero m xs = let e : zero + m ≡ m = omega arith in rw e
drop-add (suc n) m (x ∷ xs) =
    let e : suc n + m ≡ suc (n + m) = omega arith in rw e (drop-add n m xs)
drop-add (suc n) m [] = rw (drop-nil m, drop-nil (suc n + m))

uint32-encode_block :
    (b : Block) (rest : List ℕ) → Fits b → uint32 (encode_block b ++ rest) ≡ returns b.ssrc
unfolding uint32
uint32-encode_block b rest f = ap returns (omega (arith, f.ssrc_fits))

uint16-encode_block :
    (b : Block) (rest : List ℕ)
    → Fits b
    → uint16 (drop 6 (encode_block b ++ rest)) ≡ returns (length b.reports)
unfolding uint16
uint16-encode_block b rest f = ap returns (omega (arith, f.count_fits))

-- One round reads one block.
scan_block-encode_block :
    (pre : List ℕ) (b : Block) (rest unique ssrcs : List ℕ)
    → Fits b
    → let s : Scan = record { offset = length pre; unique_ssrcs = unique; ssrcs = ssrcs } in
      scan_block (pre ++ (encode_block b ++ rest)) s
      ≡ returns (record (note_ssrc b.ssrc s) { offset = length (pre ++ encode_block b) })
unfolding scan_block
scan_block-encode_block pre b rest unique ssrcs f =
    rw
      (
        slice_from-returns packet (length pre) (omega (arith, long)),
        drop-append pre (encode_block b ++ rest),
        uint32-encode_block b rest f,
        slice_from-returns packet (length pre + 6) (omega (arith, long)),
        drop-add (length pre) 6 packet,
        drop-append pre (encode_block b ++ rest),
        uint16-encode_block b rest f,
      )
      (rw end)
  where
    packet : List ℕ
    packet = pre ++ (encode_block b ++ rest)

    long : length pre + 8 ≤ length packet
    long = omega (arith, length-append {0} pre (encode_block b ++ rest))

    end : length pre + 2 * pad_reports (length b.reports) + 8 ≡ length (pre ++ encode_block b)
    end = omega (
      arith,
      length-append {0} pre (encode_block b),
      length-encode_reports b.reports f.count_fits,
    )

module _ (ts : List ℕ) (four : length ts ≡ 4) where
  -- The loop over the blocks that are left, with a round of fuel for each and one more.
  scan-blocks :
      (fuel : ℕ) (bs : List Block) (pre unique ssrcs : List ℕ)
      → length bs < fuel
      → All Fits bs
      → scan fuel
          (pre ++ (encode_blocks bs ++ ts))
          (record { offset = length pre; unique_ssrcs = unique; ssrcs = ssrcs })
        ≡ returns (ssrcs ++ first_seen unique bs)
  unfolding first_seen
  scan-blocks zero bs pre unique ssrcs h f = absurd (omega arith)
  scan-blocks (suc fuel) [] pre unique ssrcs h f =
      rw (append-nil ssrcs)
        (scan-done fuel (pre ++ ts) _ (omega (arith, length-append {0} pre ts, four)))
  scan-blocks (suc fuel) (b ∷ bs) pre unique ssrcs h (fb, fs) =
      rw (append_assoc (encode_block b) (encode_blocks bs) ts) (
        scan-more fuel (pre ++ (encode_block b ++ rest)) s
          (omega (arith, length-append {0} pre (encode_block b ++ rest)))
          (scan_block-encode_block pre b rest unique ssrcs fb)
        ∙ rw (← append_assoc pre (encode_block b) rest) (elim (Bool-cases (elem b.ssrc unique)) [
          | inl old ↦
              rw (old, first_seen)
                (scan-blocks fuel bs (pre ++ encode_block b) unique ssrcs (omega arith) fs)
          | inr new ↦
              rw (new, first_seen)
                (scan-blocks fuel bs (pre ++ encode_block b) (b.ssrc ∷ unique)
                    (ssrcs ++ (b.ssrc ∷ [])) (omega arith) fs
                  ∙ ap returns (append_assoc ssrcs (b.ssrc ∷ []) (first_seen (b.ssrc ∷ unique) bs)))
        ]))
    where
      rest : List ℕ
      rest = encode_blocks bs ++ ts

      s : Scan
      s = record { offset = length pre; unique_ssrcs = unique; ssrcs = ssrcs }

length-le-encode_blocks : (bs : List Block) → length bs ≤ length (encode_blocks bs)
length-le-encode_blocks [] = omega arith
length-le-encode_blocks (b ∷ bs) =
    omega (arith, length-append {0} (encode_block b) (encode_blocks bs), length-le-encode_blocks bs)

-- From a feedback packet in the format of RFC 8888 (eight bytes of header, the blocks, four bytes of
-- timestamp) `extractSSRCs` reads the streams of its blocks, each once, in the order in which they
-- first occur. It holds where each SSRC fits 32 bits and each block has fewer than 2^16 - 1 reports.
pub extract_ssrcs-encode :
    (header : List ℕ) (bs : List Block) (ts : List ℕ)
    → length header ≡ 8
    → length ts ≡ 4
    → All Fits bs
    → extract_ssrcs (header ++ (encode_blocks bs ++ ts)) ≡ returns (first_seen [] bs)
unfolding extract_ssrcs
extract_ssrcs-encode header bs ts eight four f =
    subst
      (λ o.
        scan (suc (length packet)) packet (record start { offset = o })
        ≡ returns (first_seen [] bs))
      eight
      (scan-blocks ts four (suc (length packet)) bs header [] []
        (omega (
          arith,
          length-append {0} header (encode_blocks bs ++ ts),
          length-append {0} (encode_blocks bs) ts,
          length-le-encode_blocks bs,
        ))
        f)
  where
    packet : List ℕ
    packet = header ++ (encode_blocks bs ++ ts)
