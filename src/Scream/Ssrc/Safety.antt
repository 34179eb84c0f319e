-- ===== src/Scream/Ssrc/Safety.antt =====
-- internal/scream/sender_interceptor.go, `extractSSRCs`: it ends on every packet, on a packet made
-- of 32-bit words it does not panic, and on some others it does.
use rtq_go_endpoint.Common.{
  ℕ, zero, suc, ◌+◌, ◌*◌, ◌%◌, ◌≤◌, ◌<◌, ◌≡◌, ◌⊎◌, ◌∙◌, refl, false, ◌||◌, inl, inr, List, [], ◌∷◌,
  ◌++◌, length, drop, length-drop, elem, returns, panics, out_of_range, ◌>>=◌, >>=-panics, le→leb,
  le→ltb, lt→ltb, Bool-cases, arith,
}
use native.Mathlib.Decide.{dec_lt}
use rtq_go_endpoint.Scream.Ssrc.{
  slice_from, uint32, uint16, Scan, pad_reports, note_ssrc, scan_block, scan, start, extract_ssrcs,
}

-- No number occurs twice.
abbrev pub Distinct : List ℕ → Type 0
Distinct [] = Unit
Distinct (x ∷ xs) = (elem x xs ≡ false) × Distinct xs

elem-append : (a : ℕ) (xs ys : List ℕ) → elem a (xs ++ ys) ≡ (elem a xs || elem a ys)
elem-append a [] ys = refl
elem-append a (x ∷ xs) ys = ground (arith, elem-append a xs ys)

Distinct-append :
    (xs : List ℕ) (a : ℕ) → Distinct xs → elem a xs ≡ false → Distinct (xs ++ (a ∷ []))
Distinct-append [] a d h = (refl, tt)
Distinct-append (x ∷ xs) a d h =
    (ground (arith, elem-append x xs (a ∷ [])), Distinct-append xs a d.1 (ground arith))

-- The list holds the keys of the map, each once.
pub record Clean (s : Scan) : Type 0 where
  pub same : (a : ℕ) → elem a s.unique_ssrcs ≡ elem a s.ssrcs
  pub distinct : Distinct s.ssrcs

note_ssrc-Clean : (a : ℕ) (s : Scan) → Clean s → Clean (note_ssrc a s)
note_ssrc-Clean a s c = elim (Bool-cases (elem a s.unique_ssrcs)) [
  | inl old ↦ rw old c
  | inr new ↦ rw new (record {
    same = λ b. ground (arith, elem-append b s.ssrcs (a ∷ []), c.same b);
    distinct = Distinct-append s.ssrcs a c.distinct (ground (arith, c.same a));
  })
]

note_ssrc-offset : (a : ℕ) (s : Scan) → (note_ssrc a s).offset ≡ s.offset
note_ssrc-offset a s = ground arith

pub uint32-returns : (b : List ℕ) → 4 ≤ length b → (n : ℕ) × (uint32 b ≡ returns n)
unfolding uint32
uint32-returns [] h = absurd (omega arith)
uint32-returns (_ ∷ []) h = absurd (omega arith)
uint32-returns (_ ∷ _ ∷ []) h = absurd (omega arith)
uint32-returns (_ ∷ _ ∷ _ ∷ []) h = absurd (omega arith)
uint32-returns (a ∷ b ∷ c ∷ d ∷ _) h = (_, refl)

pub uint16-returns : (b : List ℕ) → 2 ≤ length b → (n : ℕ) × (uint16 b ≡ returns n)
unfolding uint16
uint16-returns [] h = absurd (omega arith)
uint16-returns (_ ∷ []) h = absurd (omega arith)
uint16-returns (a ∷ b ∷ _) h = (_, refl)

uint16-panics : (b : List ℕ) → length b < 2 → uint16 b ≡ panics out_of_range
unfolding uint16
uint16-panics [] h = refl
uint16-panics (_ ∷ []) h = refl
uint16-panics (a ∷ b ∷ _) h = absurd (omega arith)

pub slice_from-returns : (p : List ℕ) (o : ℕ) → o ≤ length p → slice_from p o ≡ returns (drop o p)
unfolding slice_from
slice_from-returns p o h = rw (le→leb _ _ h)

-- What one round does where eight bytes are left: it reads a stream, and moves on by whole words.
scan_block-returns :
    (packet : List ℕ) (s : Scan)
    → s.offset + 8 ≤ length packet
    → (ssrc : ℕ) × (n : ℕ) × (scan_block packet s
        ≡ returns (record (note_ssrc ssrc s) { offset = s.offset + 2 * pad_reports n + 8 }))
unfolding scan_block
scan_block-returns packet s h =
    let (ssrc, e) =
      uint32-returns (drop s.offset packet) (omega (arith, length-drop {0} s.offset packet)) in
    let (n, e') =
      uint16-returns (drop (s.offset + 6) packet)
        (omega (arith, length-drop {0} (s.offset + 6) packet)) in
    (
      ssrc,
      n,
      rw (
        slice_from-returns packet s.offset (omega arith),
        e,
        slice_from-returns packet (s.offset + 6) (omega arith),
        e',
      ),
    )

-- The state after one such round, as far as the loop's invariant goes.
record Advanced (s s' : Scan) : Type 0 where
  clean : Clean s'
  further : s.offset + 8 ≤ s'.offset
  aligned : s'.offset % 4 ≡ s.offset % 4

pub pad_reports_even : (n : ℕ) → pad_reports n % 2 ≡ 0
pad_reports_even n = ground arith

advance :
    (s : Scan) (ssrc n : ℕ)
    → Clean s
    → Advanced s (record (note_ssrc ssrc s) { offset = s.offset + 2 * pad_reports n + 8 })
advance s ssrc n c = record {
  clean = record { same = c'.same; distinct = c'.distinct };
  further = omega arith;
  aligned = omega (arith, pad_reports_even n);
}
  where
    c' : Clean (note_ssrc ssrc s)
    c' = note_ssrc-Clean ssrc s c

slice_from-panics : (p : List ℕ) (o : ℕ) → length p < o → slice_from p o ≡ panics out_of_range
unfolding slice_from
slice_from-panics p o h = ground arith

-- Where fewer than eight bytes are left, the count of reports cannot be read.
reports-panics :
    (packet : List ℕ) (o : ℕ)
    → length packet < o + 8
    → (slice_from packet (o + 6) >>= uint16) ≡ panics out_of_range
reports-panics packet o h = elim (dec_lt (length packet) (o + 6)) [
  | yes short ↦ rw (slice_from-panics packet (o + 6) short)
  | no long ↦
      rw (slice_from-returns packet (o + 6) (omega arith))
        (uint16-panics (drop (o + 6) packet) (omega (arith, length-drop {0} (o + 6) packet)))
]

scan_block-panics :
    (packet : List ℕ) (s : Scan)
    → s.offset + 4 < length packet
    → length packet < s.offset + 8
    → scan_block packet s ≡ panics out_of_range
unfolding scan_block
scan_block-panics packet s h k =
    let (ssrc, e) =
      uint32-returns (drop s.offset packet) (omega (arith, length-drop {0} s.offset packet)) in
    rw (slice_from-returns packet s.offset (omega arith), e)
      (>>=-panics (slice_from packet (s.offset + 6)) uint16 _ (reports-panics packet s.offset k))

-- The loop's test.
pub scan-done :
    (fuel : ℕ) (packet : List ℕ) (s : Scan)
    → length packet ≤ s.offset + 4
    → scan (suc fuel) packet s ≡ returns s.ssrcs
unfolding scan
scan-done fuel packet s h = rw (le→ltb _ _ h, scan)

pub scan-more :
    (fuel : ℕ) (packet : List ℕ) (s : Scan) {s' : Scan}
    → s.offset + 4 < length packet
    → scan_block packet s ≡ returns s'
    → scan (suc fuel) packet s ≡ scan fuel packet s'
unfolding scan
scan-more fuel packet s h e = rw (lt→ltb _ _ h, e, scan)

scan-panics :
    (fuel : ℕ) (packet : List ℕ) (s : Scan)
    → s.offset + 4 < length packet
    → length packet < s.offset + 8
    → scan (suc fuel) packet s ≡ panics out_of_range
unfolding scan
scan-panics fuel packet s h k = rw (lt→ltb _ _ h, scan_block-panics packet s h k, scan)

-- The bytes from the offset on are a whole number of words, and the loop has fuel for them.
scan-aligned :
    (fuel : ℕ) (packet : List ℕ) (s : Scan)
    → length packet + 4 ≤ s.offset + 8 * fuel
    → 0 < fuel
    → length packet % 4 ≡ 0
    → s.offset % 4 ≡ 0
    → Clean s
    → (l : List ℕ) × (scan fuel packet s ≡ returns l) × Distinct l
scan-aligned zero packet s f k a b c = absurd (omega arith)
scan-aligned (suc fuel) packet s f k a b c = elim (dec_lt (s.offset + 4) (length packet)) [
  | no done ↦ (s.ssrcs, scan-done fuel packet s (omega arith), c.distinct)
  | yes more ↦
      let (ssrc, n, e) = scan_block-returns packet s (omega arith) in
      let adv : Advanced s _ = advance s ssrc n c in
      rw (scan-more fuel packet s more e) (
        scan-aligned fuel packet _ (omega (arith, adv.further)) (omega (arith, adv.further)) a
          (adv.aligned ∙ b) adv.clean)
]

-- On a packet that is a whole number of 32-bit words, as every RTCP packet is, `extractSSRCs` neither
-- panics nor runs on for ever, and lists no stream twice.
pub extract_ssrcs-Distinct :
    (packet : List ℕ)
    → length packet % 4 ≡ 0
    → (l : List ℕ) × (extract_ssrcs packet ≡ returns l) × Distinct l
unfolding extract_ssrcs
extract_ssrcs-Distinct packet a =
    scan-aligned (suc (length packet)) packet start (omega arith) (omega arith) a refl
      (record { same = λ _. refl; distinct = tt })

scan-ends :
    (fuel : ℕ) (packet : List ℕ) (s : Scan)
    → length packet + 4 ≤ s.offset + 8 * fuel
    → 0 < fuel
    → Clean s
    → ((l : List ℕ) × (scan fuel packet s ≡ returns l) × Distinct l)
      ⊎ (scan fuel packet s ≡ panics out_of_range)
scan-ends zero packet s f k c = absurd (omega arith)
scan-ends (suc fuel) packet s f k c = elim (dec_lt (s.offset + 4) (length packet)) [
  | no done ↦ inl (s.ssrcs, scan-done fuel packet s (omega arith), c.distinct)
  | yes more ↦ elim (dec_lt (length packet) (s.offset + 8)) [
    | yes short ↦ inr (scan-panics fuel packet s more short)
    | no long ↦
        let (ssrc, n, e) = scan_block-returns packet s (omega arith) in
        let adv : Advanced s _ = advance s ssrc n c in
        rw (scan-more fuel packet s more e) (
          scan-ends fuel packet _ (omega (arith, adv.further)) (omega (arith, adv.further))
            adv.clean)
  ]
]

-- On every packet `extractSSRCs` ends: either it returns a list in which no stream occurs twice, or
-- it panics on a read out of range.
pub extract_ssrcs_ends :
    (packet : List ℕ)
    → ((l : List ℕ) × (extract_ssrcs packet ≡ returns l) × Distinct l)
      ⊎ (extract_ssrcs packet ≡ panics out_of_range)
unfolding extract_ssrcs
extract_ssrcs_ends packet =
    scan-ends (suc (length packet)) packet start (omega arith) (omega arith)
      (record { same = λ _. refl; distinct = tt })

-- A packet with one to three bytes beyond the stream number of its only block makes it panic: the
-- guard asks for five bytes where the body reads eight.
pub extract_ssrcs_panics :
    (packet : List ℕ)
    → 12 < length packet
    → length packet < 16
    → extract_ssrcs packet ≡ panics out_of_range
unfolding extract_ssrcs
extract_ssrcs_panics packet h k = scan-panics (length packet) packet start h k
