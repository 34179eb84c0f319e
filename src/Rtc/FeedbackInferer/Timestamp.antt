-- ===== src/Rtc/FeedbackInferer/Timestamp.antt =====
-- rtc/feedback_inferer.go: the time for which `buffer` asks `Rx` to make feedback, observed with a
-- receiver whose feedback is that time.
use mathlib.Core.List.{Perm, Mem, mem-cons, not-mem-nil}
use mathlib.Core.List.Perm
use mathlib.Core.Logic.Or
use native.Mathlib.Bridge.{le_prop}
use rtq_go_endpoint.Common.{ℕ, ◌≤◌, ◌≡◌, ◌≢◌, refl, some, List, [], ◌∷◌, ◌++◌, last?, All, arith}
use rtq_go_endpoint.External.{Float64, ScreamRx}
use rtq_go_endpoint.Tracer.{RttStats}
use rtq_go_endpoint.Rtc.FeedbackInferer.{
  AckedPkt, Ascending, SortSlice, Inferer, report, report_ts, on_tick, tick,
}

-- A receiver whose feedback says for which time it was made.
abbrev pub timed_rx : ScreamRx
timed_rx = record {
  Rx = Unit {0};
  receive = λ t ssrc size seq_nr ce rx. rx;
  create_standardized_feedback = λ t is_mark rx. (some (t ∷ []), rx);
}

module _ {ℓ} {A : Type ℓ} where
  Mem-All : (w : A → ℕ) (n : ℕ) {a : A} (xs : List A) → All (λ x. n ≤ w x) xs → Mem a xs → n ≤ w a
  Mem-All w n [] h m = absurd (not-mem-nil m)
  Mem-All w n (x ∷ xs) h m = Or.elim le_prop (mem-cons.0 m) (λ e. rw e h.0) (Mem-All w n xs h.1)

  All-of_Mem : {P : A → Type 0} (xs : List A) → ((a : A) → Mem a xs → P a) → All P xs
  All-of_Mem [] f = tt
  All-of_Mem (x ∷ xs) f =
      (f x (mem-cons.1 (Or.inl refl)), All-of_Mem xs (λ a m. f a (mem-cons.1 (Or.inr m))))

  Mem-last? : (xs : List A) {l : A} → last? xs ≡ some l → Mem l xs
  Mem-last? [] h = absurd (cc)
  Mem-last? (x ∷ []) {l} h = mem-cons.1 (Or.inl (cc h))
  Mem-last? (x ∷ y ∷ ys) h = mem-cons.1 (Or.inr (Mem-last? (y ∷ ys) h))

  last?-cons : (x : A) (xs : List A) → (l : A) × (last? (x ∷ xs) ≡ some l)
  last?-cons x [] = (x, refl)
  last?-cons x (y ∷ ys) = last?-cons y ys

-- In an ascending list the last packet has the largest sequence number.
Ascending-last? :
    (ps : List AckedPkt) {l q : AckedPkt}
    → Ascending ps
    → last? ps ≡ some l
    → Mem q ps
    → q.seq_nr ≤ l.seq_nr
Ascending-last? [] a h m = absurd (cc)
Ascending-last? (p ∷ []) {l} {q} a h m =
    Or.elim le_prop (mem-cons.0 m) (λ e. ground arith) (λ n. absurd (not-mem-nil n))
Ascending-last? (p ∷ p' ∷ ps) {l} {q} a h m =
    Or.elim le_prop (mem-cons.0 m)
      (λ e.
        rw e (Mem-All (λ (r : AckedPkt). r.seq_nr) p.seq_nr (p' ∷ ps) a.0 (Mem-last? (p' ∷ ps) h)))
      (Ascending-last? (p' ∷ ps) a.1 h)

last_of_sorted :
    (b : AckedPkt) (bs sorted : List AckedPkt)
    → Perm (b ∷ bs) sorted
    → (l : AckedPkt) × (last? sorted ≡ some l)
last_of_sorted b bs [] p = absurd (grind (arith, Perm.eq-nil p))
last_of_sorted b bs (s ∷ ss) p = last?-cons s ss

module _ (fl : Float64) (slice : SortSlice) where
  report-last_ts :
      (f : Inferer fl timed_rx slice) (m : RttStats) (ps : List AckedPkt) (t : ℕ) (rx : Unit {0})
      {l : AckedPkt}
      → last? ps ≡ some l
      → (report fl timed_rx slice f m ps t rx).0 ≡ report_ts fl timed_rx slice f m l
  unfolding report
  report-last_ts f m [] t rx h = absurd (cc)
  report-last_ts f m (p ∷ []) t rx h = cc h
  report-last_ts f m (p ∷ p' ∷ ps) t rx h =
      report-last_ts f m (p' ∷ ps) (report_ts fl timed_rx slice f m p) rx h

  tick-last_ts :
      (bs : List AckedPkt) (m : RttStats) (f : Inferer fl timed_rx slice)
      → bs ≢ []
      → (l : AckedPkt) × Mem l bs
        × All (λ q. q.seq_nr ≤ l.seq_nr) bs
        × ((tick fl timed_rx slice bs m f).received
            ≡ f.received ++ ((report_ts fl timed_rx slice f m l ∷ []) ∷ []))
  unfolding on_tick
  tick-last_ts [] m f ne = absurd (ne refl)
  tick-last_ts (b ∷ bs) m f ne =
      let perm : Perm (b ∷ bs) (slice.sort (b ∷ bs)) = slice.sort-perm (b ∷ bs) in
      let (l, e) = last_of_sorted b bs (slice.sort (b ∷ bs)) perm in
      (
        l,
        (Perm.mem_iff perm).1 (Mem-last? (slice.sort (b ∷ bs)) e),
        All-of_Mem (b ∷ bs) (λ q in_q.
            Ascending-last? (slice.sort (b ∷ bs)) (slice.sort-Ascending (b ∷ bs)) e
              ((Perm.mem_iff perm).0 in_q)),
        rw (report-last_ts f m (slice.sort (b ∷ bs)) 0 f.rx e),
      )

  -- The feedback of a tick that finds packets in the buffer is made for the time of one of them that
  -- has the largest sequence number of the buffer, as a plain number, which does not wrap around.
  pub on_tick-last_ts :
      (m : RttStats) (f : Inferer fl timed_rx slice)
      → f.buf ≢ []
      → (l : AckedPkt) × Mem l f.buf
        × All (λ q. q.seq_nr ≤ l.seq_nr) f.buf
        × ((on_tick fl timed_rx slice m f).received
            ≡ f.received ++ ((report_ts fl timed_rx slice f m l ∷ []) ∷ []))
  unfolding on_tick
  on_tick-last_ts m f ne = tick-last_ts f.buf m f ne
