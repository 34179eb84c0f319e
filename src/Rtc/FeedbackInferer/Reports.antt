-- ===== src/Rtc/FeedbackInferer/Reports.antt =====
-- rtc/feedback_inferer.go: what `buffer` hands to the SCReAM receiver, observed with a receiver that
-- writes down each call of `Receive`.
use mathlib.Core.List.{Perm}
use mathlib.Core.List.Perm
use rtq_go_endpoint.Common.{
  ℕ, ◌≡◌, ◌∙◌, refl, Bool, Option, List, [], ◌∷◌, ◌++◌, map, append_assoc, append-nil, map-append,
}
use rtq_go_endpoint.External.{Float64, ScreamRx}
use rtq_go_endpoint.Tracer.{RttStats}
use rtq_go_endpoint.Rtc.FeedbackInferer.{
  AckedPkt, Ascending, SortSlice, Inferer, report, on_acked, on_tick, tick, Event, ack, timer,
  buffer, new_inferer,
}

-- One call of `Receive`, without its time.
pub record Received : Type 0 where
  pub ssrc : ℕ
  pub size : ℕ
  pub seq_nr : ℕ

abbrev pub call_of : AckedPkt → Received
call_of p = record { ssrc = p.ssrc; size = p.size; seq_nr = p.seq_nr }

-- A receiver that writes its calls down, and makes feedback in any way.
abbrev pub writing_rx : (ℕ → List Received → Option (List ℕ)) → ScreamRx
writing_rx feedback = record {
  Rx = List Received;
  receive =
      λ t ssrc size seq_nr ce rx. rx ++ (record { ssrc = ssrc; size = size; seq_nr = seq_nr } ∷ []);
  create_standardized_feedback = λ t is_mark rx. (feedback t rx, rx);
}

module _ (fl : Float64) (slice : SortSlice) (feedback : ℕ → List Received → Option (List ℕ)) where
  open fl use {Float}

  abbrev pub sx : ScreamRx
  sx = writing_rx feedback

  -- The packets that were acknowledged, in that order.
  pub acks : List (Event fl sx slice) → List AckedPkt
  acks [] = []
  acks (ack p ∷ es) = p ∷ acks es
  acks (timer m ∷ es) = acks es

  report-calls :
      (f : Inferer fl sx slice) (m : RttStats) (ps : List AckedPkt) (t : ℕ) (rx : List Received)
      → (report fl sx slice f m ps t rx).1 ≡ rx ++ map call_of ps
  unfolding report
  report-calls f m [] t rx = rw (append-nil rx)
  report-calls f m (p ∷ ps) t rx =
      report-calls f m ps _ (rx ++ (call_of p ∷ []))
      ∙ append_assoc rx (call_of p ∷ []) (map call_of ps)

  tick-calls :
      (bs : List AckedPkt) (m : RttStats) (f : Inferer fl sx slice)
      → f.buf ≡ bs
      → (sorted : List AckedPkt) × Perm bs sorted
        × Ascending sorted
        × ((tick fl sx slice bs m f).rx ≡ f.rx ++ map call_of sorted)
        × ((tick fl sx slice bs m f).buf ≡ [])
  unfolding on_tick
  tick-calls [] m f e = ([], Perm.refl [], tt, rw (append-nil f.rx), e)
  tick-calls (b ∷ bs) m f e = (
    slice.sort (b ∷ bs),
    slice.sort-perm (b ∷ bs),
    slice.sort-Ascending (b ∷ bs),
    report-calls f m (slice.sort (b ∷ bs)) 0 f.rx,
    refl,
  )

  -- When the ticker fires, `Receive` is called once for each packet in the buffer, in ascending order
  -- of the sequence numbers, and the buffer is empty afterwards.
  pub on_tick-calls :
      (m : RttStats) (f : Inferer fl sx slice)
      → (sorted : List AckedPkt) × Perm f.buf sorted
        × Ascending sorted
        × ((on_tick fl sx slice m f).rx ≡ f.rx ++ map call_of sorted)
        × ((on_tick fl sx slice m f).buf ≡ [])
  unfolding on_tick
  on_tick-calls m f = tick-calls f.buf m f refl

  pub tick-perm :
      (m : RttStats) (f : Inferer fl sx slice) (later : List AckedPkt)
      → let f' = on_tick fl sx slice m f in
        Perm (f.rx ++ map call_of (f.buf ++ later)) (f'.rx ++ map call_of (f'.buf ++ later))
  tick-perm m f later =
      let (sorted, p, _, calls, empty) = on_tick-calls m f in
      rw
        (
          calls,
          empty,
          append_assoc f.rx (map call_of sorted) (map call_of later),
          ← map-append call_of sorted later,
        )
        (Perm.append_left f.rx (Perm.map call_of (Perm.append_right later p)))

  buffer-perm :
      (es : List (Event fl sx slice)) (f : Inferer fl sx slice)
      → let f' = buffer fl sx slice es f in
        Perm (f.rx ++ map call_of (f.buf ++ acks es)) (f'.rx ++ map call_of f'.buf)
  unfolding buffer acks on_acked
  buffer-perm [] f = rw (append-nil f.buf) (Perm.refl _)
  buffer-perm (ack p ∷ es) f =
      rw (append_assoc f.buf (p ∷ []) (acks es)) at (buffer-perm es (on_acked fl sx slice p f))
  buffer-perm (timer m ∷ es) f =
      Perm.trans (tick-perm m f (acks es)) (buffer-perm es (on_tick fl sx slice m f))

  -- Whatever the order of acknowledgements and ticks, every acknowledged packet is handed to `Receive`
  -- exactly once, or still waits in the buffer.
  pub buffer-reports :
      (es : List (Event fl sx slice)) (t0 : Float) (smoothed : Bool)
      → let f = buffer fl sx slice es (new_inferer fl sx slice [] t0 smoothed) in
        Perm (map call_of (acks es)) (f.rx ++ map call_of f.buf)
  buffer-reports es t0 smoothed = buffer-perm es (new_inferer fl sx slice [] t0 smoothed)
