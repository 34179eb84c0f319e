-- ===== src/Rtc/FeedbackInferer/Acks/Conserved.antt =====
-- rtc/feedback_inferer.go: no report of an arrival gets lost between the transport and `Receive`.
use mathlib.Core.List.{Perm}
use mathlib.Core.List.Perm
use rtq_go_endpoint.Common.{
  ℕ, zero, suc, ◌≡◌, refl, subst, Bool, true, false, Option, none, some, List, [], ◌∷◌, ◌++◌, map,
  append_assoc, map-append, length, get_elem?, ltb, if◌then◌else◌,
}
use rtq_go_endpoint.External.{Float64, ScreamRx}
use rtq_go_endpoint.Rtc.FeedbackInferer.{AckedPkt, SortSlice, new_inferer, on_acked}
use rtq_go_endpoint.Rtc.FeedbackInferer.Reports.{Received, call_of, writing_rx, tick-perm}
use rtq_go_endpoint.Rtc.FeedbackInferer.Acks.{
  take_out, Passage, new_passage, rtp_writer_func, notify, on_notify, send, sent, receive_acked,
  received, Step, write, notified, sends, receives, ticks, step, run, acked_capacity,
}

-- What is taken out of a list, with what is left, is the list.
abbrev Taken : {A : Type 0} → List A → Option (A × List A) → Type 0
Taken xs none = Unit
Taken xs (some (x, rest)) = Perm xs (x ∷ rest)

take_out-Taken : {A : Type 0} (k : ℕ) (xs : List A) → Taken xs (take_out k xs)
unfolding take_out
take_out-Taken k [] = tt
take_out-Taken zero (y ∷ ys) = Perm.refl _
take_out-Taken (suc k) (y ∷ ys) =
    elim (take_out k ys)
        as (λ o.
          Taken ys o → Taken (y ∷ ys) (elim o [ none ↦ none | some (z, zs) ↦ some (z, y ∷ zs) ])) [
            | none ↦ λ _. tt
            | some (z, zs) ↦ λ p. Perm.trans (Perm.cons y p) (Perm.swap z y zs)
          ]
      (take_out-Taken k ys)

module _ (fl : Float64) (slice : SortSlice) (feedback : ℕ → List Received → Option (List ℕ)) where
  abbrev sx : ScreamRx
  sx = writing_rx feedback

  abbrev pub P : Type 0
  P = Passage fl (writing_rx feedback) slice

  -- All the packets on their way, and the calls of `Receive`.
  abbrev on_the_way : P → List AckedPkt
  on_the_way s = s.inferer.buf ++ (s.acked ++ s.sending)

  abbrev pub Conserved : P → Type 0
  Conserved s = Perm (map call_of s.arrived) (s.inferer.rx ++ map call_of (on_the_way s))

  -- Packets that change their place on the way.
  moved :
      (s t : P)
      → t.arrived ≡ s.arrived
      → t.inferer.rx ≡ s.inferer.rx
      → Perm (on_the_way s) (on_the_way t)
      → Conserved s
      → Conserved t
  moved s t a r p c = rw (a, r) (Perm.trans c (Perm.append_left s.inferer.rx (Perm.map call_of p)))

  abbrev After : Option P → Type 0
  After none = Unit
  After (some t) = Conserved t

  notify-Conserved :
      (r : Bool) (p : AckedPkt) (s : P) → Conserved s → Conserved (on_notify fl sx slice r p s)
  unfolding on_notify
  notify-Conserved false p s c = c
  notify-Conserved true p s c =
      rw
        (
          longer,
          map-append call_of s.arrived (p ∷ []),
          map-append call_of (on_the_way s) (p ∷ []),
          ← append_assoc s.inferer.rx,
        )
        (Perm.append_right (call_of p ∷ []) c)
    where
      longer : s.inferer.buf ++ (s.acked ++ (s.sending ++ (p ∷ []))) ≡ on_the_way s ++ (p ∷ [])
      longer = simp append_assoc

  send-Conserved :
      (s : P) (o : Option (AckedPkt × List AckedPkt))
      → Taken s.sending o
      → Conserved s
      → After (sent fl sx slice s o)
  unfolding sent
  send-Conserved s none t c = tt
  send-Conserved s (some (p, rest)) t c =
      elim (ltb (length s.acked) acked_capacity) as (λ b. After (if b then some next else none)) [
        | true ↦ moved s next refl refl shifted c
        | false ↦ tt
      ]
    where
      next : P
      next = record s { sending = rest; acked = s.acked ++ (p ∷ []) }

      shifted : Perm (on_the_way s) (on_the_way next)
      shifted =
          rw (append_assoc s.acked (p ∷ []) rest)
            (Perm.append_left s.inferer.buf (Perm.append_left s.acked t))

  receive-Conserved :
      (s : P) (ps : List AckedPkt) → s.acked ≡ ps → Conserved s → After (received fl sx slice s ps)
  unfolding received on_acked
  receive-Conserved s [] e c = tt
  receive-Conserved s (p ∷ rest) e c =
      moved s (record s { acked = rest; inferer = on_acked fl sx slice p s.inferer }) refl refl
        (rw (e, append_assoc s.inferer.buf (p ∷ []) (rest ++ s.sending)) (Perm.refl _)) c

  step-Conserved : (e : Step fl sx slice) (s : P) → Conserved s → After (step fl sx slice e s)
  unfolding step rtp_writer_func notify send receive_acked
  step-Conserved (write t header payload answer) s c = c
  step-Conserved (notified k r) s c =
      elim (get_elem? s.written k)
        as (λ o. Conserved (elim o [ none ↦ s | some p ↦ on_notify fl sx slice r p s ])) [
          | none ↦ c
          | some p ↦ notify-Conserved r p s c
        ]
  step-Conserved (sends k) s c =
      send-Conserved s (take_out k s.sending) (take_out-Taken k s.sending) c
  step-Conserved receives s c = receive-Conserved s s.acked refl c
  step-Conserved (ticks m) s c =
      Perm.trans c (tick-perm fl slice feedback m s.inferer (s.acked ++ s.sending))

  run-Conserved :
      (es : List (Step fl sx slice)) (s : P) → Conserved s → After (run fl sx slice es s)
  unfolding run
  run-Conserved [] s c = c
  run-Conserved (e ∷ es) s c =
      elim (step fl sx slice e s)
          as (λ o. After o → After (elim o [ none ↦ none | some s' ↦ run fl sx slice es s' ])) [
            | none ↦ λ _. tt
            | some s' ↦ λ c'. run-Conserved es s' c'
          ]
        (step-Conserved e s c)

  -- Whatever the order of writes, reports, sends and ticks: each packet that the transport reported as
  -- arrived was handed to `Receive`, or waits in the buffer, in the channel or in a goroutine that is
  -- about to send it; each report counts once, and no packet stands there without a report.
  pub arrivals_conserved :
      (es : List (Step fl sx slice)) (t0 : fl.Float) (smoothed : Bool) {s : P}
      → run fl sx slice es (new_passage fl sx slice (new_inferer fl sx slice [] t0 smoothed))
        ≡ some s
      → Perm
          (map call_of s.arrived)
          (s.inferer.rx ++ map call_of (s.inferer.buf ++ (s.acked ++ s.sending)))
  arrivals_conserved es t0 smoothed h = subst After h (
      run-Conserved es (new_passage fl sx slice (new_inferer fl sx slice [] t0 smoothed))
        (Perm.refl _))
