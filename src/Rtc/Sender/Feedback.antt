-- ===== src/Rtc/Sender/Feedback.antt =====
-- rtc/sender.go: which buffers `AcceptFeedback` hands on, and when its goroutine stops to do so.
use native.Mathlib.Decide.{dec_lt}
use rtq_go_endpoint.Common.{
  Bool-cases, ◌⊎◌, ◌↔◌, ℕ, zero, suc, ◌+◌, ◌<◌, ◌≤◌, ◌≡◌, ◌∙◌, refl, sym, inl, inr, Bool, true,
  false, none, some, List, [], ◌∷◌, ◌++◌, append-nil, append_assoc, map, if◌then◌else◌, arith,
}
use rtq_go_endpoint.Rtc.Sender.{
  ReadResult, Progress, reading, stuck, panicked, Accepted, send_error, accept_feedback,
}

abbrev one_if : Bool → ℕ
one_if b = if b then 1 else 0

send_error-cases :
    (b : Bool) (n : ℕ)
    → ((n < one_if b) × (send_error b n ≡ none))
      ⊎ ((m : ℕ) × ((n ≡ m + one_if b) × (send_error b n ≡ some m)))
unfolding send_error
send_error-cases false n = inr (n, (omega arith, refl))
send_error-cases true zero = inl (omega arith, refl)
send_error-cases true (suc n) = inr (n, (omega arith, refl))

module _ (rejects : List ℕ → Bool) where
  -- The rounds before the first one that finds no reader.
  pub served : List ReadResult → List ReadResult
  served [] = []
  served (r ∷ rs) = if r.has_reader then r ∷ served rs else []

  -- Whether there is such a round.
  pub lacks_reader : List ReadResult → Bool
  lacks_reader [] = false
  lacks_reader (r ∷ rs) = if r.has_reader then lacks_reader rs else true

  -- The errors that are to be sent: of the reads, and of the reader on what was read, up to a round without a reader,
  -- of which the error of the read is still sent.
  pub errors : List ReadResult → ℕ
  errors [] = 0
  errors (r ∷ rs) =
      one_if r.failed + (if r.has_reader then one_if (rejects r.bytes) + errors rs else 0)

  abbrev pub at_end : List ReadResult → Progress
  at_end rs = if lacks_reader rs then panicked else reading

  record Outcome (receivers : ℕ) (rs : List ReadResult) (before : List (List ℕ)) (a : Accepted)
      : Type 0 where
    enough :
        errors rs ≤ receivers
        → (a.handed ≡ before ++ map (λ (r : ReadResult). r.bytes) (served rs))
          × (a.progress ≡ at_end rs)
    few : receivers < errors rs → a.progress ≡ stuck

  -- One round, by whether it finds a reader.
  round-Outcome :
      (bytes : List ℕ) (failed has_reader : Bool) (n : ℕ) (rs : List ReadResult)
      (before : List (List ℕ))
      → ((k : ℕ) (next : List (List ℕ)) → Outcome k rs next (accept_feedback rejects k rs next))
      → let r : ReadResult = record { bytes = bytes; failed = failed; has_reader = has_reader } in
        Outcome n (r ∷ rs) before (accept_feedback rejects n (r ∷ rs) before)
  unfolding accept_feedback errors served lacks_reader
  round-Outcome bytes failed false n rs before rest = elim (send_error-cases failed n) [
    | inl (short, stops) ↦
        rw (stops, accept_feedback) (record { enough = λ h. ground arith; few = λ h. refl })
    | inr (m, (left, sent)) ↦
        rw (sent, accept_feedback)
          (record {
            enough = λ h. (sym (append-nil before), refl);
            few = λ h. absurd (omega (arith, h, left));
          })
  ]
  round-Outcome bytes failed true n rs before rest = elim (send_error-cases failed n) [
    | inl (short, stops) ↦
        rw (stops, accept_feedback) (record { enough = λ h. ground arith; few = λ h. refl })
    | inr (m, (left, sent)) ↦
        rw (sent, accept_feedback)
          (elim (send_error-cases (rejects bytes) m) [
            | inl (short, stops) ↦
                rw (stops, accept_feedback) (record { enough = λ h. ground arith; few = λ h. refl })
            | inr (k, (left', sent')) ↦
                rw (sent', accept_feedback)
                  (let o = rest k (before ++ (bytes ∷ [])) in
                    record {
                      enough = λ h.
                          let (all, free) = o.enough (omega (arith, h, left, left')) in
                          (all ∙ append_assoc before (bytes ∷ []) _, free);
                      few = λ h. o.few (omega (arith, h, left, left'));
                    })
          ])
  ]

  accept-Outcome :
      (receivers : ℕ) (rs : List ReadResult) (before : List (List ℕ))
      → Outcome receivers rs before (accept_feedback rejects receivers rs before)
  unfolding accept_feedback errors served lacks_reader
  accept-Outcome n [] before = record {
    enough = λ h. (sym (append-nil before), refl);
    few = λ h. ground arith;
  }
  accept-Outcome n (r ∷ rs) before =
      round-Outcome r.bytes r.failed r.has_reader n rs before (λ k next. accept-Outcome k rs next)

  at_end-stuck : (rs : List ReadResult) → ¬ (at_end rs ≡ stuck)
  at_end-stuck rs h = elim (Bool-cases (lacks_reader rs)) [
    | inl lacks ↦ cc (rw lacks at h)
    | inr has ↦ cc (rw has at h)
  ]

  -- If more errors come up than are received, the goroutine waits for ever at a send. If not, every buffer is handed to the
  -- RTCP reader, in order, also what a failed read has left, up to the first round that comes before `Start` has
  -- set the reader, where the goroutine panics; without such a round it goes on to read. The errors are those
  -- of the rounds before such a round, and of its read.
  pub accept_feedback_ends :
      (receivers : ℕ) (rs : List ReadResult)
      → ((accept_feedback rejects receivers rs []).progress ≡ stuck ↔ receivers < errors rs)
        × (errors rs ≤ receivers
            → ((accept_feedback rejects receivers rs []).handed
                ≡ map (λ (r : ReadResult). r.bytes) (served rs))
              × ((accept_feedback rejects receivers rs []).progress ≡ at_end rs))
  accept_feedback_ends receivers rs =
      let o = accept-Outcome receivers rs [] in
      let is_late : (accept_feedback rejects receivers rs []).progress ≡ stuck
          → receivers < errors rs =
        (λ h. elim (dec_lt receivers (errors rs)) [
          | yes more ↦ more
          | no fits ↦ absurd (at_end-stuck rs (sym (o.enough (omega arith)).1 ∙ h))
        ]) in
      ((is_late, o.few), o.enough)
