-- ===== src/RtpLog/Closing.antt =====
-- internal/utils/rtp_log_interceptor.go: which calls of `Close` return, and what they leave behind.
use rtq_go_endpoint.Common.{
  ℕ, zero, suc, ◌+◌, ◌<◌, ◌≡◌, ◌⊎◌, inl, inr, refl, subst, Bool, true, false, List, [], ◌∷◌,
  if◌then◌else◌, arith,
}
use rtq_go_endpoint.RtpLog.Runs.{After, run-step, reached}
use rtq_go_endpoint.RtpLog.{
  Phase, running, leaving, gone, State, new_rtp_log_interceptor, Sent, Event, sends, starts_close,
  closes_done, leaves, meets, blocked, panicked, goes, on_sends, starts, on_closes_done, on_leaves,
  on_meets, step, run,
}

-- How many calls have returned, and whether `done` is closed, in each phase of the loop.
abbrev ByPhase : Phase → Bool → ℕ → Type 0
ByPhase running done returned = returned ≡ 0
ByPhase leaving done returned = (returned ≡ 0) × (done ≡ true)
ByPhase gone done returned = (returned ≡ 1) × (done ≡ true)

record IsConsistent (s : State) : Type 0 where
  by_phase : ByPhase s.loop s.is_done s.returned
  told : 0 < s.waiting → s.is_done ≡ true

step-IsConsistent : (e : Event) (s : State) → IsConsistent s → After IsConsistent (step e s)
unfolding step on_sends starts on_closes_done on_leaves on_meets
step-IsConsistent (sends sent) s c =
    elim s.loop
        as (λ ph.
          ByPhase ph s.is_done s.returned → ph ≡ s.loop → After IsConsistent (on_sends ph sent s)) [
            | running ↦ λ b e. record { by_phase = c.by_phase; told = c.told }
            | leaving ↦ λ b e. tt
            | gone ↦ λ b e. tt
          ]
      c.by_phase refl
step-IsConsistent starts_close s c =
    elim s.is_done
        as (λ done.
          s.is_done ≡ done
          → IsConsistent (
              if done
              then record s { waiting = s.waiting + 1 }
              else record s { closing = s.closing + 1 })) [
                | true ↦ λ e. record { by_phase = c.by_phase; told = λ h. e }
                | false ↦ λ e. record { by_phase = c.by_phase; told = c.told }
              ]
      refl
step-IsConsistent closes_done s c =
    elim s.closing as (λ n. After IsConsistent (on_closes_done n s)) [
      | zero ↦ tt
      | suc n ↦
          elim s.is_done
              as (λ done.
                ByPhase s.loop done s.returned
                → After IsConsistent (
                    if done
                    then panicked
                    else goes
                        (record s { is_done = true; closing = n; waiting = s.waiting + 1 }))) [
                          | true ↦ λ b. tt
                          | false ↦ λ b. record {
                            by_phase = closed s.loop s.returned b;
                            told = λ h. refl;
                          }
                        ]
            c.by_phase
    ]
  where
    closed : (ph : Phase) (returned : ℕ) → ByPhase ph false returned → ByPhase ph true returned
    closed running returned b = b
    closed leaving returned b = (b.0, refl)
    closed gone returned b = (b.0, refl)
step-IsConsistent leaves s c =
    elim s.loop
        as (λ ph. ByPhase ph s.is_done s.returned → After IsConsistent (on_leaves ph s.is_done s)) [
          | running ↦ λ b.
              elim s.is_done
                  as (λ done. s.is_done ≡ done → After IsConsistent (on_leaves running done s)) [
                    | true ↦ λ e. record { by_phase = (b, e); told = c.told }
                    | false ↦ λ e. tt
                  ]
                refl
          | leaving ↦ λ b. tt
          | gone ↦ λ b. tt
        ]
      c.by_phase
step-IsConsistent meets s c =
    elim s.loop
        as (λ ph. ByPhase ph s.is_done s.returned → After IsConsistent (on_meets ph s.waiting s)) [
          | running ↦ λ b. tt
          | leaving ↦ λ b. elim s.waiting as (λ n. After IsConsistent (on_meets leaving n s)) [
            | zero ↦ tt
            | suc n ↦ record { by_phase = (omega (arith, b.0), b.1); told = λ h. b.1 }
          ]
          | gone ↦ λ b. tt
        ]
      c.by_phase

run-IsConsistent : (es : List Event) (s : State) → IsConsistent s → After IsConsistent (run es s)
unfolding run
run-IsConsistent [] s c = c
run-IsConsistent (e ∷ es) s c =
    run-step IsConsistent IsConsistent e es s (step-IsConsistent e s c)
      (λ s' c'. run-IsConsistent es s' c')

reachable-IsConsistent :
    (es : List Event) (s : State) → run es new_rtp_log_interceptor ≡ goes s → IsConsistent s
reachable-IsConsistent es s h = reached IsConsistent (run es new_rtp_log_interceptor) s h (
    run-IsConsistent es new_rtp_log_interceptor
      (record { by_phase = refl; told = λ none_waits. ground arith }))

abbrev IsGone : State → Type 0
IsGone s = (s.loop ≡ gone) × (s.returned ≡ 1)

returned-IsGone : (ph : Phase) (done : Bool) → ByPhase ph done 1 → ph ≡ gone
returned-IsGone running done b = absurd (cc b)
returned-IsGone leaving done b = absurd (cc b.0)
returned-IsGone gone done b = refl

step-IsGone : (e : Event) (s : State) → IsGone s → After IsGone (step e s)
unfolding step on_sends starts on_closes_done on_leaves on_meets
step-IsGone (sends sent) s (g, r) = rw (g, on_sends) tt
step-IsGone starts_close s (g, r) =
    elim s.is_done
      as (λ done. IsGone (
        if done
        then record s { waiting = s.waiting + 1 }
        else record s { closing = s.closing + 1 })) [ true ↦ (g, r) | false ↦ (g, r) ]
step-IsGone closes_done s (g, r) = elim s.closing as (λ n. After IsGone (on_closes_done n s)) [
  | zero ↦ tt
  | suc n ↦
      elim s.is_done
        as (λ done. After IsGone (
          if done
          then panicked
          else goes (record s { is_done = true; closing = n; waiting = s.waiting + 1 }))) [
            | true ↦ tt
            | false ↦ (g, r)
          ]
]
step-IsGone leaves s (g, r) = rw (g, on_leaves) tt
step-IsGone meets s (g, r) = rw (g, on_meets) tt

run-IsGone : (es : List Event) (s : State) → IsGone s → After IsGone (run es s)
unfolding run
run-IsGone [] s g = g
run-IsGone (e ∷ es) s g =
    run-step IsGone IsGone e es s (step-IsGone e s g) (λ s' g'. run-IsGone es s' g')

-- Once a call of `Close` has returned, no other call ever does, whatever happens later, and no packet is
-- taken from a reader or a writer any more: each of them blocks for ever.
pub close_returns_once :
    (es later : List Event) (s s' : State) (sent : Sent)
    → run es new_rtp_log_interceptor ≡ goes s
    → s.returned ≡ 1
    → run later s ≡ goes s'
    → (s'.returned ≡ 1) × ((step meets s' ≡ blocked) × (step (sends sent) s' ≡ blocked))
unfolding step on_sends on_meets
close_returns_once es later s s' sent h one later_on =
    let c = reachable-IsConsistent es s h in
    let left =
      returned-IsGone s.loop s.is_done (subst (λ n. ByPhase s.loop s.is_done n) one c.by_phase) in
    let (g, r) = reached IsGone (run later s) s' later_on (run-IsGone later s (left, one)) in
    (r, (rw (g, on_meets) refl, rw (g, on_sends) refl))

one_more : (m : ℕ) → 0 < m → (n : ℕ) × (m ≡ suc n)
one_more zero h = absurd (omega (arith, h))
one_more (suc n) h = (n, refl)

abbrev met : ℕ → State → State
met n s = record s { loop = gone; waiting = n; returned = s.returned + 1 }

ways :
    (s : State) (n : ℕ)
    → s.waiting ≡ suc n
    → s.is_done ≡ true
    → s.returned ≡ 0
    → ByPhase s.loop s.is_done s.returned
    → (run (meets ∷ []) s ≡ goes (met n s)) ⊎ (run (leaves ∷ meets ∷ []) s ≡ goes (met n s))
unfolding run step on_leaves on_meets
ways s n waits done none_yet b =
    elim s.loop
        as (λ ph.
          s.loop ≡ ph
          → ByPhase ph s.is_done s.returned
          → (run (meets ∷ []) s ≡ goes (met n s))
            ⊎ (run (leaves ∷ meets ∷ []) s ≡ goes (met n s))) [
              | running ↦ λ e b. inr (rw (e, done, waits) refl)
              | leaving ↦ λ e b. inl (rw (e, waits) refl)
              | gone ↦ λ e b. absurd (cc b.0)
            ]
      refl b

-- As long as no call of `Close` has returned, one that waits can return without any packet being sent: in
-- one step if the loop has left, in two if it still runs.
pub close-returns :
    (es : List Event) (s : State)
    → run es new_rtp_log_interceptor ≡ goes s
    → 0 < s.waiting
    → s.returned ≡ 0
    → (s' : State) × (((run (meets ∷ []) s ≡ goes s') ⊎ (run (leaves ∷ meets ∷ []) s ≡ goes s'))
        × ((s'.returned ≡ 1) × (s'.waiting + 1 ≡ s.waiting)))
unfolding run step on_leaves on_meets
close-returns es s h waits none_yet =
    let c = reachable-IsConsistent es s h in
    let (n, more) = one_more s.waiting waits in
    (
      met n s,
      (
        ways s n more (c.told waits) none_yet c.by_phase,
        (omega (arith, none_yet), omega (arith, more)),
      ),
    )
