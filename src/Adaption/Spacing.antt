-- ===== src/Adaption/Spacing.antt =====
-- internal/utils/rate_adaption_interceptor.go: how far apart the changes of the bitrate are.
use rtq_go_endpoint.Common.{
  ℕ, ◌+◌, ◌*◌, ◌≤◌, ◌<◌, ◌≡◌, ◌≢◌, ◌⊎◌, ◌∙◌, refl, inl, inr, true, Option, some, List, [], ◌∷◌,
  length, All, arith,
}
use rtq_go_endpoint.Adaption.{
  increase, decrease, Readings, longer_since, millisecond, Control, on_empty, on_growing,
  on_shrinking, adapt, rounds,
}
use rtq_go_endpoint.Adaption.Rate.{
  Lowers, Drained, Shrank, adapt-lowers_iff, adapt-raises_iff, adapt-one_step,
}

-- The last decrease is noted, and not before `t`.
abbrev pub NotedSince : ℕ → Control → Type 0
NotedSince t c = (u : ℕ) × (c.vars.last_decrease ≡ some u) × (t ≤ u)

adapt-last_decrease :
    (now : Readings) (next : ℕ) (c : Control)
    → ((adapt now next c).vars.last_decrease ≡ c.vars.last_decrease)
      ⊎ ((adapt now next c).vars.last_decrease ≡ some now.set_decrease)
unfolding adapt on_empty on_growing on_shrinking
adapt-last_decrease now next c = ground arith

adapt-NotedSince :
    (t : ℕ) (now : Readings) (next : ℕ) (c : Control)
    → t ≤ now.set_decrease
    → NotedSince t c
    → NotedSince t (adapt now next c)
adapt-NotedSince t now next c h (u, e, le) = elim (adapt-last_decrease now next c) [
  | inl same ↦ (u, same ∙ e, le)
  | inr new ↦ (now.set_decrease, new, h)
]

abbrev pub NotBefore : ℕ → List (Readings × ℕ) → Type 0
NotBefore t = All (λ r. t ≤ r.0.set_decrease)

rounds-NotedSince :
    (t : ℕ) (rs : List (Readings × ℕ)) (c : Control)
    → NotBefore t rs
    → NotedSince t c
    → NotedSince t (rounds rs c)
unfolding rounds
rounds-NotedSince t [] c later h = h
rounds-NotedSince t ((now, next) ∷ rs) c later h =
    rounds-NotedSince t rs (adapt now next c) later.1 (adapt-NotedSince t now next c later.0 h)

adapt-notes :
    (now : Readings) (next : ℕ) (c : Control)
    → Lowers now next c
    → (adapt now next c).vars.last_decrease ≡ some now.set_decrease
unfolding adapt on_empty on_growing on_shrinking
adapt-notes now next c h = ground arith

lowers-late :
    (t : ℕ) (now : Readings) (next : ℕ) (c : Control)
    → NotedSince t c
    → Lowers now next c
    → t + 50 * millisecond < now.at_growing
lowers-late t now next c (u, e, le) h = ground arith

-- Two rounds of one loop that lower the bitrate, with any rounds between them, are more than 50 ms
-- apart: the clock at the later test shows more than 50 ms past the time noted at the earlier
-- decrease. It asks that the clock does not go back below that time in the rounds between.
pub decreases_spaced :
    (first second : Readings) (n m : ℕ) (rs : List (Readings × ℕ)) (c : Control)
    → (adapt first n c).target_bitrate.current_step < c.target_bitrate.current_step
    → NotBefore first.set_decrease rs
    → (adapt second m (rounds rs (adapt first n c))).target_bitrate.current_step
      < (rounds rs (adapt first n c)).target_bitrate.current_step
    → first.set_decrease + 50 * millisecond < second.at_growing
decreases_spaced first second n m rs c low later low' =
    lowers-late first.set_decrease second m d
      (rounds-NotedSince first.set_decrease rs (adapt first n c) later (
        first.set_decrease,
        adapt-notes first n c ((adapt-lowers_iff first n c).0 low).0,
        omega arith,
      ))
      ((adapt-lowers_iff second m d).0 low').0
  where
    d : Control
    d = rounds rs (adapt first n c)

adapt-raises :
    (now : Readings) (next : ℕ) (c : Control)
    → Drained now next c ⊎ Shrank now next c
    → c.target_bitrate.current_step + 1 < length c.target_bitrate.steps
    → (adapt now next c).target_bitrate.current_step ≡ c.target_bitrate.current_step + 1
adapt-raises now next c h room =
    omega (arith, (adapt-raises_iff now next c).1 (h, room), (adapt-one_step now next c).0)

adapt-steps :
    (now : Readings) (next : ℕ) (c : Control)
    → (adapt now next c).target_bitrate.steps ≡ c.target_bitrate.steps
unfolding adapt on_empty on_growing on_shrinking increase decrease
adapt-steps now next c = ground arith

adapt-last_increase :
    (now : Readings) (next : ℕ) (c : Control)
    → next ≢ 0
    → (adapt now next c).vars.last_increase ≡ c.vars.last_increase
unfolding adapt on_empty on_growing on_shrinking
adapt-last_increase now next c ne = ground arith

longer_since_mono :
    (t u : ℕ) (earlier : Option ℕ) (span : ℕ)
    → t ≤ u
    → longer_since t earlier span ≡ true
    → longer_since u earlier span ≡ true
longer_since_mono t u earlier span h e = ground arith

-- The 500 ms between increases are not kept. A round that raises the bitrate for a shrinking channel, and finds it not
-- empty, does not note the time. So where the next round finds the channel empty, it raises the bitrate again,
-- if its clock has not gone back behind the test of the first: no time need have passed between the two. It asks
-- that the ladder has two more steps. `next` is the channel's length in the first round.
pub increases_unspaced :
    (first second : Readings) (next : ℕ) (c : Control)
    → Shrank first next c
    → next ≢ 0
    → first.at_shrinking ≤ second.at_empty
    → c.target_bitrate.current_step + 2 < length c.target_bitrate.steps
    → (adapt second 0 (adapt first next c)).target_bitrate.current_step
      ≡ c.target_bitrate.current_step + 2
increases_unspaced first second next c h ne t room = omega (
  arith,
  adapt-raises first next c (inr h) (omega arith),
  adapt-raises second 0 d (inl (refl, drained))
      (omega (arith, same_length, adapt-raises first next c (inr h) (omega arith))),
)
  where
    d : Control
    d = adapt first next c

    same_length : length d.target_bitrate.steps ≡ length c.target_bitrate.steps
    same_length = rw (adapt-steps first next c)

    drained : longer_since second.at_empty d.vars.last_increase (500 * millisecond) ≡ true
    drained =
        rw (adapt-last_increase first next c ne)
          (longer_since_mono first.at_shrinking second.at_empty c.vars.last_increase _ t h.3)
