-- ===== src/Adaption.antt =====
-- internal/utils/rate_adaption_interceptor.go: `bitrateConfig`, the ladder of bitrates, and the
-- control law that the goroutine of a stream applies after each packet. Times are nanoseconds of a
-- monotonic clock; `none` is the zero time, which is further back than any span that is compared.
-- Counters grow by one per packet and are not wrapped. The children model the interceptor.
pub mod Rate
pub mod Spacing
pub mod Interceptor
mod Tests
use rtq_go_endpoint.Common.{
  ℕ, ◌+◌, ◌-◌, ◌*◌, Bool, true, false, ◌&&◌, ◌||◌, Option, none, some, List, [], ◌∷◌, length,
  get_elem?, Run, returns, panics, out_of_range, ltb, leb, ◌==◌, if◌then◌else◌,
}

pub record BitrateConfig : Type 0 where
  pub current_step : ℕ
  pub steps : List ℕ
  pub last_change : Option ℕ

-- `b.currentStep >= len(b.steps)-1` is an int comparison; the one is moved to the other side. `now`
-- is what `time.Now` gives.
unfoldable pub increase : ℕ → BitrateConfig → BitrateConfig
increase now b =
    if leb (length b.steps) (b.current_step + 1)
    then b
    else record b { current_step = b.current_step + 1; last_change = some now }

unfoldable pub decrease : BitrateConfig → BitrateConfig
decrease b = if leb b.current_step 0 then b else record b { current_step = b.current_step - 1 }

element : Option ℕ → Run ℕ
element none = panics out_of_range
element (some n) = returns n

unfoldable pub target : BitrateConfig → Run ℕ
unfolding element
target b = element (get_elem? b.steps b.current_step)

unfoldable pub initial_target_bitrate : BitrateConfig
initial_target_bitrate = record {
  current_step = 0;
  steps = 256_000 ∷ 512_000 ∷ 768_000 ∷ 1_024_000 ∷ 1_280_000 ∷ [];
  last_change = none;
}

-- The variables of `loop`.
pub record LoopVars : Type 0 where
  pub last_queue_size : ℕ
  pub queue_growing : ℕ
  pub queue_shrinking : ℕ
  pub last_decrease : Option ℕ
  pub last_increase : Option ℕ

abbrev pub initial_vars : LoopVars
initial_vars = record {
  last_queue_size = 0;
  queue_growing = 0;
  queue_shrinking = 0;
  last_decrease = none;
  last_increase = none;
}

-- What the clock shows at each place of one round where the code reads it.
pub record Readings : Type 0 where
  pub at_empty : ℕ  -- time.Since(lastIncrease) of the first test
  pub change_empty : ℕ  -- time.Now in `increase`
  pub set_increase : ℕ  -- lastIncrease = time.Now()
  pub at_growing : ℕ  -- time.Since(lastDecrease)
  pub set_decrease : ℕ  -- lastDecrease = time.Now()
  pub at_shrinking : ℕ  -- time.Since(lastIncrease) of the last test
  pub change_shrinking : ℕ  -- time.Now in `increase`

abbrev pub millisecond : ℕ
millisecond = 1_000_000

-- `time.Since(then) > span` at the time `now`
abbrev pub longer_since : ℕ → Option ℕ → ℕ → Bool
longer_since now none span = true
longer_since now (some t) span = ltb (t + span) now

pub record Control : Type 0 where
  pub vars : LoopVars
  pub target_bitrate : BitrateConfig

-- `if nextQueueSize == 0 && …`
unfoldable pub on_empty : Readings → ℕ → Control → Control
on_empty now next c =
    if (next == 0) && longer_since now.at_empty c.vars.last_increase (500 * millisecond)
    then record {
      vars = record c.vars {
        queue_growing = 0;
        queue_shrinking = 0;
        last_increase = some now.set_increase;
      };
      target_bitrate = increase now.change_empty c.target_bitrate;
    }
    else c

-- `if nextQueueSize > lastQueueSize || nextQueueSize > 200`
unfoldable pub on_growing : Readings → ℕ → Control → Control
on_growing now next c =
    if ltb c.vars.last_queue_size next || ltb 200 next
    then (if ltb 50 (c.vars.queue_growing + 1)
          && longer_since now.at_growing c.vars.last_decrease (50 * millisecond)
        then record {
          vars = record c.vars { last_decrease = some now.set_decrease; queue_growing = 0 };
          target_bitrate = decrease c.target_bitrate;
        }
        else record c { vars = record c.vars { queue_growing = c.vars.queue_growing + 1 } })
    else c

-- `if nextQueueSize < 100 && nextQueueSize < lastQueueSize`
unfoldable pub on_shrinking : Readings → ℕ → Control → Control
on_shrinking now next c =
    if ltb next 100 && ltb next c.vars.last_queue_size
    then (if ltb 100 (c.vars.queue_shrinking + 1)
          && longer_since now.at_shrinking c.vars.last_increase (500 * millisecond)
        then record {
          vars = record c.vars { queue_shrinking = 0 };
          target_bitrate = increase now.change_shrinking c.target_bitrate;
        }
        else record c { vars = record c.vars { queue_shrinking = c.vars.queue_shrinking + 1 } })
    else c

-- The round of `loop` after a packet is written, with `next` packets left in the channel.
unfoldable pub adapt : Readings → ℕ → Control → Control
adapt now next c =
    let c' = on_shrinking now next (on_growing now next (on_empty now next c)) in
    record c' { vars = record c'.vars { last_queue_size = next } }

-- The rounds of the loop, one for each packet received.
unfoldable pub rounds : List (Readings × ℕ) → Control → Control
rounds [] c = c
rounds ((now, next) ∷ rest) c = rounds rest (adapt now next c)
