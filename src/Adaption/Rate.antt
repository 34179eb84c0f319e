-- ===== src/Adaption/Rate.antt =====
-- internal/utils/rate_adaption_interceptor.go: what the control law does to the bitrate.
use rtq_go_endpoint.Common.{
  ℕ, zero, suc, ap, ◌+◌, ◌*◌, ◌≤◌, ◌<◌, ◌≡◌, ◌↔◌, ◌⊎◌, refl, true, length, returns, arith,
}
use rtq_go_endpoint.Adaption.{
  BitrateConfig, increase, decrease, target, initial_target_bitrate, Readings, longer_since,
  millisecond, Control, on_empty, on_growing, on_shrinking, adapt,
}

-- The ladder is as it was made, and the step is one of its rungs.
pub record IsValid (b : BitrateConfig) : Type 0 where
  pub ladder : b.steps ≡ initial_target_bitrate.steps
  pub in_range : b.current_step < 5

pub increase-IsValid : (now : ℕ) (b : BitrateConfig) → IsValid b → IsValid (increase now b)
unfolding increase initial_target_bitrate
increase-IsValid now b v = ground (arith, ap {B = ℕ} (length {A = ℕ}) v.ladder)

pub decrease-IsValid : (b : BitrateConfig) → IsValid b → IsValid (decrease b)
unfolding decrease
decrease-IsValid b v = ground arith

-- A valid configuration has a bitrate: one of the five of the ladder.
pub target-returns :
    (b : BitrateConfig)
    → IsValid b
    → (bps : ℕ) × (target b ≡ returns bps) × (256_000 ≤ bps) × (bps ≤ 1_280_000)
unfolding target initial_target_bitrate
target-returns b v = rw v.ladder (rung b.current_step v.in_range)
  where
    rung :
        (i : ℕ)
        → i < 5
        → (bps : ℕ) × (target (record b { steps = initial_target_bitrate.steps; current_step = i })
            ≡ returns bps)
          × (256_000 ≤ bps)
          × (bps ≤ 1_280_000)
    rung zero h = (_, refl, omega arith, omega arith)
    rung (suc zero) h = (_, refl, omega arith, omega arith)
    rung (suc (suc zero)) h = (_, refl, omega arith, omega arith)
    rung (suc (suc (suc zero))) h = (_, refl, omega arith, omega arith)
    rung (suc (suc (suc (suc zero)))) h = (_, refl, omega arith, omega arith)
    rung (suc (suc (suc (suc (suc i))))) h = absurd (omega arith)

module _ (now : Readings) (next : ℕ) (c : Control) where
  open c.vars use {last_queue_size, queue_growing, queue_shrinking, last_decrease, last_increase}
  open c.target_bitrate use {current_step, steps}

  -- What the code waits for before it lowers the bitrate, and before each of its two increases.
  abbrev pub Lowers : Type 0
  Lowers =
      ((last_queue_size < next) ⊎ (200 < next))
      × (50 ≤ queue_growing)
      × (longer_since now.at_growing last_decrease (50 * millisecond) ≡ true)

  abbrev pub Drained : Type 0
  Drained = (next ≡ 0) × (longer_since now.at_empty last_increase (500 * millisecond) ≡ true)

  abbrev pub Shrank : Type 0
  Shrank =
      (next < 100)
      × (next < last_queue_size)
      × (100 ≤ queue_shrinking)
      × (longer_since now.at_shrinking last_increase (500 * millisecond) ≡ true)

  -- One round lowers the bitrate exactly when the channel grew or is above 200 packets, it did so
  -- at least 50 times before, the last decrease is more than 50 ms back, and there is a lower step.
  pub adapt-lowers_iff :
      ((adapt now next c).target_bitrate.current_step < current_step)
      ↔ (Lowers × (0 < current_step))
  unfolding adapt on_empty on_growing on_shrinking increase decrease
  adapt-lowers_iff = ground arith

  -- One round raises the bitrate exactly when there is a higher step and either the channel is empty
  -- or it shrank below 100 packets after 100 rounds in which it did; in both cases the last increase
  -- that was noted must be more than 500 ms back.
  pub adapt-raises_iff :
      (current_step < (adapt now next c).target_bitrate.current_step)
      ↔ ((Drained ⊎ Shrank) × (current_step + 1 < length steps))
  unfolding adapt on_empty on_growing on_shrinking increase decrease
  adapt-raises_iff = ground arith

  -- One round moves the bitrate by one step at most.
  pub adapt-one_step :
      ((adapt now next c).target_bitrate.current_step ≤ current_step + 1)
      × (current_step ≤ (adapt now next c).target_bitrate.current_step + 1)
  unfolding adapt on_empty on_growing on_shrinking increase decrease
  adapt-one_step = ground arith

on_empty-IsValid :
    (now : Readings) (next : ℕ) (c : Control)
    → IsValid c.target_bitrate
    → IsValid (on_empty now next c).target_bitrate
unfolding on_empty
on_empty-IsValid now next c v = ground (arith, increase-IsValid now.change_empty c.target_bitrate v)

on_growing-IsValid :
    (now : Readings) (next : ℕ) (c : Control)
    → IsValid c.target_bitrate
    → IsValid (on_growing now next c).target_bitrate
unfolding on_growing
on_growing-IsValid now next c v = ground (arith, decrease-IsValid c.target_bitrate v)

on_shrinking-IsValid :
    (now : Readings) (next : ℕ) (c : Control)
    → IsValid c.target_bitrate
    → IsValid (on_shrinking now next c).target_bitrate
unfolding on_shrinking
on_shrinking-IsValid now next c v =
    ground (arith, increase-IsValid now.change_shrinking c.target_bitrate v)

pub adapt-IsValid :
    (now : Readings) (next : ℕ) (c : Control)
    → IsValid c.target_bitrate
    → IsValid (adapt now next c).target_bitrate
unfolding adapt
adapt-IsValid now next c v =
    on_shrinking-IsValid now next _ (on_growing-IsValid now next _ (on_empty-IsValid now next c v))

pub initial-IsValid : IsValid initial_target_bitrate
unfolding initial_target_bitrate
initial-IsValid = record { ladder = refl; in_range = omega arith }
