-- ===== src/Rtc/Ending/Closing.antt =====
-- rtc/sender.go, rtc/receiver.go: `Close` ends `Start` and `Receive`.
use rtq_go_endpoint.Common.{ℕ, ◌+◌, ◌≤◌, some, returns, ◌≡◌}
use rtq_go_endpoint.Rtc.Ending.{
  Side, returned, State, Event, eos_handler, closes, fails, selects, closes_interceptors,
  worker_leaves, joins, sees_eos, times_out, step,
}
use rtq_go_endpoint.Rtc.Ending.Wound.{Wound}
use rtq_go_endpoint.Rtc.Ending.Idle.{Idle}

-- The steps that the function itself takes, and those by which goroutines of its interceptors leave.
abbrev pub IsOwn : Event → Type 0
IsOwn eos_handler = ⊥
IsOwn closes = ⊥
IsOwn fails = ⊥
IsOwn (selects c) = Unit
IsOwn closes_interceptors = Unit
IsOwn worker_leaves = Unit
IsOwn joins = Unit
IsOwn sees_eos = Unit
IsOwn times_out = Unit

pub data Goes (side : Side) : ℕ → State → State → Type 0 where
  stays : (s : State) → Goes side 0 s s
  moves :
      {n : ℕ} {s t u : State} (e : Event)
      → IsOwn e
      → step side e s ≡ returns (some t)
      → Goes side n t u
      → Goes side (n + 1) s u

-- From a state on to the return, in at most so many steps.
pub record Returns (side : Side) (most : ℕ) (s : State) : Type 0 where
  pub steps : ℕ
  pub last : State
  pub goes : Goes side steps s last
  pub few : steps ≤ most
  pub has_returned : last.phase ≡ returned
