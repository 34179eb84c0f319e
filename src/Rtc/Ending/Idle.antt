-- ===== src/Rtc/Ending/Idle.antt =====
-- rtc/sender.go, rtc/receiver.go: `i.Close()` returns after the goroutines of the interceptors have left.
use rtq_go_endpoint.Common.{
  ℕ, ◌-◌, Bool, true, false, Option, none, some, Run, returns, panics, out_of_fuel, ◌≡◌, inl, inr,
  refl, subst, leb, if◌then◌else◌, Bool-cases, arith,
}
use rtq_go_endpoint.Rtc.Ending.{
  Side, Case, ready, Phase, selecting, leaving, joining, awaiting, returned, State, Event,
  eos_handler, closes, fails, selects, closes_interceptors, worker_leaves, joins, sees_eos,
  times_out, on_select, on_close_interceptors, on_join, on_eos, on_timeout, on_worker, close_eos,
  close, step, Reachable, fresh, later,
}

-- From the second select on, none of them runs.
abbrev pub Idle : Phase → ℕ → Type 0
Idle selecting busy = Unit
Idle leaving busy = Unit
Idle joining busy = Unit
Idle awaiting busy = busy ≡ 0
Idle returned busy = busy ≡ 0

abbrev After : Option State → Type 0
After none = Unit
After (some t) = Idle t.phase t.busy

abbrev AfterRun : Run (Option State) → Type 0
AfterRun (returns o) = After o
AfterRun (panics p) = Unit
AfterRun out_of_fuel = Unit

guarded-After :
    (b : Bool) (t : State) → (b ≡ true → Idle t.phase t.busy) → After (if b then some t else none)
guarded-After true t k = k refl
guarded-After false t k = tt

select-After :
    (side : Side) (c : Case) (s : State) (p : Phase) → Idle p s.busy → After (on_select side c s p)
unfolding on_select
select-After side c s selecting i = guarded-After (ready side c s.signals) _ (λ _. tt)
select-After side c s leaving i = tt
select-After side c s joining i = tt
select-After side c s awaiting i = tt
select-After side c s returned i = tt

close-After : (s : State) (p : Phase) → Idle p s.busy → After (on_close_interceptors s p)
unfolding on_close_interceptors
close-After s selecting i = tt
close-After s leaving i = tt
close-After s joining i = tt
close-After s awaiting i = tt
close-After s returned i = tt

join-After : (s : State) (p : Phase) → After (on_join s p)
unfolding on_join
join-After s selecting = tt
join-After s leaving = tt
join-After s joining = guarded-After (leb s.busy 0) _ (λ h. ground arith)
join-After s awaiting = tt
join-After s returned = tt

eos-After : (s : State) (p : Phase) → Idle p s.busy → After (on_eos s p)
unfolding on_eos
eos-After s selecting i = tt
eos-After s leaving i = tt
eos-After s joining i = tt
eos-After s awaiting i = guarded-After s.signals.is_eos _ (λ _. i)
eos-After s returned i = tt

timeout-After : (s : State) (p : Phase) → Idle p s.busy → After (on_timeout s p)
unfolding on_timeout
timeout-After s selecting i = tt
timeout-After s leaving i = tt
timeout-After s joining i = tt
timeout-After s awaiting i = i
timeout-After s returned i = tt

less-Idle : (p : Phase) (n : ℕ) → Idle p n → Idle p (n - 1)
less-Idle selecting n i = tt
less-Idle leaving n i = tt
less-Idle joining n i = tt
less-Idle awaiting n i = omega (arith, i)
less-Idle returned n i = omega (arith, i)

step-After : (side : Side) (e : Event) (s : State) → Idle s.phase s.busy → AfterRun (step side e s)
unfolding step close_eos close on_worker
step-After side eos_handler s i = elim (Bool-cases s.signals.is_eos) [
  | inl h ↦ rw h tt
  | inr h ↦ rw h i
]
step-After side closes s i = elim (Bool-cases s.signals.is_closed) [
  | inl h ↦ rw h tt
  | inr h ↦ rw h i
]
step-After side fails s i = i
step-After side (selects c) s i = select-After side c s s.phase i
step-After side closes_interceptors s i = close-After s s.phase i
step-After side worker_leaves s i = elim (Bool-cases (leb s.busy 0)) [
  | inl h ↦ rw (h, on_worker) tt
  | inr h ↦ rw (h, on_worker) (less-Idle s.phase s.busy i)
]
step-After side joins s i = join-After s s.phase
step-After side sees_eos s i = eos-After s s.phase i
step-After side times_out s i = timeout-After s s.phase i

pub Reachable-Idle : {side : Side} {s : State} → Reachable side s → Idle s.phase s.busy
Reachable-Idle (fresh busy) = tt
Reachable-Idle {side} (later {s = s} e r h) =
    subst AfterRun h (step-After side e s (Reachable-Idle r))
