-- ===== src/Rtc/Ending/Wound.antt =====
-- rtc/sender.go, rtc/receiver.go: what `Start` and `Receive` have done when they return, and that `Close` ends them.
use rtq_go_endpoint.Common.{
  Bool, true, false, Option, none, some, List, [], ◌∷◌, ◌++◌, append_assoc, Run, returns, panics,
  out_of_fuel, ◌≡◌, ◌⊎◌, ◌∙◌, inl, inr, refl, ap, subst, leb, if◌then◌else◌, Bool-cases,
}
use rtq_go_endpoint.Rtc.Ending.{
  Case, eos, writer_error, goroutine_error, closing, Side, sender, receiver, Signals, sender_ready,
  receiver_ready, ready, stops, take, Phase, joining, selecting, leaving, awaiting, returned, Call,
  stop_pipeline, close_interceptors, note_timeout, State, Event, eos_handler, closes, fails,
  selects, closes_interceptors, worker_leaves, joins, on_join, on_worker, sees_eos, times_out,
  on_select, on_close_interceptors, on_eos, on_timeout, close_eos, close, step, Reachable, fresh,
  later,
}

-- How the first select was left: the pipeline was stopped, or it is the sender's and had come to its end.
abbrev pub Ended : Side → Signals → List Call → Type 0
Ended side sig calls =
    (calls ≡ stop_pipeline ∷ []) ⊎ ((calls ≡ []) × (sig.is_eos ≡ true) × (side ≡ sender))

-- What the second select adds.
abbrev pub Waited : Signals → List Call → Type 0
Waited sig calls = ((calls ≡ []) × (sig.is_eos ≡ true)) ⊎ (calls ≡ note_timeout ∷ [])

abbrev pub Wound : Side → Phase → Signals → List Call → Type 0
Wound side selecting sig calls = calls ≡ []
Wound side leaving sig calls = Ended side sig calls
Wound side awaiting sig calls =
    (first : List Call) × Ended side sig first × (calls ≡ first ++ (close_interceptors ∷ []))
Wound side joining sig calls =
    (first : List Call) × Ended side sig first × (calls ≡ first ++ (close_interceptors ∷ []))
Wound side returned sig calls =
    (first : List Call) × (last : List Call) × Ended side sig first
    × Waited sig last
    × (calls ≡ first ++ (close_interceptors ∷ last))

abbrev Later : Signals → Signals → Type 0
Later a b = a.is_eos ≡ true → b.is_eos ≡ true

Ended-Later :
    (side : Side) (a b : Signals) (calls : List Call)
    → Later a b
    → Ended side a calls
    → Ended side b calls
Ended-Later side a b calls h (inl e) = inl e
Ended-Later side a b calls h (inr (e, at_end, is_sender)) = inr (e, h at_end, is_sender)

Waited-Later : (a b : Signals) (calls : List Call) → Later a b → Waited a calls → Waited b calls
Waited-Later a b calls h (inl (e, at_end)) = inl (e, h at_end)
Waited-Later a b calls h (inr e) = inr e

Wound-Later :
    (side : Side) (p : Phase) (a b : Signals) (calls : List Call)
    → Later a b
    → Wound side p a calls
    → Wound side p b calls
Wound-Later side selecting a b calls h w = w
Wound-Later side leaving a b calls h w = Ended-Later side a b calls h w
Wound-Later side awaiting a b calls h (first, ended, e) =
    (first, Ended-Later side a b first h ended, e)
Wound-Later side joining a b calls h (first, ended, e) =
    (first, Ended-Later side a b first h ended, e)
Wound-Later side returned a b calls h (first, last, ended, waited, e) =
    (first, last, Ended-Later side a b first h ended, Waited-Later a b last h waited, e)

abbrev WoundState : Side → State → Type 0
WoundState side s = Wound side s.phase s.signals s.calls

abbrev After : Side → Option State → Type 0
After side none = Unit
After side (some t) = WoundState side t

abbrev AfterRun : Side → Run (Option State) → Type 0
AfterRun side (returns o) = After side o
AfterRun side (panics p) = Unit
AfterRun side out_of_fuel = Unit

take-eos : (c : Case) (sig : Signals) → (take c sig).is_eos ≡ sig.is_eos
unfolding take
take-eos eos sig = refl
take-eos writer_error sig = refl
take-eos goroutine_error sig = refl
take-eos closing sig = refl

-- The case of the end of the stream is the sender's.
ready-eos :
    (side : Side) (sig : Signals)
    → ready side eos sig ≡ true
    → (sig.is_eos ≡ true) × (side ≡ sender)
unfolding ready sender_ready receiver_ready
ready-eos sender sig h = (h, refl)
ready-eos receiver sig h = absurd cc

taken-Ended :
    (side : Side) (c : Case) (sig : Signals) (calls : List Call)
    → calls ≡ []
    → ready side c sig ≡ true
    → Ended side (take c sig) (if stops c then calls ++ (stop_pipeline ∷ []) else calls)
unfolding stops take
taken-Ended side eos sig calls e h =
    let (at_end, is_sender) = ready-eos side sig h in inr (e, at_end, is_sender)
taken-Ended side writer_error sig calls e h = inl (ap (λ cs. cs ++ (stop_pipeline ∷ [])) e)
taken-Ended side goroutine_error sig calls e h = inl (ap (λ cs. cs ++ (stop_pipeline ∷ [])) e)
taken-Ended side closing sig calls e h = inl (ap (λ cs. cs ++ (stop_pipeline ∷ [])) e)

guarded-After :
    (side : Side) (b : Bool) (t : State)
    → (b ≡ true → WoundState side t)
    → After side (if b then some t else none)
guarded-After side true t k = k refl
guarded-After side false t k = tt

select-After :
    (side : Side) (c : Case) (s : State) (p : Phase)
    → Wound side p s.signals s.calls
    → After side (on_select side c s p)
unfolding on_select
select-After side c s selecting w =
    guarded-After side (ready side c s.signals) _ (taken-Ended side c s.signals s.calls w)
select-After side c s leaving w = tt
select-After side c s awaiting w = tt
select-After side c s joining w = tt
select-After side c s returned w = tt

close-After :
    (side : Side) (s : State) (p : Phase)
    → Wound side p s.signals s.calls
    → After side (on_close_interceptors s p)
unfolding on_close_interceptors
close-After side s selecting w = tt
close-After side s leaving w = (s.calls, w, refl)
close-After side s awaiting w = tt
close-After side s joining w = tt
close-After side s returned w = tt

eos-After :
    (side : Side) (s : State) (p : Phase) → Wound side p s.signals s.calls → After side (on_eos s p)
unfolding on_eos
eos-After side s selecting w = tt
eos-After side s leaving w = tt
eos-After side s awaiting (first, ended, e) =
    guarded-After side s.signals.is_eos _ (λ h. (first, [], ended, inl (refl, h), e))
eos-After side s joining w = tt
eos-After side s returned w = tt

timeout-After :
    (side : Side) (s : State) (p : Phase)
    → Wound side p s.signals s.calls
    → After side (on_timeout s p)
unfolding on_timeout
timeout-After side s selecting w = tt
timeout-After side s leaving w = tt
timeout-After side s awaiting (first, ended, e) = (
  first,
  note_timeout ∷ [],
  ended,
  inr refl,
  ap (λ cs. cs ++ (note_timeout ∷ [])) e
      ∙ append_assoc first (close_interceptors ∷ []) (note_timeout ∷ []),
)
timeout-After side s joining w = tt
timeout-After side s returned w = tt

join-After :
    (side : Side) (s : State) (p : Phase)
    → Wound side p s.signals s.calls
    → After side (on_join s p)
unfolding on_join
join-After side s selecting w = tt
join-After side s leaving w = tt
join-After side s joining w = guarded-After side (leb s.busy 0) _ (λ h. w)
join-After side s awaiting w = tt
join-After side s returned w = tt

worker-After : (side : Side) (s : State) → WoundState side s → After side (on_worker s)
unfolding on_worker
worker-After side s w = elim (Bool-cases (leb s.busy 0)) [
  | inl h ↦ rw (h, on_worker) tt
  | inr h ↦ rw (h, on_worker) w
]

-- Signals that are only added keep what is wound up.
signal-After :
    (side : Side) (s : State) (sig : Signals)
    → Later s.signals sig
    → WoundState side s
    → WoundState side (record s { signals = sig })
signal-After side s sig h w = Wound-Later side s.phase s.signals sig s.calls h w

step-After :
    (side : Side) (e : Event) (s : State) → WoundState side s → AfterRun side (step side e s)
unfolding step close_eos close
step-After side eos_handler s w = elim (Bool-cases s.signals.is_eos) [
  | inl h ↦ rw h tt
  | inr h ↦ rw h (signal-After side s _ (λ _. refl) w)
]
step-After side closes s w = elim (Bool-cases s.signals.is_closed) [
  | inl h ↦ rw h tt
  | inr h ↦ rw h (signal-After side s _ (λ at_end. at_end) w)
]
step-After side fails s w = signal-After side s _ (λ at_end. at_end) w
step-After side (selects c) s w = select-After side c s s.phase w
step-After side closes_interceptors s w = close-After side s s.phase w
step-After side worker_leaves s w = worker-After side s w
step-After side joins s w = join-After side s s.phase w
step-After side sees_eos s w = eos-After side s s.phase w
step-After side times_out s w = timeout-After side s s.phase w

-- Whatever happens, and in every reachable state, of the sender as of the receiver: until the first select is left,
-- nothing is called. Then the pipeline was stopped, exactly once, or it is the sender's and had come to its end; the interceptors
-- are closed once, after that; and when the function returns, the end of the stream has come, or the three seconds were waited for.
pub Reachable-Wound : {side : Side} {s : State} → Reachable side s → WoundState side s
Reachable-Wound (fresh busy) = refl
Reachable-Wound {side} (later {s = s} e r h) =
    subst (AfterRun side) h (step-After side e s (Reachable-Wound r))
