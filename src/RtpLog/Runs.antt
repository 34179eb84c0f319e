-- ===== src/RtpLog/Runs.antt =====
-- internal/utils/rtp_log_interceptor.go: how a property of the steps becomes one of the runs.
use rtq_go_endpoint.Common.{List, ◌∷◌, ◌≡◌, subst}
use rtq_go_endpoint.RtpLog.{State, Event, Outcome, blocked, panicked, goes, step, run}

-- `P` holds in the state that is reached, if one is.
abbrev pub After : (State → Type 0) → Outcome → Type 0
After P blocked = Unit
After P panicked = Unit
After P (goes s) = P s

pub After-mono :
    {P Q : State → Type 0} (o : Outcome) → ((s : State) → P s → Q s) → After P o → After Q o
After-mono blocked imp _ = tt
After-mono panicked imp _ = tt
After-mono (goes s) imp h = imp s h

pub run-step :
    (P Q : State → Type 0) (e : Event) (es : List Event) (s : State)
    → After P (step e s)
    → ((s' : State) → P s' → After Q (run es s'))
    → After Q (run (e ∷ es) s)
unfolding run
run-step P Q e es s first rest =
    elim (step e s)
        as (λ o.
          After P o
          → After Q (elim o [ blocked ↦ blocked | panicked ↦ panicked | goes s' ↦ run es s' ])) [
            | blocked ↦ λ _. tt
            | panicked ↦ λ _. tt
            | goes s' ↦ λ h. rest s' h
          ]
      first

-- What holds after a run holds in the state that it is said to reach.
pub reached : (P : State → Type 0) (o : Outcome) (s : State) → o ≡ goes s → After P o → P s
reached P o s e h = subst (After P) e h
