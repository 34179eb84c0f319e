-- ===== src/Rtc/Ending.antt =====
-- rtc/sender.go and rtc/receiver.go: how `Start` and `Receive` end, from the select after the start of the
-- pipeline to the return, with the callback that GStreamer makes at the end of the stream, the calls of
-- `Close`, and the goroutines that wait to send an error: that of `AcceptFeedback` in the sender, the one that
-- reads the connection in the receiver. `i.Close()` waits until the goroutines of the interceptors have left: `busy` is the number of those
-- that still run. When each leaves is up to it.
pub mod Wound
pub mod Idle
pub mod Closing
mod Tests
use rtq_go_endpoint.Common.{
  ℕ, ◌+◌, ◌-◌, Bool, true, false, ◌&&◌, not, Option, none, some, List, [], ◌∷◌, ◌++◌, Run, returns,
  panics, ◌≡◌, close_of_closed, leb, if◌then◌else◌,
}

-- The cases of the first select: `eosC`, `errC`, the channel of the goroutine's errors, `closeC`.
pub data Case : Type 0 where
  eos writer_error goroutine_error closing : Case

pub data Side : Type 0 where
  sender receiver : Side

pub record Signals : Type 0 where
  pub is_eos : Bool
  pub is_closed : Bool
  pub errors_waiting : ℕ

-- Which case can be taken. Nothing is ever sent on `errC`.
unfoldable pub sender_ready : Case → Signals → Bool
sender_ready eos s = s.is_eos
sender_ready writer_error s = false
sender_ready goroutine_error s = not (leb s.errors_waiting 0)
sender_ready closing s = s.is_closed

-- The select of `Receive` has two cases.
unfoldable pub receiver_ready : Case → Signals → Bool
receiver_ready eos s = false
receiver_ready writer_error s = false
receiver_ready goroutine_error s = not (leb s.errors_waiting 0)
receiver_ready closing s = s.is_closed

unfoldable pub ready : Side → Case → Signals → Bool
unfolding sender_ready receiver_ready
ready sender c s = sender_ready c s
ready receiver c s = receiver_ready c s

-- Whether the case calls `pipeline.Stop()`.
unfoldable pub stops : Case → Bool
stops eos = false
stops writer_error = true
stops goroutine_error = true
stops closing = true

-- The error that is taken.
unfoldable pub take : Case → Signals → Signals
take eos s = s
take writer_error s = s
take goroutine_error s = record s { errors_waiting = s.errors_waiting - 1 }
take closing s = s

pub data Phase : Type 0 where
  selecting : Phase  -- at the first select
  leaving : Phase  -- before `i.Close()`
  joining : Phase  -- in `i.Close()`
  awaiting : Phase  -- at the select of `eosC` and three seconds
  returned : Phase

pub data Call : Type 0 where
  stop_pipeline close_interceptors note_timeout : Call

pub record State : Type 0 where
  pub signals : Signals
  pub phase : Phase
  pub calls : List Call  -- in the order in which they were made
  pub busy : ℕ

abbrev pub started : ℕ → State
started busy = record {
  signals = record { is_eos = false; is_closed = false; errors_waiting = 0 };
  phase = selecting;
  calls = [];
  busy = busy;
}

pub data Event : Type 0 where
  eos_handler : Event  -- GStreamer calls `func() { close(eosC) }`
  closes : Event  -- `Close`
  fails : Event  -- a goroutine comes to the send of an error
  selects : Case → Event
  closes_interceptors : Event
  worker_leaves : Event  -- a goroutine of an interceptor ends
  joins : Event  -- `i.Close()` returns
  sees_eos : Event
  times_out : Event

-- A step that is not possible in this state gives `none`.
unfoldable pub on_select : Side → Case → State → Phase → Option State
on_select side c s selecting =
    if ready side c s.signals
    then some (record s {
      signals = take c s.signals;
      phase = leaving;
      calls = if stops c then s.calls ++ (stop_pipeline ∷ []) else s.calls;
    })
    else none
on_select side c s leaving = none
on_select side c s awaiting = none
on_select side c s joining = none
on_select side c s returned = none

unfoldable pub on_close_interceptors : State → Phase → Option State
on_close_interceptors s leaving =
    some (record s { phase = joining; calls = s.calls ++ (close_interceptors ∷ []) })
on_close_interceptors s selecting = none
on_close_interceptors s awaiting = none
on_close_interceptors s joining = none
on_close_interceptors s returned = none

unfoldable pub on_join : State → Phase → Option State
on_join s joining = if leb s.busy 0 then some (record s { phase = awaiting }) else none
on_join s selecting = none
on_join s leaving = none
on_join s awaiting = none
on_join s returned = none

unfoldable pub on_eos : State → Phase → Option State
on_eos s awaiting = if s.signals.is_eos then some (record s { phase = returned }) else none
on_eos s selecting = none
on_eos s leaving = none
on_eos s joining = none
on_eos s returned = none

unfoldable pub on_timeout : State → Phase → Option State
on_timeout s awaiting = some (record s { phase = returned; calls = s.calls ++ (note_timeout ∷ []) })
on_timeout s selecting = none
on_timeout s leaving = none
on_timeout s joining = none
on_timeout s returned = none

unfoldable pub on_worker : State → Option State
on_worker s = if leb s.busy 0 then none else some (record s { busy = s.busy - 1 })

-- `close(…)` of one of the two channels
unfoldable pub close_eos : State → Run (Option State)
close_eos s =
    if s.signals.is_eos
    then panics close_of_closed
    else returns (some (record s { signals = record (s.signals) { is_eos = true } }))

unfoldable pub close : State → Run (Option State)
close s =
    if s.signals.is_closed
    then panics close_of_closed
    else returns (some (record s { signals = record (s.signals) { is_closed = true } }))

unfoldable pub step : Side → Event → State → Run (Option State)
unfolding on_select on_close_interceptors on_join on_eos on_timeout on_worker close_eos close
step side eos_handler s = close_eos s
step side closes s = close s
step side fails s = returns (
    some
      (record s { signals = record (s.signals) { errors_waiting = s.signals.errors_waiting + 1 } }))
step side (selects c) s = returns (on_select side c s s.phase)
step side closes_interceptors s = returns (on_close_interceptors s s.phase)
step side worker_leaves s = returns (on_worker s)
step side joins s = returns (on_join s s.phase)
step side sees_eos s = returns (on_eos s s.phase)
step side times_out s = returns (on_timeout s s.phase)

pub data Reachable (side : Side) : State → Type 0 where
  fresh : (busy : ℕ) → Reachable side (started busy)
  later :
      {s t : State} (e : Event)
      → Reachable side s
      → step side e s ≡ returns (some t)
      → Reachable side t
