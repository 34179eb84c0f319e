-- ===== src/Scream/Sender/Alive/Steps.antt =====
-- internal/scream/sender_interceptor.go: a stretch of a goroutine does not panic.
use rtq_go_endpoint.Common.{
  All-mono, ℕ, ◌-◌, ◌<◌, refl, Bool, true, false, Option, none, some, [], ◌∷◌, ◌++◌, length,
  length-set, get_elem?_of_lt, set, All, All-set, Run, returns, panics, out_of_fuel, leb,
  if◌then◌else◌,
}
use rtq_go_endpoint.External.{Rtp, Float64}
use rtq_go_endpoint.Scream.RtpQueue.{Queue, dequeue, size_of_queue}
use rtq_go_endpoint.Scream.Sender.{
  ScreamTx, written, is_ok_to_transmit, LocalStream, State, Pc, starting, selecting, checking,
  asking, dequeuing, accounting, finished, call_tx, get_time_ntp,
}
use rtq_go_endpoint.Scream.Sender.Loop.{
  Case, new_feedback, closing, default, advance, goto, on_select, on_dequeue, with_stream,
}
use rtq_go_endpoint.Scream.Sender.Alive.{Stands, Same, Same-refl, call_tx-Same, Stands-same}

module _ (rtp : Rtp) (fl : Float64) (stx : ScreamTx rtp fl) where
  open rtp use {Packet}

  abbrev pub S : Type 0
  S = State rtp fl stx

  abbrev pub Alive : S → Type 0
  Alive s = All (Stands rtp fl stx s) s.workers

  -- The run gives a state, in which all goroutines stand, or cannot happen yet.
  abbrev pub Fine : Run (Option S) → Type 0
  Fine (returns none) = Unit
  Fine (returns (some t)) = Alive t
  Fine (panics e) = ⊥
  Fine out_of_fuel = ⊥

  pub Same-Alive : {s t : S} → Same rtp fl stx s t → Alive s → Alive t
  Same-Alive {s} {t} m alive = rw m.workers (
      All-mono (Stands rtp fl stx s) (Stands rtp fl stx t)
        (Stands-same rtp fl stx s t m.streams m.heap) s.workers alive)

  goto-Fine :
      (w : ℕ) (pc : Pc rtp fl stx) {s t : S}
      → Same rtp fl stx s t
      → Alive s
      → Stands rtp fl stx t pc
      → Fine (goto rtp fl stx w pc t)
  goto-Fine w pc {s} {t} m alive here =
      let moved : S = record t { workers = set t.workers w pc } in
      All-mono (Stands rtp fl stx t) (Stands rtp fl stx moved)
        (Stands-same rtp fl stx t moved refl refl) (set t.workers w pc)
        (All-set (Stands rtp fl stx t) t.workers w pc (Same-Alive m alive) here)

  -- The goroutine finds its stream.
  found-Fine :
      (ptr : ℕ) (s : S) (f : LocalStream rtp fl stx → Run (Option S))
      → ptr < length s.heap
      → ((ls : LocalStream rtp fl stx) → Fine (f ls))
      → Fine (with_stream rtp fl stx ptr s f)
  unfolding with_stream
  found-Fine ptr s f lt k =
      let (ls, e) = get_elem?_of_lt s.heap ptr lt in rw (with_stream, e) (k ls)

  if-Fine : (b : Bool) (m n : Run (Option S)) → Fine m → Fine n → Fine (if b then m else n)
  if-Fine true m n h k = h
  if-Fine false m n h k = k

  stored :
      (ptr : ℕ) (ls : LocalStream rtp fl stx) (s : S)
      → Same rtp fl stx s (record s { heap = set s.heap ptr ls })
  stored ptr ls s = record { streams = refl; heap = length-set s.heap ptr ls; workers = refl }

  on_select-Fine :
      (w ptr : ℕ) (c : Case) (s : S) (ls : LocalStream rtp fl stx)
      → Alive s
      → ptr < length s.heap
      → Fine (on_select rtp fl stx w ptr c s ls)
  unfolding on_select
  on_select-Fine w ptr new_feedback s ls alive lt =
      let ls' : LocalStream rtp fl stx = record ls { waiting = ls.waiting - 1 } in
      let s' : S = record s { heap = set s.heap ptr ls' } in
      if-Fine (leb ls.waiting 0) (returns none) (goto rtp fl stx w (checking ptr) s') tt (
        goto-Fine w (checking ptr) {s = s} {t = s'} (stored ptr ls' s) alive
          (rw (length-set s.heap ptr ls') lt))
  on_select-Fine w ptr closing s ls alive lt =
      if-Fine s.is_closed (goto rtp fl stx w finished s) (returns none)
        (goto-Fine w finished (Same-refl rtp fl stx s) alive tt) tt
  on_select-Fine w ptr default s ls alive lt =
      let idle = if s.is_closed then returns none else goto rtp fl stx w (checking ptr) s in
      if-Fine (leb ls.waiting 0) idle (returns none)
        (if-Fine s.is_closed (returns none) (goto rtp fl stx w (checking ptr) s) tt
          (goto-Fine w (checking ptr) (Same-refl rtp fl stx s) alive lt))
        tt

  on_dequeue-Fine :
      (w ptr : ℕ) (s : S) (ls : LocalStream rtp fl stx) (o : Option Packet) (q : Queue rtp fl)
      → Alive s
      → ptr < length s.heap
      → Fine (on_dequeue rtp fl stx w ptr s ls (o, q))
  unfolding on_dequeue
  on_dequeue-Fine w ptr s ls none q alive lt =
      goto-Fine w (selecting ptr) (stored ptr _ s) alive
        (rw (length-set s.heap ptr (record ls { queue = q })) lt)
  on_dequeue-Fine w ptr s ls (some p) q alive lt =
      goto-Fine w (accounting ptr p) (stored ptr _ s) alive (
        rw (length-set s.heap ptr (record ls { queue = q; taken = ls.taken ++ (written p ∷ []) }))
          lt)

  pub advance-Fine :
      (w : ℕ) (c : Case) (now : ℕ) (s : S) (pc : Pc rtp fl stx)
      → Alive s
      → Stands rtp fl stx s pc
      → Fine (advance rtp fl stx w c now s pc)
  unfolding advance
  advance-Fine w c now s (starting ssrc) alive (ptr, e, lt) =
      rw (advance, e) (goto-Fine w (selecting ptr) (Same-refl rtp fl stx s) alive lt)
  advance-Fine w c now s (selecting ptr) alive lt =
      found-Fine ptr s _ lt (λ ls. on_select-Fine w ptr c s ls alive lt)
  advance-Fine w c now s (checking ptr) alive lt = found-Fine ptr s _ lt (λ ls.
      if-Fine (leb (size_of_queue rtp fl ls.queue) 0) (goto rtp fl stx w (selecting ptr) s)
        (goto rtp fl stx w (asking ptr) s)
        (goto-Fine w (selecting ptr) (Same-refl rtp fl stx s) alive lt)
        (goto-Fine w (asking ptr) (Same-refl rtp fl stx s) alive lt))
  advance-Fine w c now s (asking ptr) alive lt = found-Fine ptr s _ lt (λ ls.
      let call = is_ok_to_transmit (get_time_ntp rtp fl stx s now) ls.ssrc in
      let m = call_tx-Same rtp fl stx call s in
      let t : S = (call_tx rtp fl stx call s).1 in
      if-Fine (fl.is_minus_one (call_tx rtp fl stx call s).0) (goto rtp fl stx w (selecting ptr) t)
        (goto rtp fl stx w (dequeuing ptr) t)
        (goto-Fine w (selecting ptr) {t = t} m alive (rw m.heap lt))
        (goto-Fine w (dequeuing ptr) {t = t} m alive (rw m.heap lt)))
  advance-Fine w c now s (dequeuing ptr) alive lt = found-Fine ptr s _ lt (λ ls.
      on_dequeue-Fine w ptr s ls (dequeue rtp fl ls.queue).0 (dequeue rtp fl ls.queue).1 alive lt)
  advance-Fine w c now s (accounting ptr p) alive lt = found-Fine ptr s _ lt (λ ls.
      let m = call_tx-Same rtp fl stx _ s in goto-Fine w (selecting ptr) m alive (rw m.heap lt))
  advance-Fine w c now s finished alive here = tt
