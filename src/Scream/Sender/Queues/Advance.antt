-- ===== src/Scream/Sender/Queues/Advance.antt =====
-- internal/scream/sender_interceptor.go: a stretch of the goroutine keeps what the streams keep.
use rtq_go_endpoint.Common.{
  ℕ, ◌≡◌, ◌∙◌, ap, sym, subst, Bool, true, false, inl, inr, Option, none, some, List, [], ◌∷◌, ◌++◌,
  map, map-append, append_assoc, get_elem?, All-get_elem?, Run, returns, panics, out_of_fuel,
  lookup, Option-cases, List-cases, leb, if◌then◌else◌,
}
use rtq_go_endpoint.External.{Rtp, Float64}
use rtq_go_endpoint.Scream.RtpQueue.{RtpQueueItem, dequeue, dequeue_front, size_of_queue}
use rtq_go_endpoint.Scream.RtpQueue.Refine.{dequeue-IsValid, IsValid}
use rtq_go_endpoint.Scream.Sender.{
  ScreamTx, is_ok_to_transmit, LocalStream, State, Pc, starting, selecting, checking, asking,
  dequeuing, accounting, finished, call_tx, get_time_ntp,
}
use rtq_go_endpoint.Scream.Sender.Loop.{
  Case, new_feedback, closing, default, advance, goto, on_select, on_dequeue, with_stream,
}
use rtq_go_endpoint.Scream.Sender.Queues.{Sound, Inv, packets, call_tx-Inv, set-Inv}

-- `P` of the state that a run gives, when it gives one.
abbrev pub Gives : {A : Type 0} → (A → Type 0) → Run A → Type 0
Gives P (returns a) = P a
Gives P (panics e) = Unit
Gives P out_of_fuel = Unit

abbrev pub Holds : {A : Type 0} → (A → Type 0) → Option A → Type 0
Holds P none = Unit
Holds P (some a) = P a

module _ (rtp : Rtp) (fl : Float64) (stx : ScreamTx rtp fl) where
  open rtp use {Packet}

  abbrev pub Good : State rtp fl stx → Type 0
  Good s = Inv rtp fl stx s

  goto-Inv :
      (w : ℕ) (pc : Pc rtp fl stx) {s : State rtp fl stx}
      → Good s
      → Gives (Holds Good) (goto rtp fl stx w pc s)
  goto-Inv w pc inv = record { sound = inv.sound; mapped = inv.mapped }

  with_stream-Inv :
      (ptr : ℕ) {s : State rtp fl stx}
      (f : LocalStream rtp fl stx → Run (Option (State rtp fl stx)))
      → Good s
      → ((ls : LocalStream rtp fl stx) → Sound rtp fl stx ls → Gives (Holds Good) (f ls))
      → Gives (Holds Good) (with_stream rtp fl stx ptr s f)
  unfolding with_stream
  with_stream-Inv ptr {s} f inv k = elim (Option-cases (get_elem? s.heap ptr)) [
    | inl e ↦ rw (with_stream, e) tt
    | inr (ls, e) ↦
        rw (with_stream, e) (k ls (All-get_elem? (Sound rtp fl stx) s.heap ptr inv.sound e))
  ]

  -- A branch of an `if`: each arm gives a state that keeps the invariant.
  if-Inv :
      (b : Bool) (m n : Run (Option (State rtp fl stx)))
      → Gives (Holds Good) m
      → Gives (Holds Good) n
      → Gives (Holds Good) (if b then m else n)
  if-Inv true m n h k = h
  if-Inv false m n h k = k

  on_select-Inv :
      (w ptr : ℕ) (c : Case) {s : State rtp fl stx} (ls : LocalStream rtp fl stx)
      → Good s
      → Sound rtp fl stx ls
      → Gives (Holds Good) (on_select rtp fl stx w ptr c s ls)
  unfolding on_select
  on_select-Inv w ptr new_feedback ls inv h = if-Inv (leb ls.waiting 0) _ _ tt (
      goto-Inv w _ (
        set-Inv rtp fl stx ptr _ inv
          (record { close_nil = h.close_nil; counted = h.counted; in_order = h.in_order })))
  on_select-Inv w ptr closing {s} ls inv h = if-Inv s.is_closed _ _ (goto-Inv w _ inv) tt
  on_select-Inv w ptr default {s} ls inv h =
      if-Inv (leb ls.waiting 0) _ _ (if-Inv s.is_closed _ _ tt (goto-Inv w _ inv)) tt

  on_dequeue-Inv :
      (w ptr : ℕ) {s : State rtp fl stx} (ls : LocalStream rtp fl stx)
      → Good s
      → Sound rtp fl stx ls
      → Gives (Holds Good) (on_dequeue rtp fl stx w ptr s ls (dequeue rtp fl ls.queue))
  unfolding on_dequeue dequeue
  on_dequeue-Inv w ptr {s} ls inv h = elim (List-cases ls.queue.queue) [
    | inl e ↦
        rw (on_dequeue, dequeue, e)
          (goto-Inv w (selecting ptr) (
            set-Inv rtp fl stx ptr _ inv (record {
              close_nil = h.close_nil;
              counted = left e;
              in_order =
                  h.in_order ∙ ap (λ is. packets rtp fl stx ls.taken ++ waiting_packets is) e;
            })))
    | inr (front, rest, e) ↦
        rw (on_dequeue, dequeue, e)
          (goto-Inv w (accounting ptr front.packet) (
            set-Inv rtp fl stx ptr _ inv (record {
              close_nil = h.close_nil;
              counted = left e;
              in_order =
                  h.in_order
                  ∙ ap (λ is. packets rtp fl stx ls.taken ++ waiting_packets is) e
                  ∙ sym (
                      ap (λ l. l ++ waiting_packets rest) (map-append _ ls.taken _)
                      ∙ append_assoc (packets rtp fl stx ls.taken) (front.packet ∷ [])
                          (waiting_packets rest));
            })))
  ]
    where
      waiting_packets : List (RtpQueueItem rtp fl) → List Packet
      waiting_packets is = map (λ i. i.packet) is

      left :
          {is : List (RtpQueueItem rtp fl)}
          → ls.queue.queue ≡ is
          → IsValid rtp fl (dequeue_front rtp fl ls.queue.bytes_in_queue is).1
      left e =
          subst (λ l. IsValid rtp fl (dequeue_front rtp fl ls.queue.bytes_in_queue l).1) e
            (dequeue-IsValid rtp fl ls.queue h.counted)

  pub advance-Inv :
      (w : ℕ) (c : Case) (now : ℕ) {s : State rtp fl stx} (pc : Pc rtp fl stx)
      → Good s
      → Gives (Holds Good) (advance rtp fl stx w c now s pc)
  unfolding advance
  advance-Inv w c now {s} (starting ssrc) inv = elim (Option-cases (lookup ssrc s.rtp_streams)) [
    | inl e ↦ rw (advance, e) tt
    | inr (ptr, e) ↦ rw (advance, e) (goto-Inv w (selecting ptr) inv)
  ]
  advance-Inv w c now (selecting ptr) inv =
      with_stream-Inv ptr _ inv (λ ls h. on_select-Inv w ptr c ls inv h)
  advance-Inv w c now {s} (checking ptr) inv = with_stream-Inv ptr _ inv (λ ls h.
      if-Inv (leb (size_of_queue rtp fl ls.queue) 0) (goto rtp fl stx w (selecting ptr) s)
        (goto rtp fl stx w (asking ptr) s) (goto-Inv w (selecting ptr) inv)
        (goto-Inv w (asking ptr) inv))
  advance-Inv w c now {s} (asking ptr) inv = with_stream-Inv ptr _ inv (λ ls h.
      let c = is_ok_to_transmit (get_time_ntp rtp fl stx s now) ls.ssrc in
      let inv' = call_tx-Inv rtp fl stx c inv in
      if-Inv (fl.is_minus_one (call_tx rtp fl stx c s).0)
        (goto rtp fl stx w (selecting ptr) (call_tx rtp fl stx c s).1)
        (goto rtp fl stx w (dequeuing ptr) (call_tx rtp fl stx c s).1)
        (goto-Inv w (selecting ptr) inv') (goto-Inv w (dequeuing ptr) inv'))
  advance-Inv w c now (dequeuing ptr) inv =
      with_stream-Inv ptr _ inv (λ ls h. on_dequeue-Inv w ptr ls inv h)
  advance-Inv w c now {s} (accounting ptr p) inv =
      with_stream-Inv ptr _ inv (λ ls h. goto-Inv w _ (call_tx-Inv rtp fl stx _ inv))
  advance-Inv w c now finished inv = tt
