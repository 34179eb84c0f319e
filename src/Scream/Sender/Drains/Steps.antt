-- ===== src/Scream/Sender/Drains/Steps.antt =====
-- internal/scream/sender_interceptor.go: from each place in `loop` the goroutine comes to its select again.
use rtq_go_endpoint.Common.{
  ℕ, suc, ◌-◌, ◌≤◌, ◌≡◌, refl, ap, true, false, inl, inr, Option, [], ◌∷◌, ◌++◌, length, List-cases,
  Bool-cases, Run, leb, arith,
}
use rtq_go_endpoint.External.{Rtp, Float64}
use rtq_go_endpoint.Scream.RtpQueue.{dequeue, dequeue_front, size_of_queue}
use rtq_go_endpoint.Scream.Sender.{
  ScreamTx, is_ok_to_transmit, add_transmitted, LocalStream, written, Pc, selecting, checking,
  asking, dequeuing, accounting, State, call_tx, get_time_ntp,
}
use rtq_go_endpoint.Scream.Sender.Loop.{
  Case, new_feedback, default, advance, on_select, on_dequeue, with_stream, go, step,
}
use rtq_go_endpoint.Scream.Sender.Drains.{
  Permits, At, goto-At, set-At, called, call-At, called-Less, Returns, after_step, returned,
  more_room,
}

module _ (rtp : Rtp) (fl : Float64) (stx : ScreamTx rtp fl) where
  open rtp use {Packet, marshal_size, sequence_number, marker}
  open fl use {is_minus_one}

  abbrev S : Type 0
  S = State rtp fl stx

  abbrev Ls : Type 0
  Ls = LocalStream rtp fl stx

  -- What a step is, where the goroutine and its stream are known.
  step-At :
      (w ptr now : ℕ) (c : Case) (s : S) (pc : Pc rtp fl stx) (ls : Ls) (o : Run (Option S))
      → At rtp fl stx w ptr s pc ls
      → advance rtp fl stx w c now s pc ≡ o
      → step rtp fl stx (go w c now) s ≡ o
  unfolding step
  step-At w ptr now c s pc ls o a h = rw (step, a.worker) h

  pub from_accounting :
      (w ptr k now : ℕ) (s : S) (ls : Ls) (p : Packet)
      → At rtp fl stx w ptr s (accounting ptr p) ls
      → length ls.queue.queue ≤ k
      → Returns rtp fl stx w ptr 1 k s ls
  unfolding advance with_stream
  from_accounting w ptr k now s ls p a fits =
      let c =
        add_transmitted (get_time_ntp rtp fl stx s now) ls.ssrc (marshal_size p) (sequence_number p)
          (marker p) in
      let less = called-Less rtp fl stx c s ls in
      after_step rtp fl stx w ptr 0 k now default s _ ls (called rtp fl stx c s ls)
        (step-At w ptr now default s (accounting ptr p) ls _ a
          (rw (advance, with_stream, a.stream) refl))
        less.enqueued
        (returned rtp fl stx w ptr k _ (called rtp fl stx c s ls)
          (goto-At rtp fl stx w ptr _ (accounting ptr p) (selecting ptr) _
            (call-At rtp fl stx w ptr s (accounting ptr p) ls c a))
          (omega (arith, less.fewer, fits)))

  pub from_dequeuing :
      (w ptr k now : ℕ) (s : S) (ls : Ls)
      → At rtp fl stx w ptr s (dequeuing ptr) ls
      → length ls.queue.queue ≤ suc k
      → Returns rtp fl stx w ptr 2 k s ls
  unfolding advance with_stream on_dequeue dequeue dequeue_front
  from_dequeuing w ptr k now s ls a fits = elim (List-cases ls.queue.queue) [
    | inl e ↦
        let ls' : Ls = record ls {
          queue = record { bytes_in_queue = ls.queue.bytes_in_queue; queue = [] };
        } in
        more_room rtp fl stx w ptr 1 2 k k s ls (omega arith) (omega arith) (
          after_step rtp fl stx w ptr 0 k now default s _ ls ls'
            (step-At w ptr now default s (dequeuing ptr) ls _ a
              (rw (advance, with_stream, a.stream) (rw (on_dequeue, e) refl)))
            refl
            (returned rtp fl stx w ptr k _ ls'
              (goto-At rtp fl stx w ptr _ (dequeuing ptr) (selecting ptr) ls'
                (set-At rtp fl stx w ptr s (dequeuing ptr) ls ls' a))
              (omega arith)))
    | inr (front, rest, e) ↦
        let ls' : Ls = record ls {
          queue = (dequeue_front rtp fl ls.queue.bytes_in_queue (front ∷ rest)).1;
          taken = ls.taken ++ (written front.packet ∷ []);
        } in
        after_step rtp fl stx w ptr 1 k now default s _ ls ls'
          (step-At w ptr now default s (dequeuing ptr) ls _ a
            (rw (advance, with_stream, a.stream) (rw (on_dequeue, e) refl)))
          refl
          (from_accounting w ptr k now _ ls' front.packet
            (goto-At rtp fl stx w ptr _ (dequeuing ptr) (accounting ptr front.packet) ls'
              (set-At rtp fl stx w ptr s (dequeuing ptr) ls ls' a))
            (let longer : length ls.queue.queue ≡ suc (length rest) = ap length e in
              omega (arith, longer, fits)))
  ]

  module _ (permits : Permits rtp fl stx) where
    pub from_asking :
        (w ptr k now : ℕ) (s : S) (ls : Ls)
        → At rtp fl stx w ptr s (asking ptr) ls
        → length ls.queue.queue ≤ suc k
        → Returns rtp fl stx w ptr 3 k s ls
    unfolding advance with_stream call_tx
    from_asking w ptr k now s ls a fits =
        let c = is_ok_to_transmit (get_time_ntp rtp fl stx s now) ls.ssrc in
        let less = called-Less rtp fl stx c s ls in
        let ok : is_minus_one (call_tx rtp fl stx c s).0 ≡ false = permits _ ls.ssrc _ s.tx in
        after_step rtp fl stx w ptr 2 k now default s _ ls (called rtp fl stx c s ls)
          (step-At w ptr now default s (asking ptr) ls _ a
            (rw (advance, with_stream, a.stream) (rw ok refl)))
          less.enqueued
          (from_dequeuing w ptr k now _ (called rtp fl stx c s ls)
            (goto-At rtp fl stx w ptr _ (asking ptr) (dequeuing ptr) _
              (call-At rtp fl stx w ptr s (asking ptr) ls c a))
            (omega (arith, less.fewer, fits)))

    pub from_checking :
        (w ptr k now : ℕ) (s : S) (ls : Ls)
        → At rtp fl stx w ptr s (checking ptr) ls
        → length ls.queue.queue ≤ suc k
        → Returns rtp fl stx w ptr 4 k s ls
    unfolding advance with_stream size_of_queue
    from_checking w ptr k now s ls a fits = elim (List-cases ls.queue.queue) [
      | inl e ↦
          let none_waits : leb (length ls.queue.queue) 0 ≡ true = rw e refl in
          let few : length ls.queue.queue ≤ 0 = rw e (omega arith) in
          more_room rtp fl stx w ptr 1 4 k k s ls (omega arith) (omega arith) (
            after_step rtp fl stx w ptr 0 k now default s _ ls ls
              (step-At w ptr now default s (checking ptr) ls _ a
                (rw (advance, with_stream, a.stream) (rw none_waits refl)))
              refl
              (returned rtp fl stx w ptr k _ ls
                (goto-At rtp fl stx w ptr s (checking ptr) (selecting ptr) ls a)
                (omega (arith, few))))
      | inr (front, rest, e) ↦
          let some_wait : leb (length ls.queue.queue) 0 ≡ false = rw e (ground arith) in
          after_step rtp fl stx w ptr 3 k now default s _ ls ls
            (step-At w ptr now default s (checking ptr) ls _ a
              (rw (advance, with_stream, a.stream) (rw some_wait refl)))
            refl
            (from_asking w ptr k now _ ls
              (goto-At rtp fl stx w ptr s (checking ptr) (asking ptr) ls a) fits)
    ]

    pub from_selecting :
        (w ptr k now : ℕ) (s : S) (ls : Ls)
        → At rtp fl stx w ptr s (selecting ptr) ls
        → length ls.queue.queue ≤ suc k
        → Returns rtp fl stx w ptr 5 k s ls
    unfolding advance with_stream on_select
    from_selecting w ptr k now s ls a fits = elim (Bool-cases (leb ls.waiting 0)) [
      | inl e ↦
          after_step rtp fl stx w ptr 4 k now default s _ ls ls
            (step-At w ptr now default s (selecting ptr) ls _ a (
              rw (advance, with_stream, a.stream)
                (rw (e, on_select) (rw (a.is_open, on_select) refl))))
            refl
            (from_checking w ptr k now _ ls
              (goto-At rtp fl stx w ptr s (selecting ptr) (checking ptr) ls a) fits)
      | inr e ↦
          let ls' : Ls = record ls { waiting = ls.waiting - 1 } in
          after_step rtp fl stx w ptr 4 k now new_feedback s _ ls ls'
            (step-At w ptr now new_feedback s (selecting ptr) ls _ a
              (rw (advance, with_stream, a.stream) (rw (e, on_select) refl)))
            refl
            (from_checking w ptr k now _ ls'
              (goto-At rtp fl stx w ptr _ (selecting ptr) (checking ptr) ls'
                (set-At rtp fl stx w ptr s (selecting ptr) ls ls' a))
              fits)
    ]
