-- ===== src/Scream/Sender/Drains/Emptied.antt =====
-- internal/scream/sender_interceptor.go: the whole queue of a stream is emptied.
use rtq_go_endpoint.Common.{
  ℕ, zero, suc, ◌+◌, ◌*◌, ◌≤◌, ◌≡◌, ◌∙◌, refl, sym, subst, ap, false, some, List, [], ◌∷◌, ◌++◌,
  All, map, append-nil, length, get_elem?, arith,
}
use rtq_go_endpoint.External.{Rtp, Float64}
use rtq_go_endpoint.Scream.RtpQueue.{RtpQueueItem}
use rtq_go_endpoint.Scream.Sender.{
  ScreamTx, LocalStream, Pc, selecting, checking, asking, dequeuing, accounting, finished, starting,
  State,
}
use rtq_go_endpoint.Scream.Sender.Loop.{Reachable}
use rtq_go_endpoint.Scream.Sender.Queues.{packets}
use rtq_go_endpoint.Scream.Sender.Queues.Reach.{streams_in_order}
use rtq_go_endpoint.Scream.Sender.Drains.{
  Permits, Goes, Goes-Reachable, At, Returns, returned, more_room, followed,
}
use rtq_go_endpoint.Scream.Sender.Drains.Steps.{
  from_checking, from_asking, from_dequeuing, from_accounting, from_selecting,
}

nothing_left : {A : Type 0} (xs : List A) → length xs ≤ 0 → xs ≡ []
nothing_left [] h = refl
nothing_left (x ∷ xs) h = absurd (omega (arith, h))

module _ (rtp : Rtp) (fl : Float64) (stx : ScreamTx rtp fl) where
  open rtp use {Packet, marshal_size, sequence_number, marker}
  open fl use {is_minus_one}

  abbrev S : Type 0
  S = State rtp fl stx

  abbrev Ls : Type 0
  Ls = LocalStream rtp fl stx

  module _ (permits : Permits rtp fl stx) where
    -- From one select to another, until the queue is empty.
    drain :
        (w ptr now k : ℕ) (s : S) (ls : Ls)
        → At rtp fl stx w ptr s (selecting ptr) ls
        → length ls.queue.queue ≤ k
        → Returns rtp fl stx w ptr (5 * k) 0 s ls
    drain w ptr now zero s ls a fits =
        more_room rtp fl stx w ptr 0 0 0 0 s ls (omega arith) (omega arith)
          (returned rtp fl stx w ptr 0 s ls a fits)
    drain w ptr now (suc k) s ls a fits =
        let r = from_selecting rtp fl stx permits w ptr k now s ls a fits in
        followed rtp fl stx w ptr 5 (5 * k) (5 * suc k) k s ls (omega arith) r
          (drain w ptr now k r.last r.stream r.at r.left)

    -- Where a goroutine stands that serves the stream at `ptr`.
    abbrev pub Serves : ℕ → Pc rtp fl stx → Type 0
    Serves ptr (starting ssrc) = ⊥
    Serves ptr (selecting p) = p ≡ ptr
    Serves ptr (checking p) = p ≡ ptr
    Serves ptr (asking p) = p ≡ ptr
    Serves ptr (dequeuing p) = p ≡ ptr
    Serves ptr (accounting p packet) = p ≡ ptr
    Serves ptr finished = ⊥

    moved :
        {w p ptr : ℕ} {s : S} {ls : Ls} {pc : Pc rtp fl stx}
        → p ≡ ptr
        → At rtp fl stx w ptr s pc ls
        → At rtp fl stx w p s pc ls
    moved {w} {s = s} {ls} {pc} h a = subst (λ q. At rtp fl stx w q s pc ls) (sym h) a

    to_select :
        (w ptr now : ℕ) (s : S) (ls : Ls) (pc : Pc rtp fl stx)
        → Serves ptr pc
        → At rtp fl stx w ptr s pc ls
        → Returns rtp fl stx w ptr 4 (length ls.queue.queue) s ls
    to_select w ptr now s ls (starting ssrc) h a = absurd h
    to_select w ptr now s ls (selecting p) h a =
        subst (λ q. Returns rtp fl stx w q 4 (length ls.queue.queue) s ls) h
          (more_room rtp fl stx w p 0 4 _ _ s ls (omega arith) (omega arith)
            (returned rtp fl stx w p (length ls.queue.queue) s ls (moved h a) (omega arith)))
    to_select w ptr now s ls (checking p) h a =
        subst (λ q. Returns rtp fl stx w q 4 (length ls.queue.queue) s ls) h
          (more_room rtp fl stx w p 4 4 _ _ s ls (omega arith) (omega arith) (
            from_checking rtp fl stx permits w p (length ls.queue.queue) now s ls (moved h a)
              (omega arith)))
    to_select w ptr now s ls (asking p) h a =
        subst (λ q. Returns rtp fl stx w q 4 (length ls.queue.queue) s ls) h
          (more_room rtp fl stx w p 3 4 _ _ s ls (omega arith) (omega arith) (
            from_asking rtp fl stx permits w p (length ls.queue.queue) now s ls (moved h a)
              (omega arith)))
    to_select w ptr now s ls (dequeuing p) h a =
        subst (λ q. Returns rtp fl stx w q 4 (length ls.queue.queue) s ls) h
          (more_room rtp fl stx w p 2 4 _ _ s ls (omega arith) (omega arith) (
            from_dequeuing rtp fl stx w p (length ls.queue.queue) now s ls (moved h a)
              (omega arith)))
    to_select w ptr now s ls (accounting p packet) h a =
        subst (λ q. Returns rtp fl stx w q 4 (length ls.queue.queue) s ls) h
          (more_room rtp fl stx w p 1 4 _ _ s ls (omega arith) (omega arith) (
            from_accounting rtp fl stx w p (length ls.queue.queue) now s ls packet (moved h a)
              (omega arith)))
    to_select w ptr now s ls finished h a = absurd h

    -- Nobody is about to send on the `newFeedback` of any stream. Where somebody is, the reader of RTCP packets may hold
    -- `rtpStreamsMu`, and a `BindLocalStream` that waits for it holds `m`, for which the goroutine then waits.
    abbrev pub Quiet : S → Type 0
    Quiet s = All (λ (ls : Ls). ls.waiting ≡ 0) s.heap

    -- SCReAM lets every packet go, the interceptor is open, the goroutine of a stream stands anywhere in its loop, and
    -- nobody is about to send on a `newFeedback`, so that no one keeps a lock. If from here on only this
    -- goroutine runs, and the writes that it makes return, then there is a number of its steps, at most five
    -- for each packet that waits and four more, after which the queue is empty: all that was ever put into
    -- it was written or cleared by SCReAM, in the order in which it was put in.
    pub queue_drains :
        {s : S}
        → Reachable rtp fl stx s
        → (w ptr : ℕ) (pc : Pc rtp fl stx) (ls : Ls) → get_elem? s.workers w ≡ some pc
        → Serves ptr pc
        → get_elem? s.heap ptr ≡ some ls
        → s.is_closed ≡ false
        → Quiet s
        → (n : ℕ) × (t : S) × (ls' : Ls) × Goes rtp fl stx w n s t
          × (n ≤ 5 * length ls.queue.queue + 4)
          × (get_elem? t.heap ptr ≡ some ls')
          × (ls'.queue.queue ≡ [])
          × (packets rtp fl stx ls'.taken ≡ ls.enqueued)
    queue_drains {s} reach w ptr pc ls worker serves stream is_open quiet =
        let a : At rtp fl stx w ptr s pc ls = record {
          worker = worker;
          stream = stream;
          is_open = is_open;
        } in
        let first = to_select w ptr 0 s ls pc serves a in
        let k = length ls.queue.queue in
        let r =
          followed rtp fl stx w ptr 4 (5 * k) (5 * k + 4) k s ls (omega arith) first
            (drain w ptr 0 k first.last first.stream first.at first.left) in
        let empty : r.stream.queue.queue ≡ [] = nothing_left r.stream.queue.queue r.left in
        let (in_order, _) =
          streams_in_order rtp fl stx (Goes-Reachable rtp fl stx r.goes reach) ptr r.stream
            r.at.stream in
        (
          r.steps,
          r.last,
          r.stream,
          r.goes,
          r.few,
          r.at.stream,
          empty,
          sym (append-nil _)
              ∙ (ap
                    (λ items.
                      packets rtp fl stx r.stream.taken
                      ++ map (λ (i : RtpQueueItem rtp fl). i.packet) items)
                    (sym empty)
                  ∙ (sym in_order ∙ r.enqueued)),
        )
