-- ===== src/Scream/Sender/Drains.antt =====
-- internal/scream/sender_interceptor.go: `loop` empties the queue of its stream as long as SCReAM permits.
-- The goroutine runs alone here: no packet comes in between.
pub mod Steps
pub mod Emptied
use native.Mathlib.Nat.{zero-add, suc-add}
use rtq_go_endpoint.Common.{
  ℕ, zero, suc, ◌+◌, ◌-◌, ◌*◌, ◌≤◌, ◌<◌, ◌≡◌, ◌∙◌, refl, sym, subst, ap, Bool, true, false, inl,
  inr, Option, none, some, List, [], ◌∷◌, ◌++◌, map, append-nil, length, List-cases, Bool-cases,
  Option-cases, get_elem?, set, get_elem?-set_self, get_elem?-map, Run, returns, elem, leb,
  if◌then◌else◌, arith,
}
use rtq_go_endpoint.External.{Rtp, Float64}
use rtq_go_endpoint.Scream.RtpQueue.{
  Queue, RtpQueueItem, dequeue, dequeue_front, size_of_queue, clear,
}
use rtq_go_endpoint.Scream.Sender.{
  ScreamTx, TxCall, is_ok_to_transmit, add_transmitted, LocalStream, written, cleared, Pc,
  selecting, checking, asking, dequeuing, accounting, finished, starting, State, call_tx,
  clear_stream, get_time_ntp, registered,
}
use rtq_go_endpoint.Scream.Sender.Loop.{
  Case, new_feedback, closing, default, advance, goto, on_select, on_dequeue, with_stream, go, step,
  Reachable, later,
}
use rtq_go_endpoint.Scream.Sender.Queues.{packets, queued}
use rtq_go_endpoint.Scream.Sender.Queues.Reach.{streams_in_order}

module _ (rtp : Rtp) (fl : Float64) (stx : ScreamTx rtp fl) where
  open rtp use {Packet, marshal_size, sequence_number, marker}
  open fl use {is_minus_one}

  abbrev pub S : Type 0
  S = State rtp fl stx

  abbrev pub Ls : Type 0
  Ls = LocalStream rtp fl stx

  -- SCReAM lets every packet go, whatever it was told before.
  abbrev pub Permits : Type 0
  Permits =
      (time ssrc : ℕ) (queues : List (ℕ × Queue rtp fl)) (tx : stx.Tx)
      → is_minus_one (stx.call (is_ok_to_transmit time ssrc) queues tx).0 ≡ false

  -- So many steps of the goroutine `w`, one after another.
  pub data Goes (w : ℕ) : ℕ → S → S → Type 0 where
    stays : {s : S} → Goes w 0 s s
    moves :
        {n : ℕ} {s t u : S} (c : Case) (now : ℕ)
        → step rtp fl stx (go w c now) s ≡ returns (some t)
        → Goes w n t u
        → Goes w (suc n) s u

  pub Goes-Reachable :
      {w n : ℕ} {s t : S} → Goes w n s t → Reachable rtp fl stx s → Reachable rtp fl stx t
  Goes-Reachable stays r = r
  Goes-Reachable (moves c now h more) r = Goes-Reachable more (later (go _ c now) r h)

  -- The goroutine `w` stands at `pc`, the stream at `ptr` is `ls`, and the interceptor is open.
  pub record At (w ptr : ℕ) (s : S) (pc : Pc rtp fl stx) (ls : Ls) : Type 0 where
    pub worker : get_elem? s.workers w ≡ some pc
    pub stream : get_elem? s.heap ptr ≡ some ls
    pub is_open : s.is_closed ≡ false

  pub goto-At :
      (w ptr : ℕ) (s : S) (pc pc' : Pc rtp fl stx) (ls : Ls)
      → At w ptr s pc ls
      → At w ptr (record s { workers = set s.workers w pc' }) pc' ls
  goto-At w ptr s pc pc' ls a = record {
    worker = get_elem?-set_self s.workers w pc' a.worker;
    stream = a.stream;
    is_open = a.is_open;
  }

  pub set-At :
      (w ptr : ℕ) (s : S) (pc : Pc rtp fl stx) (ls ls' : Ls)
      → At w ptr s pc ls
      → At w ptr (record s { heap = set s.heap ptr ls' }) pc ls'
  set-At w ptr s pc ls ls' a = record {
    worker = a.worker;
    stream = get_elem?-set_self s.heap ptr ls' a.stream;
    is_open = a.is_open;
  }

  -- The stream after a call of `Tx`: it may have been cleared.
  pub called : TxCall → S → Ls → Ls
  called c s ls =
      clear_stream rtp fl stx (stx.call c (map (registered rtp fl stx) s.heap) s.tx).1 ls

  pub call-At :
      (w ptr : ℕ) (s : S) (pc : Pc rtp fl stx) (ls : Ls) (c : TxCall)
      → At w ptr s pc ls
      → At w ptr (call_tx rtp fl stx c s).1 pc (called c s ls)
  unfolding call_tx called
  call-At w ptr s pc ls c a = record {
    worker = a.worker;
    stream = get_elem?-map (clear_stream rtp fl stx _) s.heap ptr a.stream;
    is_open = a.is_open;
  }

  -- It keeps what it was given, and no packet comes in.
  pub record Less (ls ls' : Ls) : Type 0 where
    pub enqueued : ls'.enqueued ≡ ls.enqueued
    pub fewer : length ls'.queue.queue ≤ length ls.queue.queue

  pub called-Less : (c : TxCall) (s : S) (ls : Ls) → Less ls (called c s ls)
  unfolding called clear
  called-Less c s ls =
      let ssrcs = (stx.call c (map (registered rtp fl stx) s.heap) s.tx).1 in
      elim (elem ls.ssrc ssrcs)
        as (λ b. Less ls (
          if b
          then record ls {
            queue = (clear rtp fl ls.queue).1;
            taken = ls.taken ++ map (λ i. cleared i.packet) ls.queue.queue;
          }
          else ls)) [
            | true ↦ record { enqueued = refl; fewer = omega arith }
            | false ↦ record { enqueued = refl; fewer = omega arith }
          ]

  -- The goroutine comes to its select again within `n` steps, with at most `k` packets in the queue.
  pub record Returns (w ptr n k : ℕ) (s : S) (ls : Ls) : Type 0 where
    pub last : S
    pub stream : Ls
    pub steps : ℕ
    pub goes : Goes w steps s last
    pub few : steps ≤ n
    pub at : At w ptr last (selecting ptr) stream
    pub left : length stream.queue.queue ≤ k
    pub enqueued : stream.enqueued ≡ ls.enqueued

  -- One step, then the rest.
  pub after_step :
      (w ptr n k now : ℕ) (c : Case) (s t : S) (ls ls' : Ls)
      → step rtp fl stx (go w c now) s ≡ returns (some t)
      → ls'.enqueued ≡ ls.enqueued
      → Returns w ptr n k t ls'
      → Returns w ptr (suc n) k s ls
  after_step w ptr n k now c s t ls ls' h same r = record {
    last = r.last;
    stream = r.stream;
    steps = suc r.steps;
    goes = moves c now h r.goes;
    few = omega (arith, r.few);
    at = r.at;
    left = r.left;
    enqueued = r.enqueued ∙ same;
  }

  pub returned :
      (w ptr k : ℕ) (s : S) (ls : Ls)
      → At w ptr s (selecting ptr) ls
      → length ls.queue.queue ≤ k
      → Returns w ptr 0 k s ls
  returned w ptr k s ls a fits = record {
    last = s;
    stream = ls;
    steps = 0;
    goes = stays;
    few = omega arith;
    at = a;
    left = fits;
    enqueued = refl;
  }

  pub more_room :
      (w ptr n n' k k' : ℕ) (s : S) (ls : Ls)
      → n ≤ n'
      → k ≤ k'
      → Returns w ptr n k s ls
      → Returns w ptr n' k' s ls
  more_room w ptr n n' k k' s ls h h' r = record {
    last = r.last;
    stream = r.stream;
    steps = r.steps;
    goes = r.goes;
    few = omega (arith, r.few, h);
    at = r.at;
    left = omega (arith, r.left, h');
    enqueued = r.enqueued;
  }

  pub Goes-append : {w n m : ℕ} {s t u : S} → Goes w n s t → Goes w m t u → Goes w (n + m) s u
  Goes-append {w} {m = m} {u = u} (stays {s}) g = subst (λ k. Goes w k s u) (sym (zero-add m)) g
  Goes-append {w} {m = m} {s} {u = u} (moves {n} c now h more) g =
      subst (λ k. Goes w k s u) (sym (suc-add n m)) (moves c now h (Goes-append more g))

  pub followed :
      (w ptr n m total k : ℕ) (s : S) (ls : Ls)
      → n + m ≤ total
      → (r : Returns w ptr n k s ls) → Returns w ptr m 0 r.last r.stream
      → Returns w ptr total 0 s ls
  followed w ptr n m total k s ls fits r r' = record {
    last = r'.last;
    stream = r'.stream;
    steps = r.steps + r'.steps;
    goes = Goes-append r.goes r'.goes;
    few = omega (arith, r.few, r'.few, fits);
    at = r'.at;
    left = r'.left;
    enqueued = r'.enqueued ∙ r.enqueued;
  }
