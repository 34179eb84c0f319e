-- ===== src/Scream/Sender/Queues.antt =====
-- internal/scream/sender_interceptor.go: what every state of the interceptor keeps of its streams.
pub mod Advance
pub mod Reach
use rtq_go_endpoint.Common.{
  ℕ, ◌+◌, ◌<◌, ◌≤◌, ◌≡◌, ◌∙◌, ap, sym, refl, subst, Bool, true, false, inl, inr, Option, none, some,
  List, [], ◌∷◌, ◌++◌, map, map-append, append-nil, append_assoc, length, length-append, length-set,
  length-map, get_elem?, set, All, All-append, All-get_elem?, All-set, All-map, elem, Run, returns,
  panics, out_of_fuel, ◌>>=◌, lookup, insert, erase, lookup-insert-some, lookup-erase-some,
  Bool-cases, Option-cases, leb, if◌then◌else◌, arith,
}
use rtq_go_endpoint.External.{Rtp, Float64}
use rtq_go_endpoint.Scream.RtpQueue.{Queue, RtpQueueItem, new_queue, clear, enqueue, dequeue}
use rtq_go_endpoint.Scream.RtpQueue.Refine.{
  IsValid, new_queue-IsValid, enqueue-IsValid, dequeue-IsValid,
}
use rtq_go_endpoint.Scream.Sender.{
  ScreamTx, TxCall, starting, Taken, written, cleared, LocalStream, State, call_tx, clear_stream,
  new_local_stream, register_new_stream, new_media_frame, incoming_feedback, get_time_ntp,
  on_stream, notify, notify_ssrcs, RtcpPacket, raw_packet, other_packet, bind_local_stream,
  write_enqueue, write_announce, on_rtcp,
}

module _ (rtp : Rtp) (fl : Float64) (stx : ScreamTx rtp fl) where
  open rtp use {Packet}

  abbrev packet_of : Taken rtp fl stx → Packet
  packet_of (written p) = p
  packet_of (cleared p) = p

  -- The packets that left the queue, in the order in which they left it.
  abbrev pub packets : List (Taken rtp fl stx) → List Packet
  packets ts = map packet_of ts

  abbrev pub queued : LocalStream rtp fl stx → List Packet
  queued ls = map (λ (i : RtpQueueItem rtp fl). i.packet) ls.queue.queue

  -- One stream: its channel `close` is nil, its queue counts its bytes, and what was put into the
  -- queue is what left it, then what waits, in that order.
  pub record Sound (ls : LocalStream rtp fl stx) : Type 0 where
    pub close_nil : ls.close ≡ none
    pub counted : IsValid rtp fl ls.queue
    pub in_order : ls.enqueued ≡ packets ls.taken ++ queued ls

  pub record Inv (s : State rtp fl stx) : Type 0 where
    pub sound : All Sound s.heap
    pub mapped : (k p : ℕ) → lookup k s.rtp_streams ≡ some p → p < length s.heap

  packets-cleared :
      (items : List (RtpQueueItem rtp fl))
      → packets (map (λ i. cleared i.packet) items) ≡ map (λ i. i.packet) items
  packets-cleared [] = refl
  packets-cleared (i ∷ is) = ap (λ ps. i.packet ∷ ps) (packets-cleared is)

  clear_stream-Sound :
      (ssrcs : List ℕ) (ls : LocalStream rtp fl stx)
      → Sound ls
      → Sound (clear_stream rtp fl stx ssrcs ls)
  unfolding clear
  clear_stream-Sound ssrcs ls h =
      elim (elem ls.ssrc ssrcs)
        as (λ b. Sound (
          if b
          then record ls {
            queue = (clear rtp fl ls.queue).1;
            taken = ls.taken ++ map (λ (i : RtpQueueItem rtp fl). cleared i.packet) ls.queue.queue;
          }
          else ls)) [
            | true ↦ record {
              close_nil = h.close_nil;
              counted = record { counted = refl };
              in_order =
                  h.in_order
                  ∙ sym (
                      append-nil _
                      ∙ map-append packet_of ls.taken _
                      ∙ ap (λ l. packets ls.taken ++ l) (packets-cleared ls.queue.queue));
            }
            | false ↦ h
          ]

  pub call_tx-Inv : (c : TxCall) {s : State rtp fl stx} → Inv s → Inv (call_tx rtp fl stx c s).1
  unfolding call_tx
  call_tx-Inv c {s} inv = record {
    sound = All-map Sound _ (clear_stream-Sound _) s.heap inv.sound;
    mapped = λ k p h. rw (length-map (clear_stream rtp fl stx _) s.heap) (inv.mapped k p h);
  }

  new-Sound : (ssrc : ℕ) → Sound (new_local_stream rtp fl stx ssrc)
  unfolding new_queue
  new-Sound ssrc = record { close_nil = refl; counted = new_queue-IsValid rtp fl; in_order = refl }

  pub bind-Inv :
      (ssrc : ℕ) {s : State rtp fl stx} → Inv s → Inv (bind_local_stream rtp fl stx ssrc s)
  unfolding bind_local_stream
  bind-Inv ssrc {s} inv =
      elim s.is_closed
        as (λ b. Inv (if b then s else (call_tx rtp fl stx (register_new_stream ssrc) made).1)) [
          | true ↦ inv
          | false ↦ call_tx-Inv (register_new_stream ssrc) {s = made} (record {
            sound = All-append Sound s.heap _ inv.sound (new-Sound ssrc, tt);
            mapped = λ k p h.
                let longer : length (s.heap ++ (new_local_stream rtp fl stx ssrc ∷ []))
                    ≡ length s.heap + 1 =
                  length-append s.heap (new_local_stream rtp fl stx ssrc ∷ []) in
                elim (lookup-insert-some ssrc k (length s.heap) s.rtp_streams h) [
                  | inl (_, e) ↦ omega (arith, longer, e)
                  | inr (_, old) ↦ omega (arith, longer, inv.mapped k p old)
                ];
          })
        ]
    where
      made : State rtp fl stx
      made = record s {
        rtp_streams = insert ssrc (length s.heap) s.rtp_streams;
        heap = s.heap ++ (new_local_stream rtp fl stx ssrc ∷ []);
        workers = s.workers ++ (starting ssrc ∷ []);
      }

  -- A change of one stream that keeps it sound.
  pub set-Inv :
      {s : State rtp fl stx} (ptr : ℕ) (ls : LocalStream rtp fl stx)
      → Inv s
      → Sound ls
      → Inv (record s { heap = set s.heap ptr ls })
  set-Inv {s} ptr ls inv good = record {
    sound = All-set Sound s.heap ptr ls inv.sound good;
    mapped = λ k p h. rw (length-set s.heap ptr ls) (inv.mapped k p h);
  }

  on_stream-Inv :
      (ptr : ℕ) {s : State rtp fl stx} (f : LocalStream rtp fl stx → LocalStream rtp fl stx)
      → ((ls : LocalStream rtp fl stx) → Sound ls → Sound (f ls))
      → Inv s
      → Inv (on_stream rtp fl stx ptr s f)
  unfolding on_stream
  on_stream-Inv ptr {s} f keep inv = elim (Option-cases (get_elem? s.heap ptr)) [
    | inl e ↦ simp (e, on_stream) inv
    | inr (ls, e) ↦
        simp (e, on_stream)
          (set-Inv ptr (f ls) inv (keep ls (All-get_elem? Sound s.heap ptr inv.sound e)))
  ]

  notify-Inv : (ptr : ℕ) {s : State rtp fl stx} → Inv s → Inv (notify rtp fl stx ptr s)
  unfolding notify
  notify-Inv ptr inv =
      on_stream-Inv ptr _
        (λ ls h. record { close_nil = h.close_nil; counted = h.counted; in_order = h.in_order }) inv

  pub write_enqueue-Inv :
      (now ptr : ℕ) (p : Packet) {s : State rtp fl stx}
      → Inv s
      → Inv (write_enqueue rtp fl stx now ptr p s)
  unfolding write_enqueue enqueue
  write_enqueue-Inv now ptr p {s} inv =
      on_stream-Inv ptr _
        (λ ls h. record {
          close_nil = h.close_nil;
          counted = enqueue-IsValid rtp fl ls.queue p _ h.counted;
          in_order =
              ap (λ l. l ++ (p ∷ [])) h.in_order
              ∙ append_assoc (packets ls.taken) (queued ls) (p ∷ [])
              ∙ ap (λ l. packets ls.taken ++ l) (sym (map-append _ ls.queue.queue _));
        })
        inv

  pub write_announce-Inv :
      (now ptr ssrc : ℕ) (p : Packet) {s : State rtp fl stx}
      → Inv s
      → Inv (write_announce rtp fl stx now ptr ssrc p s)
  unfolding write_announce
  write_announce-Inv now ptr ssrc p inv = notify-Inv ptr (call_tx-Inv _ inv)

  pub notify_ssrcs-Inv :
      (ssrcs : List ℕ) {s : State rtp fl stx} → Inv s → Inv (notify_ssrcs rtp fl stx ssrcs s)
  unfolding notify_ssrcs
  notify_ssrcs-Inv [] inv = inv
  notify_ssrcs-Inv (ssrc ∷ ssrcs) {s} inv =
      notify_ssrcs-Inv ssrcs
        (elim (lookup ssrc s.rtp_streams)
          as (λ o. Inv (elim o [ none ↦ s | some ptr ↦ notify rtp fl stx ptr s ])) [
            | none ↦ inv
            | some ptr ↦ notify-Inv ptr inv
          ])
