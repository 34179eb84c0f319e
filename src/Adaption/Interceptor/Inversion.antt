-- ===== src/Adaption/Interceptor/Inversion.antt =====
-- internal/utils/rate_adaption_interceptor.go: what a successful event found, and what it left.
use rtq_go_endpoint.Common.{
  ℕ, ◌≡◌, ◌⊎◌, inl, inr, true, false, Option, some, List, [], ◌∷◌, ◌++◌, length, get_elem?, set,
  Run, returns, lookup, erase, arith, Option-cases, List-cases,
}
use rtq_go_endpoint.External.{Rtp}
use rtq_go_endpoint.Adaption.{LoopVars, initial_vars, Readings, adapt, Control}
use rtq_go_endpoint.Adaption.Interceptor.{
  LocalStream, Worker, starting, looping, finished, State, write, unbind_local_stream, start_loop,
  receive, leave_loop, run_start, on_worker,
}

module _ (rtp : Rtp) where
  open rtp use {Packet}

  abbrev pub with_packet : Packet → LocalStream rtp → LocalStream rtp
  with_packet p ls = record ls { queue = ls.queue ++ (p ∷ []); sent = ls.sent ++ (p ∷ []) }

  -- A write that goes through found its stream open, and put the packet at the end.
  pub write-some :
      (ptr : ℕ) (p : Packet) (s : State rtp) {t : State rtp}
      → write rtp ptr p s ≡ returns (some t)
      → (ls : LocalStream rtp) × (get_elem? s.heap ptr ≡ some ls)
        × (ls.queue_closed ≡ false)
        × (t ≡ record s { heap = set s.heap ptr (with_packet p ls) })
  unfolding write
  write-some ptr p s h = elim (Option-cases (get_elem? s.heap ptr)) [
    | inl e ↦ absurd (ground arith)
    | inr (ls, e) ↦ (ls, e, ground arith, ground arith)
  ]

  pub unbind-some :
      (ssrc : ℕ) (s : State rtp) {t : State rtp}
      → unbind_local_stream rtp ssrc s ≡ returns t
      → (t ≡ s)
        ⊎ ((ptr : ℕ) × (ls : LocalStream rtp) × (lookup ssrc s.streams ≡ some ptr)
            × (get_elem? s.heap ptr ≡ some ls)
            × (t ≡ record s {
              heap = set s.heap ptr (record ls { queue_closed = true });
              streams = erase ssrc s.streams;
            }))
  unfolding unbind_local_stream
  unbind-some ssrc s h = elim (Option-cases (lookup ssrc s.streams)) [
    | inl e ↦ inl (ground arith)
    | inr (ptr, e) ↦ elim (Option-cases (get_elem? s.heap ptr)) [
      | inl f ↦ absurd (ground arith)
      | inr (ls, f) ↦ inr (ptr, ls, e, f, ground arith)
    ]
  ]

  -- A round takes the packet at the front, writes it, and adapts the bitrate.
  abbrev pub after_round : Readings → LoopVars → LocalStream rtp → Packet → List Packet → Control
  after_round now vars ls p rest =
      adapt now (length rest) (record { vars = vars; target_bitrate = ls.target_bitrate })

  pub receive-some :
      (w ptr : ℕ) (vars : LoopVars) (now : Readings) (s : State rtp) {t : State rtp}
      → receive rtp w ptr vars now s ≡ returns (some t)
      → (ls : LocalStream rtp) × (p : Packet) × (rest : List Packet) × (get_elem? s.heap ptr
          ≡ some ls)
        × (ls.queue ≡ p ∷ rest)
        × (t ≡ record s {
          heap = set s.heap ptr (record ls {
            queue = rest;
            target_bitrate = (after_round now vars ls p rest).target_bitrate;
            written = ls.written ++ (p ∷ []);
          });
          workers = set s.workers w (looping ptr (after_round now vars ls p rest).vars);
        })
  unfolding receive
  receive-some w ptr vars now s h = elim (Option-cases (get_elem? s.heap ptr)) [
    | inl e ↦ absurd (ground arith)
    | inr (ls, e) ↦ elim (List-cases ls.queue) [
      | inl f ↦ absurd (ground arith)
      | inr (p, rest, f) ↦ (ls, p, rest, e, f, ground arith)
    ]
  ]

  pub on_worker-some :
      (w : ℕ) (s : State rtp) (f : Worker rtp → Run (Option (State rtp))) {t : State rtp}
      → on_worker rtp w s f ≡ returns (some t)
      → (worker : Worker rtp) × (get_elem? s.workers w ≡ some worker)
        × (f worker ≡ returns (some t))
  unfolding on_worker
  on_worker-some w s f h = elim (Option-cases (get_elem? s.workers w)) [
    | inl e ↦ absurd (ground arith)
    | inr (worker, e) ↦ (worker, e, ground arith)
  ]

  pub run_start-some :
      (w : ℕ) (s : State rtp) (worker : Worker rtp) {t : State rtp}
      → run_start rtp w s worker ≡ returns (some t)
      → (ssrc : ℕ) × (ptr : ℕ) × (lookup ssrc s.streams ≡ some ptr)
        × (t ≡ record s { workers = set s.workers w (looping ptr initial_vars) })
  unfolding run_start start_loop
  run_start-some w s (starting ssrc) h = elim (Option-cases (lookup ssrc s.streams)) [
    | inl e ↦ absurd (ground arith)
    | inr (ptr, e) ↦ (ssrc, ptr, e, ground arith)
  ]
  run_start-some w s (looping p v) h = absurd (ground arith)
  run_start-some w s finished h = absurd (ground arith)

  pub leave_loop-some :
      (w : ℕ) (s : State rtp) (worker : Worker rtp) {t : State rtp}
      → leave_loop rtp w s worker ≡ returns (some t)
      → (s.is_closed ≡ true) × (t ≡ record s { workers = set s.workers w finished })
  unfolding leave_loop
  leave_loop-some w s (starting ssrc) h = absurd (ground arith)
  leave_loop-some w s (looping p v) h = (ground arith, ground arith)
  leave_loop-some w s finished h = absurd (ground arith)
