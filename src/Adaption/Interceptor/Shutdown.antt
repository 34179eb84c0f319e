-- ===== src/Adaption/Interceptor/Shutdown.antt =====
-- internal/utils/rate_adaption_interceptor.go: what `UnbindLocalStream` does to the stream, to its
-- writer and to its goroutine.
use rtq_go_endpoint.Common.{
  ℕ, ◌≡◌, inl, inr, true, none, some, [], get_elem?, set, get_elem?-set_self, returns, panics,
  send_on_closed, nil_dereference, lookup, erase, lookup-erase, arith, Option-cases,
}
use rtq_go_endpoint.External.{Rtp}
use rtq_go_endpoint.Adaption.{LoopVars, Readings}
use rtq_go_endpoint.Adaption.Interceptor.{
  LocalStream, looping, State, write, unbind_local_stream, receive, round, step, Reachable,
}
use rtq_go_endpoint.Adaption.Interceptor.Inv.{Inv}
use rtq_go_endpoint.Adaption.Interceptor.Reach.{Reachable-Inv}

module _ (rtp : Rtp) where
  open rtp use {Packet}

  abbrev pub closed_stream : LocalStream rtp → LocalStream rtp
  closed_stream ls = record ls { queue_closed = true }

  -- What is left when the stream at `ptr` is unbound.
  abbrev pub without : ℕ → ℕ → LocalStream rtp → State rtp → State rtp
  without ssrc ptr ls s = record s {
    heap = set s.heap ptr (closed_stream ls);
    streams = erase ssrc s.streams;
  }

  unbind_bound :
      {s : State rtp}
      → Inv rtp s
      → (ssrc ptr : ℕ) → lookup ssrc s.streams ≡ some ptr
      → (ls : LocalStream rtp) × (get_elem? s.heap ptr ≡ some ls)
        × (unbind_local_stream rtp ssrc s ≡ returns (without ssrc ptr ls s))
  unfolding unbind_local_stream
  unbind_bound inv ssrc ptr e = let (ls, at, o) = inv.mapped ssrc ptr e in (ls, at, ground arith)

  -- In every reachable state `UnbindLocalStream` returns, bound or not, and leaves the SSRC unbound.
  pub unbind-returns :
      {s : State rtp}
      → Reachable rtp s
      → (ssrc : ℕ)
      → (t : State rtp) × (unbind_local_stream rtp ssrc s ≡ returns t)
        × (lookup ssrc t.streams ≡ none)
  unfolding unbind_local_stream
  unbind-returns {s} r ssrc = elim (Option-cases (lookup ssrc s.streams)) [
    | inl e ↦ (s, ground arith, e)
    | inr (ptr, e) ↦
        let (ls, at, o) = unbind_bound (Reachable-Inv rtp r) ssrc ptr e in
        (without ssrc ptr ls s, o, ground (arith, lookup-erase ssrc ssrc s.streams))
  ]

  -- Once a stream is unbound, its writer panics on every packet.
  pub write-unbound :
      {s t : State rtp}
      → Reachable rtp s
      → (ssrc ptr : ℕ) (p : Packet) → lookup ssrc s.streams ≡ some ptr
      → unbind_local_stream rtp ssrc s ≡ returns t
      → write rtp ptr p t ≡ panics send_on_closed
  unfolding write
  write-unbound {s} {t} r ssrc ptr p e h =
      let (ls, at, o) = unbind_bound (Reachable-Inv rtp r) ssrc ptr e in
      let same : t ≡ without ssrc ptr ls s = ground (arith, o, h) in
      rw same (ground (arith, get_elem?-set_self s.heap ptr (closed_stream ls) at))

  -- Once a stream is unbound, its goroutine panics on a nil packet as soon as the channel is empty.
  pub round-unbound :
      {s t : State rtp}
      → Reachable rtp s
      → (ssrc ptr w : ℕ) (vars : LoopVars) (ls : LocalStream rtp) → lookup ssrc s.streams ≡ some ptr
      → get_elem? s.workers w ≡ some (looping ptr vars)
      → get_elem? s.heap ptr ≡ some ls
      → ls.queue ≡ []
      → unbind_local_stream rtp ssrc s ≡ returns t
      → (now : Readings) → step rtp (round w now) t ≡ panics nil_dereference
  unfolding step receive
  round-unbound {s} {t} r ssrc ptr w vars ls e at_w at_ls empty h now =
      let (ls', at, o) = unbind_bound (Reachable-Inv rtp r) ssrc ptr e in
      let same : t ≡ without ssrc ptr ls s = ground (arith, o, h) in
      rw same (ground (arith, get_elem?-set_self s.heap ptr (closed_stream ls) at_ls))
