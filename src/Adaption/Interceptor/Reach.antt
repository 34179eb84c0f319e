-- ===== src/Adaption/Interceptor/Reach.antt =====
-- internal/utils/rate_adaption_interceptor.go: what holds of the interceptor in every state that its
-- calls and its goroutines can lead to.
use rtq_go_endpoint.Common.{
  ℕ, ◌≤◌, ◌≡◌, ◌⊎◌, ◌∙◌, ap, sym, subst, refl, inl, inr, true, false, none, some, [], ◌∷◌, ◌++◌,
  append_assoc, length, get_elem?, get_elem?-set_self, Run, returns, panics, out_of_fuel, ◌>>=◌,
  lookup, arith, Option-cases, if◌then◌else◌,
}
use rtq_go_endpoint.External.{Rtp}
use rtq_go_endpoint.Adaption.{LoopVars, initial_vars, Readings}
use rtq_go_endpoint.Adaption.Rate.{adapt-IsValid, target-returns}
use rtq_go_endpoint.Adaption.Interceptor.Inversion.{
  write-some, unbind-some, receive-some, after_round, on_worker-some, run_start-some,
  leave_loop-some,
}
use rtq_go_endpoint.Adaption.Interceptor.Inv.{
  Sound, Inv, new-Inv, set-Inv, erase-Inv, set_worker-Inv, bind-Inv,
}
use rtq_go_endpoint.Adaption.Interceptor.{
  LocalStream, Worker, starting, looping, finished, State, write, unbind_local_stream, close,
  receive, Event, bind, send, unbind, shut, start, round, leave, leave_loop, run_round, run_start,
  step, Reachable, fresh, later, get_target_bitrate,
}

module _ (rtp : Rtp) where
  open rtp use {Packet}

  close-Inv : {s : State rtp} → Inv rtp s → Inv rtp (close rtp s)
  unfolding close
  close-Inv {s} inv =
      elim s.is_closed as (λ b. Inv rtp (if b then s else record s { is_closed = true })) [
        | true ↦ inv
        | false ↦ record {
          sound = inv.sound;
          mapped = inv.mapped;
          unshared = inv.unshared;
          placed = inv.placed;
        }
      ]

  write-Inv :
      {s t : State rtp} (ptr : ℕ) (p : Packet)
      → Inv rtp s
      → write rtp ptr p s ≡ returns (some t)
      → Inv rtp t
  write-Inv {s} ptr p inv h =
      let (ls, at, _, e) = write-some rtp ptr p s h in
      let good : Sound rtp ls = inv.sound ptr ls at in
      rw e (
        set-Inv rtp inv ptr at
          (record {
            rate = good.rate;
            in_order =
                ap (λ l. l ++ (p ∷ [])) good.in_order ∙ append_assoc ls.written ls.queue (p ∷ []);
          })
          refl)

  unbind-Inv :
      {s t : State rtp} (ssrc : ℕ)
      → Inv rtp s
      → unbind_local_stream rtp ssrc s ≡ returns t
      → Inv rtp t
  unbind-Inv {s} ssrc inv h = elim (unbind-some rtp ssrc s h) [
    | inl e ↦ rw e inv
    | inr (ptr, ls, at, here, e) ↦
        let good : Sound rtp ls = inv.sound ptr ls here in
        rw e (
          erase-Inv rtp inv ptr here (record { rate = good.rate; in_order = good.in_order }) ssrc
            at)
  ]

  looping_ptr :
      {p q : ℕ} {u v : LoopVars} → ◌≡◌ {A = Worker rtp} (looping p u) (looping q v) → p ≡ q
  looping_ptr h = ground arith

  receive-Inv :
      {s t : State rtp} (w ptr : ℕ) (vars : LoopVars) (now : Readings)
      → Inv rtp s
      → receive rtp w ptr vars now s ≡ returns (some t)
      → Inv rtp t
  receive-Inv {s} w ptr vars now inv h =
      let (ls, p, rest, at, q, e) = receive-some rtp w ptr vars now s h in
      let good : Sound rtp ls = inv.sound ptr ls at in
      let ls' : LocalStream rtp = record ls {
        queue = rest;
        target_bitrate = (after_round rtp now vars ls p rest).target_bitrate;
        written = ls.written ++ (p ∷ []);
      } in
      let good' : Sound rtp ls' = record {
        rate = adapt-IsValid now (length rest) _ good.rate;
        in_order = good.in_order ∙ rw q (sym (append_assoc ls.written (p ∷ []) rest));
      } in
      rw e (
        set_worker-Inv rtp (set-Inv rtp inv ptr at good' refl) w _
          (λ p' vars' e'. (ls', rw (← looping_ptr e') (get_elem?-set_self s.heap ptr ls' at))))

  run_round-Inv :
      {s t : State rtp} (w : ℕ) (now : Readings) (worker : Worker rtp)
      → Inv rtp s
      → run_round rtp w now s worker ≡ returns (some t)
      → Inv rtp t
  unfolding run_round
  run_round-Inv w now (starting ssrc) inv h = absurd (ground arith)
  run_round-Inv w now (looping p v) inv h = receive-Inv w p v now inv h
  run_round-Inv w now finished inv h = absurd (ground arith)

  >>=-eq_some :
      {t : State rtp} (m : Run (State rtp))
      → (m >>= λ s. returns (some s)) ≡ returns (some t)
      → m ≡ returns t
  >>=-eq_some (returns s) h = ground arith
  >>=-eq_some (panics p) h = absurd (ground arith)
  >>=-eq_some out_of_fuel h = absurd (ground arith)

  -- Every event keeps the invariant.
  pub step-Inv :
      {s t : State rtp} (e : Event rtp) → Inv rtp s → step rtp e s ≡ returns (some t) → Inv rtp t
  unfolding step
  step-Inv {s} (bind ssrc) inv h = subst (Inv rtp) (cc h) (bind-Inv rtp ssrc inv)
  step-Inv {s} (send ptr p) inv h = write-Inv ptr p inv h
  step-Inv {s} (unbind ssrc) inv h = unbind-Inv ssrc inv (>>=-eq_some _ h)
  step-Inv {s} shut inv h = subst (Inv rtp) (cc h) (close-Inv inv)
  step-Inv {s} (start w) inv h =
      let (worker, at, f) = on_worker-some rtp w s (run_start rtp w s) h in
      let (ssrc, ptr, found, e) = run_start-some rtp w s worker f in
      let (ls, there, _) = inv.mapped ssrc ptr found in
      rw e (
        set_worker-Inv rtp inv w (looping ptr initial_vars)
          (λ p vars e'. (ls, subst (λ i. get_elem? s.heap i ≡ some ls) (cc e') there)))
  step-Inv {s} (round w now) inv h =
      let (worker, at, f) = on_worker-some rtp w s (run_round rtp w now s) h in
      run_round-Inv w now worker inv f
  step-Inv {s} (leave w) inv h =
      let (worker, at, f) = on_worker-some rtp w s (leave_loop rtp w s) h in
      let (_, e) = leave_loop-some rtp w s worker f in
      rw e (set_worker-Inv rtp inv w finished (λ p vars e'. absurd (cc e')))

  -- Every state that the calls and the goroutines can lead to satisfies the invariant.
  pub Reachable-Inv : {s : State rtp} → Reachable rtp s → Inv rtp s
  Reachable-Inv fresh = new-Inv rtp
  Reachable-Inv (later e r h) = step-Inv e (Reachable-Inv r) h

  -- In every reachable state `GetTargetBitrate` fails exactly for the SSRCs that are not bound, and
  -- gives a bitrate from 256 kbit/s to 1280 kbit/s for the others; it never panics.
  pub get_target_bitrate_bounds :
      {s : State rtp}
      → Reachable rtp s
      → (ssrc : ℕ)
      → ((lookup ssrc s.streams ≡ none) × (get_target_bitrate rtp ssrc s ≡ returns none))
        ⊎ ((ptr : ℕ) × (bps : ℕ) × (lookup ssrc s.streams ≡ some ptr)
            × (get_target_bitrate rtp ssrc s ≡ returns (some bps))
            × (256_000 ≤ bps)
            × (bps ≤ 1_280_000))
  unfolding get_target_bitrate
  get_target_bitrate_bounds {s} r ssrc = elim (Option-cases (lookup ssrc s.streams)) [
    | inl e ↦ inl (e, ground arith)
    | inr (ptr, e) ↦
        let (ls, at, _) = (Reachable-Inv r).mapped ssrc ptr e in
        let (bps, f, low, high) =
          target-returns ls.target_bitrate ((Reachable-Inv r).sound ptr ls at).rate in
        inr (ptr, bps, e, ground arith, low, high)
  ]

  -- In every reachable state the packets of each stream that its writer took are those that were
  -- written to the network, then those that wait in the channel, in the order in which they came.
  pub packets_in_order :
      {s : State rtp}
      → Reachable rtp s
      → (ptr : ℕ) (ls : LocalStream rtp) → get_elem? s.heap ptr ≡ some ls
      → ls.sent ≡ ls.written ++ ls.queue
  packets_in_order r ptr ls at = ((Reachable-Inv r).sound ptr ls at).in_order
