-- ===== src/Adaption/Tests.antt =====
-- internal/utils/rate_adaption_interceptor.go on concrete rounds and calls, and its laws there.
use rtq_go_endpoint.Common.{
  ℕ, ◌+◌, ◌*◌, ◌≤◌, ◌<◌, ◌≡◌, ◌⊎◌, ◌↔◌, refl, true, false, none, some, List, [], ◌∷◌, ◌++◌, returns,
  panics, send_on_closed, nil_dereference, lookup, insert, erase, arith,
}
use rtq_go_endpoint.External.{PlainPacket, plain_rtp}
use rtq_go_endpoint.Adaption.{
  BitrateConfig, increase, decrease, initial_vars, Readings, millisecond, Control, on_empty,
  on_growing, on_shrinking, adapt, rounds,
}
use rtq_go_endpoint.Adaption.Rate.{
  Lowers, Drained, Shrank, adapt-lowers_iff, adapt-raises_iff, adapt-one_step,
}
use rtq_go_endpoint.Adaption.Spacing.{decreases_spaced, increases_unspaced}
use rtq_go_endpoint.Adaption.Interceptor.{
  LocalStream, looping, State, new_sender_interceptor, new_local_stream, bind_local_stream, write,
  unbind_local_stream, start_loop, bind, send, round, start, step, Reachable, fresh, later,
  get_target_bitrate,
}
use rtq_go_endpoint.Adaption.Interceptor.Reach.{get_target_bitrate_bounds, packets_in_order}
use rtq_go_endpoint.Adaption.Interceptor.Shutdown.{unbind-returns, write-unbound, round-unbound}

-- All places of a round read the same time.
abbrev at_ms : ℕ → Readings
at_ms ms = record {
  at_empty = ms * millisecond;
  change_empty = ms * millisecond;
  set_increase = ms * millisecond;
  at_growing = ms * millisecond;
  set_decrease = ms * millisecond;
  at_shrinking = ms * millisecond;
  change_shrinking = ms * millisecond;
}

abbrev on_step : ℕ → BitrateConfig
on_step n = record {
  current_step = n;
  steps = 256_000 ∷ 512_000 ∷ 768_000 ∷ 1_024_000 ∷ 1_280_000 ∷ [];
  last_change = none;
}

-- 50 rounds in which the channel grew
abbrev grown : Control
grown = record {
  vars = record initial_vars { last_queue_size = 220; queue_growing = 50 };
  target_bitrate = on_step 3;
}

-- 100 rounds in which it shrank
abbrev shrunk : Control
shrunk = record {
  vars = record initial_vars {
    last_queue_size = 30;
    queue_shrinking = 100;
    last_increase = some (100 * millisecond);
  };
  target_bitrate = on_step 1;
}

adapt-lowers_iff_example :
    ((adapt (at_ms 700) 230 grown).target_bitrate.current_step < 3)
    ↔ (Lowers (at_ms 700) 230 grown × (0 < 3))
adapt-lowers_iff_example = adapt-lowers_iff (at_ms 700) 230 grown

lowers_here : (adapt (at_ms 700) 230 grown).target_bitrate.current_step ≡ 2
unfolding adapt on_empty on_growing on_shrinking increase decrease
lowers_here = refl

adapt-raises_iff_example :
    (1 < (adapt (at_ms 700) 20 shrunk).target_bitrate.current_step)
    ↔ ((Drained (at_ms 700) 20 shrunk ⊎ Shrank (at_ms 700) 20 shrunk) × (1 + 1 < 5))
adapt-raises_iff_example = adapt-raises_iff (at_ms 700) 20 shrunk

one_step_at_700 :
    ((adapt (at_ms 700) 20 shrunk).target_bitrate.current_step ≤ 1 + 1)
    × (1 ≤ (adapt (at_ms 700) 20 shrunk).target_bitrate.current_step + 1)
one_step_at_700 = adapt-one_step (at_ms 700) 20 shrunk

-- fifty more rounds at 230 packets, one millisecond apart
abbrev growing_rounds : ℕ → ℕ → List (Readings × ℕ)
growing_rounds ℕ.zero ms = []
growing_rounds (ℕ.suc n) ms = (at_ms ms, 230) ∷ growing_rounds n (ms + 1)

decreases_spaced_example : 700 * millisecond + 50 * millisecond < 760 * millisecond
unfolding adapt rounds on_empty on_growing on_shrinking increase decrease
decreases_spaced_example =
    decreases_spaced (at_ms 700) (at_ms 760) 230 230 (growing_rounds 50 701) grown (omega arith)
      (omega arith) (omega arith)

increases_unspaced_example :
    (adapt (at_ms 701) 0 (adapt (at_ms 700) 20 shrunk)).target_bitrate.current_step ≡ 1 + 2
increases_unspaced_example =
    increases_unspaced (at_ms 700) (at_ms 701) 20 shrunk
      (omega arith, omega arith, omega arith, refl) (omega arith) (omega arith) (omega arith)

abbrev p1 : PlainPacket
p1 = record { size = 100; seq_nr = 7; source = 9; is_marked = false }

abbrev bound : State plain_rtp
bound = bind_local_stream plain_rtp 9 (new_sender_interceptor plain_rtp)

bound-Reachable : Reachable plain_rtp bound
unfolding step
bound-Reachable = later (bind 9) fresh refl

abbrev started : State plain_rtp
started = record {
  is_closed = false;
  streams = (9, 0) ∷ [];
  heap = new_local_stream plain_rtp ∷ [];
  workers = looping 0 initial_vars ∷ [];
}

started-Reachable : Reachable plain_rtp started
unfolding step bind_local_stream new_sender_interceptor start_loop lookup insert
started-Reachable = later (start 0) bound-Reachable refl

abbrev waiting : LocalStream plain_rtp
waiting = record (new_local_stream plain_rtp) { queue = p1 ∷ []; sent = p1 ∷ [] }

sent-Reachable : Reachable plain_rtp (record started { heap = waiting ∷ [] })
unfolding step write
sent-Reachable = later (send 0 p1) started-Reachable refl

get_target_bitrate_bounds_example :
    ((lookup 9 started.streams ≡ none) × (get_target_bitrate plain_rtp 9 started ≡ returns none))
    ⊎ ((ptr : ℕ) × (bps : ℕ) × (lookup 9 started.streams ≡ some ptr)
        × (get_target_bitrate plain_rtp 9 started ≡ returns (some bps))
        × (256_000 ≤ bps)
        × (bps ≤ 1_280_000))
get_target_bitrate_bounds_example = get_target_bitrate_bounds plain_rtp started-Reachable 9

packets_in_order_example : waiting.sent ≡ waiting.written ++ waiting.queue
packets_in_order_example = packets_in_order plain_rtp sent-Reachable 0 waiting refl

nine_unbinds :
    (t : State plain_rtp) × (unbind_local_stream plain_rtp 9 started ≡ returns t)
    × (lookup 9 t.streams ≡ none)
nine_unbinds = unbind-returns plain_rtp started-Reachable 9

abbrev unbound : State plain_rtp
unbound = record started {
  streams = [];
  heap = record (new_local_stream plain_rtp) { queue_closed = true } ∷ [];
}

write-unbound_run : write plain_rtp 0 p1 unbound ≡ panics send_on_closed
unfolding unbind_local_stream lookup erase
write-unbound_run = write-unbound plain_rtp started-Reachable 9 0 p1 refl refl

round-unbound_run : step plain_rtp (round 0 (at_ms 5)) unbound ≡ panics nil_dereference
unfolding unbind_local_stream lookup erase
round-unbound_run =
    round-unbound plain_rtp started-Reachable 9 0 0 initial_vars (new_local_stream plain_rtp) refl
      refl refl refl refl (at_ms 5)
