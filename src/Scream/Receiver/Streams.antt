-- ===== src/Scream/Receiver/Streams.antt =====
-- internal/scream/receiver_interceptor.go: what the receiver of one stream sees of all that happens.
use rtq_go_endpoint.Common.{
  none-some, ℕ, ◌+◌, true, false, Option, none, some, List, [], ◌∷◌, ◌≡◌, ◌∙◌, refl, sym, ap, inl,
  inr, lookup, insert, lookup-insert, lookup-erase, ◌==◌, ==_iff, subst, ◌-◌, Bool-cases,
  Option-cases, leb, if◌then◌else◌,
}
use rtq_go_endpoint.External.{Rtp, Float64, ScreamRx}
use rtq_go_endpoint.Scream.Ntp.{get_time_between_ntp}
use rtq_go_endpoint.Scream.Receiver.{
  State, bind_rtcp_writer, bind_remote_stream, unbind_remote_stream, close, on_packet, ask_feedback,
  on_tick, Event, bind_writer, bind_stream, unbind_stream, shut, arrival, tick, leave, step, run,
}

-- A map whose value at `k` became `g` of what it was, seen at any key.
module _ {V : Type 0} (k id : ℕ) (m : List (ℕ × V)) (g : Option V → Option V) where
  lookup-updated :
      {x y : V}
      → lookup k m ≡ some x
      → g (some x) ≡ some y
      → lookup id (insert k y m) ≡ (if k == id then g (lookup id m) else lookup id m)
  lookup-updated {x} {y} e h = elim (Bool-cases (k == id)) [
    | inl same ↦
        let eq : k ≡ id = (==_iff k id).0 same in
        rw (lookup-insert k id y m, same) (sym (ap g (subst (λ j. lookup j m ≡ some x) eq e) ∙ h))
    | inr other ↦ rw (lookup-insert k id y m, other)
  ]

  lookup-untouched :
      lookup k m ≡ none
      → g none ≡ none
      → lookup id m ≡ (if k == id then g (lookup id m) else lookup id m)
  lookup-untouched e h = elim (Bool-cases (k == id)) [
    | inl same ↦
        let here : lookup id m ≡ none = subst (λ j. lookup j m ≡ none) ((==_iff k id).0 same) e in
        rw (same, here) (sym h)
    | inr other ↦ rw other
  ]

module _ (rtp : Rtp) (fl : Float64) (sx : ScreamRx) (new_rx : ℕ → sx.Rx) (t0 : fl.Float) where
  open rtp use {Packet, marshal_size, sequence_number, ssrc}
  open sx use {Rx, receive, create_standardized_feedback}

  -- One stream on its own, bound or not: what an event is for the stream `id`.
  abbrev pub feed : ℕ → Packet → Option Rx → Option Rx
  feed now pkt none = none
  feed now pkt (some rx) = some (
      receive (get_time_between_ntp fl t0 now) (ssrc pkt) (marshal_size pkt) (sequence_number pkt) 0
        rx)

  abbrev pub ask : ℕ → Option Rx → Option Rx
  ask now none = none
  ask now (some rx) = some (create_standardized_feedback (get_time_between_ntp fl t0 now) true rx).1

  abbrev pub visit : ℕ → List (ℕ × ℕ) → Option Rx → Option Rx
  visit id [] o = o
  visit id ((other, now) ∷ visits) o = visit id visits (if other == id then ask now o else o)

  abbrev pub seen_by : ℕ → Event rtp fl sx new_rx → Option Rx → Option Rx
  seen_by id bind_writer o = o
  seen_by id (bind_stream other) o = if other == id then some (new_rx other) else o
  seen_by id (unbind_stream other) o = if other == id then none else o
  seen_by id shut o = o
  seen_by id (arrival now pkt) o = if ssrc pkt == id then feed now pkt o else o
  seen_by id (tick visits) o = visit id visits o
  seen_by id leave o = o

  abbrev pub all_seen_by : ℕ → List (Event rtp fl sx new_rx) → Option Rx → Option Rx
  all_seen_by id [] o = o
  all_seen_by id (e ∷ es) o = all_seen_by id es (seen_by id e o)

  abbrev S : Type 0
  S = State rtp fl sx new_rx

  on_packet-seen :
      (id now : ℕ) (pkt : Packet) (s : S)
      → s.t0 ≡ t0
      → lookup id (on_packet rtp fl sx new_rx now pkt s).scream_rx
        ≡ (if ssrc pkt == id then feed now pkt (lookup id s.scream_rx) else lookup id s.scream_rx)
  unfolding on_packet
  on_packet-seen id now pkt s e = elim (Option-cases (lookup (ssrc pkt) s.scream_rx)) [
    | inl h ↦ rw (on_packet, h) (lookup-untouched (ssrc pkt) id s.scream_rx (feed now pkt) h refl)
    | inr (rx, h) ↦
        rw (on_packet, h) (lookup-updated (ssrc pkt) id s.scream_rx (feed now pkt) h (rw e))
  ]

  ask-seen :
      (id other now : ℕ) (s : S)
      → s.t0 ≡ t0
      → lookup id (ask_feedback rtp fl sx new_rx other now s).scream_rx
        ≡ (if other == id then ask now (lookup id s.scream_rx) else lookup id s.scream_rx)
  unfolding ask_feedback
  ask-seen id other now s e = elim (Option-cases (lookup other s.scream_rx)) [
    | inl h ↦ rw (ask_feedback, h) (lookup-untouched other id s.scream_rx (ask now) h refl)
    | inr (rx, h) ↦ rw (ask_feedback, h) (lookup-updated other id s.scream_rx (ask now) h (rw e))
  ]

  ask-t0 : (other now : ℕ) (s : S) → (ask_feedback rtp fl sx new_rx other now s).t0 ≡ s.t0
  unfolding ask_feedback
  ask-t0 other now s = elim (Option-cases (lookup other s.scream_rx)) [
    | inl h ↦ rw (ask_feedback, h)
    | inr (rx, h) ↦ rw (ask_feedback, h)
  ]

  on_packet-t0 : (now : ℕ) (pkt : Packet) (s : S) → (on_packet rtp fl sx new_rx now pkt s).t0 ≡ s.t0
  unfolding on_packet
  on_packet-t0 now pkt s = elim (Option-cases (lookup (ssrc pkt) s.scream_rx)) [
    | inl h ↦ rw (on_packet, h)
    | inr (rx, h) ↦ rw (on_packet, h)
  ]

  on_tick-seen :
      (id : ℕ) (visits : List (ℕ × ℕ)) (s : S)
      → s.t0 ≡ t0
      → (lookup id (on_tick rtp fl sx new_rx visits s).scream_rx
          ≡ visit id visits (lookup id s.scream_rx))
        × ((on_tick rtp fl sx new_rx visits s).t0 ≡ t0)
  unfolding on_tick
  on_tick-seen id [] s e = (refl, e)
  on_tick-seen id ((other, now) ∷ visits) s e =
      let (rest, kept) =
        on_tick-seen id visits (ask_feedback rtp fl sx new_rx other now s)
          (ask-t0 other now s ∙ e) in
      (rest ∙ ap (visit id visits) (ask-seen id other now s e), kept)

  -- A step gives a state in which each stream stands where its own events bring it.
  abbrev Follows : ℕ → Event rtp fl sx new_rx → S → Option S → Type 0
  Follows id e s none = Unit
  Follows id e s (some s') =
      (lookup id s'.scream_rx ≡ seen_by id e (lookup id s.scream_rx)) × (s'.t0 ≡ t0)

  step-Follows :
      (id : ℕ) (e : Event rtp fl sx new_rx) (s : S)
      → s.t0 ≡ t0
      → Follows id e s (step rtp fl sx new_rx e s)
  unfolding step bind_rtcp_writer bind_remote_stream unbind_remote_stream close
  step-Follows id bind_writer s h =
      elim s.is_closed
        as (λ b.
          Follows id bind_writer s (some (if b then s else record s { loops = s.loops + 1 }))) [
            | true ↦ (refl, h)
            | false ↦ (refl, h)
          ]
  step-Follows id (bind_stream other) s h = (lookup-insert other id (new_rx other) s.scream_rx, h)
  step-Follows id (unbind_stream other) s h = (lookup-erase other id s.scream_rx, h)
  step-Follows id shut s h =
      elim s.is_closed
        as (λ b. Follows id shut s (some (if b then s else record s { is_closed = true }))) [
          | true ↦ (refl, h)
          | false ↦ (refl, h)
        ]
  step-Follows id (arrival now pkt) s h =
      elim (leb s.loops 0)
        as (λ b.
          Follows id (arrival now pkt) s
            (if b then none else some (on_packet rtp fl sx new_rx now pkt s))) [
              | true ↦ tt
              | false ↦ (on_packet-seen id now pkt s h, on_packet-t0 now pkt s ∙ h)
            ]
  step-Follows id (tick visits) s h =
      elim (leb s.loops 0)
        as (λ b.
          Follows id (tick visits) s
            (if b then none else some (on_tick rtp fl sx new_rx visits s))) [
              | true ↦ tt
              | false ↦ on_tick-seen id visits s h
            ]
  step-Follows id leave s h =
      elim (leb s.loops 0)
        as (λ b. Follows id leave s (
          if b
          then none
          else (if s.is_closed then some (record s { loops = s.loops - 1 }) else none))) [
            | true ↦ tt
            | false ↦
                elim s.is_closed
                  as (λ b.
                    Follows id leave s
                      (if b then some (record s { loops = s.loops - 1 }) else none)) [
                        | true ↦ (refl, h)
                        | false ↦ tt
                      ]
          ]

  pub run-some :
      (event : Event rtp fl sx new_rx) (es : List (Event rtp fl sx new_rx)) (s : S) {t : S}
      → run rtp fl sx new_rx (event ∷ es) s ≡ some t
      → (s' : S) × (step rtp fl sx new_rx event s ≡ some s') × (run rtp fl sx new_rx es s' ≡ some t)
  unfolding run
  run-some event es s {t} h = from (step rtp fl sx new_rx event s) refl h
    where
      from :
          (o : Option S)
          → step rtp fl sx new_rx event s ≡ o
          → (elim o [ none ↦ none | some s' ↦ run rtp fl sx new_rx es s' ]) ≡ some t
          → (s' : S) × (step rtp fl sx new_rx event s ≡ some s')
            × (run rtp fl sx new_rx es s' ≡ some t)
      from none n g = absurd (none-some g)
      from (some s') n g = (s', n, g)

  -- Whatever happens to the other streams, the receiver of a stream gets exactly the packets that bear
  -- its SSRC and the requests for its feedback, in the order in which they come, from the binding of the
  -- stream to its unbinding.
  pub run-streams :
      (id : ℕ) (es : List (Event rtp fl sx new_rx)) (s : S) {t : S}
      → s.t0 ≡ t0
      → run rtp fl sx new_rx es s ≡ some t
      → lookup id t.scream_rx ≡ all_seen_by id es (lookup id s.scream_rx)
  unfolding run
  run-streams id [] s e h = subst Shown h refl
    where
      Shown : Option S → Type 0
      Shown none = Unit
      Shown (some u) = lookup id u.scream_rx ≡ lookup id s.scream_rx
  run-streams id (event ∷ es) s e h =
      let (s', n, rest) = run-some event es s h in
      let (here, kept) = subst (Follows id event s) n (step-Follows id event s e) in
      run-streams id es s' kept rest ∙ ap (all_seen_by id es) here
