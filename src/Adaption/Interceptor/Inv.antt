-- ===== src/Adaption/Interceptor/Inv.antt =====
-- internal/utils/rate_adaption_interceptor.go: the invariant of the interceptor, and what of its
-- state can change without breaking it.
use rtq_go_endpoint.Common.{
  ℕ, ◌≡◌, ◌≢◌, ◌⊎◌, ◌∙◌, sym, refl, inl, inr, false, some, List, ◌++◌, length, get_elem?, set,
  get_elem?-set, get_elem?-set_self, get_elem?-set_ne, get_elem?-append, get_elem?-append_new,
  get_elem?-append_inv, get_elem?-lt, lookup, insert, erase, lookup-insert-some, lookup-erase-some,
  arith,
}
use native.Mathlib.Decide.{ℕ_discrete}
use rtq_go_endpoint.External.{Rtp}
use rtq_go_endpoint.Adaption.{LoopVars}
use rtq_go_endpoint.Adaption.Rate.{IsValid, initial-IsValid}
use rtq_go_endpoint.Adaption.Interceptor.{
  LocalStream, Worker, starting, looping, State, new_sender_interceptor, new_local_stream,
  bind_local_stream,
}

module _ (rtp : Rtp) where
  open rtp use {Packet}

  -- One stream: its bitrate is on the ladder, and what went into the channel is what was written,
  -- then what waits, in that order.
  pub record Sound (ls : LocalStream rtp) : Type 0 where
    pub rate : IsValid ls.target_bitrate
    pub in_order : ls.sent ≡ ls.written ++ ls.queue

  pub record Inv (s : State rtp) : Type 0 where
    pub sound : (p : ℕ) (ls : LocalStream rtp) → get_elem? s.heap p ≡ some ls → Sound ls
    pub mapped :
        (k p : ℕ)
        → lookup k s.streams ≡ some p
        → (ls : LocalStream rtp) × (get_elem? s.heap p ≡ some ls) × (ls.queue_closed ≡ false)
    pub unshared : (j k p : ℕ) → lookup j s.streams ≡ some p → lookup k s.streams ≡ some p → j ≡ k
    pub placed :
        (w p : ℕ) (vars : LoopVars)
        → get_elem? s.workers w ≡ some (looping p vars)
        → (ls : LocalStream rtp) × (get_elem? s.heap p ≡ some ls)

  pub new-Inv : Inv (new_sender_interceptor rtp)
  unfolding new_sender_interceptor lookup
  new-Inv = record {
    sound = λ p ls h. absurd (cc);
    mapped = λ k p h. absurd (cc);
    unshared = λ j k p h h'. absurd (cc);
    placed = λ w p vars h. absurd (cc);
  }

  -- A stream is changed in place.
  module _ {s : State rtp} (inv : Inv s) (ptr : ℕ) {ls ls' : LocalStream rtp}
      (here : get_elem? s.heap ptr ≡ some ls) (good : Sound ls') where
    abbrev pub heap' : List (LocalStream rtp)
    heap' = set s.heap ptr ls'

    set-Sound : (p : ℕ) (x : LocalStream rtp) → get_elem? heap' p ≡ some x → Sound x
    set-Sound p x h = elim (get_elem?-set s.heap ptr p ls' h) [
      | inl (_, e) ↦ rw e good
      | inr (_, old) ↦ inv.sound p x old
    ]

    set-there :
        (p : ℕ) (x : LocalStream rtp)
        → get_elem? s.heap p ≡ some x
        → (y : LocalStream rtp) × (get_elem? heap' p ≡ some y)
          × (((ptr ≡ p) × (y ≡ ls')) ⊎ ((ptr ≢ p) × (y ≡ x)))
    set-there p x h = elim (ℕ_discrete ptr p) [
      | yes e ↦ (ls', rw (← e) (get_elem?-set_self s.heap ptr ls' here), inl (e, refl))
      | no ne ↦ (x, get_elem?-set_ne s.heap ptr p ls' ne ∙ h, inr (ne, refl))
    ]

    set-placed :
        (w p : ℕ) (vars : LoopVars)
        → get_elem? s.workers w ≡ some (looping p vars)
        → (x : LocalStream rtp) × (get_elem? heap' p ≡ some x)
    set-placed w p vars h =
        let (x, e) = inv.placed w p vars h in let (y, f, _) = set-there p x e in (y, f)

    pub set-Inv : ls'.queue_closed ≡ ls.queue_closed → Inv (record s { heap = heap' })
    set-Inv same = record {
      sound = set-Sound;
      mapped = λ k p h.
          let (x, e, open_x) = inv.mapped k p h in
          let (y, f, which) = set-there p x e in
          (y, f, elim which [ inl (e', g) ↦ ground arith | inr (_, g) ↦ rw g open_x ]);
      unshared = inv.unshared;
      placed = set-placed;
    }

    -- The stream is closed, and its key taken out of the map.
    pub erase-Inv :
        (ssrc : ℕ)
        → lookup ssrc s.streams ≡ some ptr
        → Inv (record s { heap = heap'; streams = erase ssrc s.streams })
    erase-Inv ssrc at = record {
      sound = set-Sound;
      mapped = λ k p h.
          let (ne, old) = lookup-erase-some ssrc k s.streams h in
          let (x, e, open_x) = inv.mapped k p old in
          let (y, f, which) = set-there p x e in
          (
            y,
            f,
            elim which [
              | inl (e', g) ↦ absurd (ne (inv.unshared ssrc k ptr at (rw e' old)))
              | inr (_, g) ↦ rw g open_x
            ],
          );
      unshared = λ j k p h h'.
          inv.unshared j k p (lookup-erase-some ssrc j s.streams h).1
            (lookup-erase-some ssrc k s.streams h').1;
      placed = set-placed;
    }

  pub set_worker-Inv :
      {s : State rtp}
      → Inv s
      → (w : ℕ) (worker : Worker rtp)
      → ((p : ℕ) (vars : LoopVars)
          → worker ≡ looping p vars
          → (ls : LocalStream rtp) × (get_elem? s.heap p ≡ some ls))
      → Inv (record s { workers = set s.workers w worker })
  set_worker-Inv {s} inv w worker ok = record {
    sound = inv.sound;
    mapped = inv.mapped;
    unshared = inv.unshared;
    placed = λ v p vars h. elim (get_elem?-set s.workers w v worker h) [
      | inl (_, e) ↦ ok p vars (sym e)
      | inr (_, old) ↦ inv.placed v p vars old
    ];
  }

  -- No key had the pointer that `BindLocalStream` makes.
  not-mapped : {s : State rtp} → Inv s → (k p : ℕ) → lookup k s.streams ≡ some p → p ≢ length s.heap
  not-mapped {s} inv k p h e =
      let (ls, at, _) = inv.mapped k p h in omega (arith, get_elem?-lt s.heap p at)

  bind-unshared :
      {s : State rtp} (ssrc : ℕ)
      → Inv s
      → (j k p : ℕ) → lookup j (insert ssrc (length s.heap) s.streams) ≡ some p
      → lookup k (insert ssrc (length s.heap) s.streams) ≡ some p
      → j ≡ k
  bind-unshared {s} ssrc inv j k p h h' =
      elim (lookup-insert-some ssrc j (length s.heap) s.streams h) [
        | inl (e, q) ↦ elim (lookup-insert-some ssrc k (length s.heap) s.streams h') [
          | inl (e', _) ↦ sym e ∙ e'
          | inr (_, old) ↦ absurd (not-mapped inv k p old q)
        ]
        | inr (_, old) ↦ elim (lookup-insert-some ssrc k (length s.heap) s.streams h') [
          | inl (_, q) ↦ absurd (not-mapped inv j p old q)
          | inr (_, old') ↦ inv.unshared j k p old old'
        ]
      ]

  pub bind-Inv : {s : State rtp} (ssrc : ℕ) → Inv s → Inv (bind_local_stream rtp ssrc s)
  unfolding bind_local_stream
  bind-Inv {s} ssrc inv = record {
    sound = λ p ls h. elim (get_elem?-append_inv s.heap p (new_local_stream rtp) h) [
      | inl (_, e) ↦ rw e (record { rate = initial-IsValid; in_order = refl })
      | inr old ↦ inv.sound p ls old
    ];
    mapped = λ k p h. elim (lookup-insert-some ssrc k (length s.heap) s.streams h) [
      | inl (_, e) ↦
          (new_local_stream rtp, rw e (get_elem?-append_new s.heap (new_local_stream rtp)), refl)
      | inr (_, old) ↦
          let (ls, e, o) = inv.mapped k p old in
          (ls, get_elem?-append s.heap p (new_local_stream rtp) e, o)
    ];
    unshared = bind-unshared ssrc inv;
    placed = λ w p vars h. elim (get_elem?-append_inv s.workers w (starting ssrc) h) [
      | inl (_, e) ↦ absurd (cc)
      | inr old ↦
          let (ls, e) = inv.placed w p vars old in
          (ls, get_elem?-append s.heap p (new_local_stream rtp) e)
    ];
  }
