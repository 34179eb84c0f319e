-- ===== src/Session/Success.antt =====
-- main.go: under which condition a task gives its value, and when it ends the function instead.
pub mod Sending
pub mod Receiving
use rtq_go_endpoint.Common.{
  Bool, true, false, Option, none, some, none-some, List, [], ◌∷◌, ◌≡◌, ◌↔◌, ◌⊎◌, ◌∙◌, inl, inr,
  refl, sym, ap, subst, All, Run, returns, panics, Panic, nil_dereference, failed_assertion,
  if◌then◌else◌, Option-cases,
}
use rtq_go_endpoint.Session.Send.{leave, empty_frame}
use rtq_go_endpoint.Session.{
  Transport, quic, udp, other_transport, Controller, nocc, scream, scream_infer, naive_adaption,
  other_controller, Resource, rtcp_in_log, rtp_out_log, rtcp_out_log, rtp_in_log, Call,
  open_session, open_writer, open_reader, get_stream_log, get_rtp_log, new_sender, new_receiver,
  get_cc_log, configure_scream, accept_feedback, configure_infering, configure_naive, Failure,
  failed, World, Frame, Step, goes, stops, panicking, Task, and_then, ◌>>=◌, ◌>>◌, pure, stop,
  panic, opens, defers, open_rtq, connection, session, new_rtq_session, open_log, defer_close,
  acquire, check, try, Outcome, finishing,
}

-- A step that ends the function.
abbrev pub IsEnd : {E A : Type 0} → Step E A → Type 0
IsEnd (goes a) = ⊥
IsEnd (stops e) = Unit
IsEnd (panicking p) = Unit

-- The task gives `v` if `P` holds, and ends the function if not.
pub record GivesIf {E A : Type 0} (P : Type 0) (v : A) (m : Task E A) : Type 0 where
  pub at : (f : Frame) → (P × ((f' : Frame) × (m f ≡ (goes v, f')))) ⊎ ((¬ P) × IsEnd (m f).0)

module _ {E : Type 0} where
  and_then-IsEnd :
      {A B : Type 0} (k : A → Task E B) (r : Step E A × Frame) → IsEnd r.0 → IsEnd (and_then k r).0
  and_then-IsEnd k (goes a, f) h = absurd h
  and_then-IsEnd k (stops e, f) h = tt
  and_then-IsEnd k (panicking p, f) h = tt

  pub bind-GivesIf :
      {A B : Type 0} {P Q : Type 0} {v : A} {u : B} (m : Task E A) (k : A → Task E B)
      → GivesIf P v m
      → GivesIf Q u (k v)
      → GivesIf (P × Q) u (m >>= k)
  bind-GivesIf m k first next = record {
    at = λ f. elim (first.at f) [
      | inl (p, (f', e)) ↦ elim (next.at f') [
        | inl (q, (last, e')) ↦ inl ((p, q), (last, ap (and_then k) e ∙ e'))
        | inr (never, ends) ↦
            inr ((λ pq. never pq.1), subst (λ r. IsEnd (and_then k r).0) (sym e) ends)
      ]
      | inr (never, ends) ↦ inr ((λ pq. never pq.0), and_then-IsEnd k (m f) ends)
    ];
  }

  pub weaken-GivesIf :
      {A : Type 0} {P Q : Type 0} {v : A} {m : Task E A} → (P ↔ Q) → GivesIf P v m → GivesIf Q v m
  weaken-GivesIf (to, from) h = record {
    at = λ f. elim (h.at f) [
      | inl (p, more) ↦ inl (to p, more)
      | inr (never, ends) ↦ inr ((λ q. never (from q)), ends)
    ];
  }

  pub pure-GivesIf : {A : Type 0} (v : A) → GivesIf Unit v (pure {E = E} v)
  pure-GivesIf v = record { at = λ f. inl (tt, (f, refl)) }

  pub check-GivesIf : (wrap : E → Failure E) (o : Option E) → GivesIf (o ≡ none) tt (check wrap o)
  check-GivesIf wrap none = record { at = λ f. inl (refl, (f, refl)) }
  check-GivesIf wrap (some e) = record { at = λ f. inr ((λ h. none-some (sym h)), tt) }

  -- Steps that are followed by a task.
  pub acquire_then :
      {A : Type 0} (r : Resource) {Q : Type 0} {u : A} {k : Task E A}
      → GivesIf Q u k
      → GivesIf Q u (acquire r >> k)
  acquire_then r next = record {
    at = λ f. next.at (record f { opened = r ∷ f.opened; deferred = r ∷ f.deferred });
  }

  pub opens_then :
      {A : Type 0} (r : Resource) {Q : Type 0} {u : A} {k : Task E A}
      → GivesIf Q u k
      → GivesIf Q u (opens r >> k)
  opens_then r next = record { at = λ f. next.at (record f { opened = r ∷ f.opened }) }

  -- With nothing else to hold.
  pub also :
      {A : Type 0} {P : Type 0} {v : A} {m : Task E A} → GivesIf P v m → GivesIf (Unit × P) v m
  also = weaken-GivesIf ((λ h. (tt, h)), (λ h. h.1))

  pub then_pure :
      {A : Type 0} {P : Type 0} (m : Task E (Unit {0})) (v : A)
      → GivesIf P tt m
      → GivesIf P v (m >> pure v)
  then_pure m v h =
      weaken-GivesIf ((λ x. x.0), (λ x. (x, tt))) (bind-GivesIf m (λ _. pure v) h (pure-GivesIf v))

  pub acquire_last : (r : Resource) → GivesIf Unit tt (acquire {E = E} r)
  acquire_last r = record {
    at = λ f. inl (tt, (record f { opened = r ∷ f.opened; deferred = r ∷ f.deferred }, refl));
  }

  pub returned_none-goes :
      (r : Step E (Option (Failure E)) × Frame) → (leave r).result ≡ returns none → IsEnd r.0 → ⊥
  returned_none-goes (goes v, f) h ends = ends
  returned_none-goes (stops e, f) h ends = cc h
  returned_none-goes (panicking p, f) h ends = cc h

  -- A function returns no error if its body gives `none`, and only then.
  pub leave-returns_none_iff :
      {P : Type 0} {v : Option (Failure E)} (body : Task E (Option (Failure E)))
      → GivesIf P v body
      → (leave (body empty_frame)).result ≡ returns none ↔ (P × (v ≡ none))
  leave-returns_none_iff {P} {v} body g = (
    succeeded,
    (λ h. elim (g.at empty_frame) [
      | inl (p, (f, e)) ↦ ap (λ r. (leave r).result) e ∙ ap returns h.1
      | inr (never, ends) ↦ absurd (never h.0)
    ]),
  )
    where
      succeeded : (leave (body empty_frame)).result ≡ returns none → P × (v ≡ none)
      succeeded h = elim (g.at empty_frame) [
        | inl (p, (f, e)) ↦ (
          p,
          (let same : returns v ≡ returns none = ap (λ r. (leave r).result) (sym e) ∙ h in cc same),
        )
        | inr (never, ends) ↦ absurd (returned_none-goes (body empty_frame) h ends)
      ]

abbrev pub IsKnown : Transport → Type 0
IsKnown quic = Unit
IsKnown udp = Unit
IsKnown other_transport = ⊥

module _ {E : Type 0} (w : World E) where
  abbrev pub NoFail : Call → Type 0
  NoFail c = w.fails c ≡ none

  pub try_then :
      {A : Type 0} (c : Call) {Q : Type 0} {u : A} {k : Task E A}
      → GivesIf Q u k
      → GivesIf (NoFail c × Q) u (try w c >> k)
  try_then c {k = k} next =
      bind-GivesIf (try w c) (λ _. k) (check-GivesIf (failed c) (w.fails c)) next

  pub open_rtq_then :
      {A : Type 0} {Q : Type 0} {u : A} {k : Task E A}
      → GivesIf Q u k
      → GivesIf (NoFail new_rtq_session × Q) u (open_rtq w >> k)
  open_rtq_then {k = k} next = bind-GivesIf (open_rtq w) (λ _. k) opened next
    where
      opened : GivesIf (NoFail new_rtq_session) tt (open_rtq w)
      opened =
          weaken-GivesIf ((λ h. h.0), (λ h. (h, tt)))
            (opens_then connection (try_then new_rtq_session (acquire_last session)))

  pub open_log_then :
      {A : Type 0} (r : Resource) {Q : Type 0} {u : A} {k : Task E A}
      → GivesIf Q u k
      → GivesIf Q u (open_log w r >> k)
  open_log_then r {Q} {u} {k} next =
      elim (w.log_opens r) as (λ b. GivesIf Q u ((if b then opens r else pure tt) >> k)) [
        | true ↦ record { at = λ f. next.at (record f { opened = r ∷ f.opened }) }
        | false ↦ record { at = next.at }
      ]

  pub defer_close_then :
      {A : Type 0} (r : Resource) {Q : Type 0} {u : A} {k : Task E A}
      → GivesIf Q u k
      → GivesIf ((w.log_opens r ≡ true) × Q) u (defer_close w r >> k)
  defer_close_then r {k = k} next =
      bind-GivesIf (defer_close w r) (λ _. k)
        (elim (w.log_opens r)
          as (λ b.
            GivesIf (b ≡ true) tt
              (if b then defers {E = E} r else panic {E = E} {A = Unit {0}} nil_dereference)) [
                | true ↦ record {
                  at = λ f. inl (refl, (record f { deferred = r ∷ f.deferred }, refl));
                }
                | false ↦ record { at = λ f. inr ((λ h. cc h), tt) }
              ])
        next

  abbrev pub NoFails : List Call → Type 0
  NoFails cs = All NoFail cs

  -- A call that ends a branch.
  pub try_last : (c : Call) → GivesIf (NoFail c × Unit) tt (try w c)
  try_last c = weaken-GivesIf ((λ h. (h, tt)), (λ h. h.0)) (check-GivesIf (failed c) (w.fails c))
