-- ===== src/RtpLog/Logged.antt =====
-- internal/utils/rtp_log_interceptor.go: what the four logs hold after any run.
use rtq_go_endpoint.Common.{
  zero, suc, ◌+◌, true, false, if◌then◌else◌, ◌≡◌, ◌∙◌, refl, sym, ap, some, List, [], ◌∷◌, ◌++◌,
  map, append-nil, append_assoc,
}
use rtq_go_endpoint.RtpLog.Text.{Bytes, incoming, outgoing}
use rtq_go_endpoint.RtpLog.Text.Lines.{entry, read_log, read_log-rtp_lines}
use rtq_go_endpoint.RtpLog.Growth.{
  rtp_of, rtcp_of, single, sent_in, rtcp_lines, Grows, rtp_in-Grows, rtp_out-Grows, rtcp_in-Grows,
  rtcp_out-Grows,
}
use rtq_go_endpoint.RtpLog.Runs.{After, After-mono, run-step, reached}
use rtq_go_endpoint.RtpLog.{
  running, leaving, gone, Streams, State, new_rtp_log_interceptor, Sent, write_line, Event, sends,
  starts_close, closes_done, leaves, meets, panicked, goes, on_sends, starts, on_closes_done,
  on_leaves, on_meets, step, run,
}

write_all : List Sent → Streams → Streams
write_all [] t = t
write_all (sent ∷ more) t = write_all more (write_line sent t)

write_all-Grows :
    {A : Type 0} (get : Streams → Bytes) (of : Sent → List A) (text : List A → Bytes)
    → Grows A get of text
    → (es : List Event) (t : Streams)
    → get (write_all (sent_in single es) t) ≡ get t ++ text (sent_in of es)
unfolding write_all
write_all-Grows get of text g [] t = rw (g.empty) (sym (append-nil (get t)))
write_all-Grows get of text g (sends sent ∷ es) t =
    write_all-Grows get of text g es (write_line sent t)
    ∙ rw (g.write sent t, g.append (of sent) (sent_in of es))
        (append_assoc (get t) (text (of sent)) (text (sent_in of es)))
write_all-Grows get of text g (starts_close ∷ es) t = write_all-Grows get of text g es t
write_all-Grows get of text g (closes_done ∷ es) t = write_all-Grows get of text g es t
write_all-Grows get of text g (leaves ∷ es) t = write_all-Grows get of text g es t
write_all-Grows get of text g (meets ∷ es) t = write_all-Grows get of text g es t

abbrev Writes : List Sent → State → State → Type 0
Writes sents s s' = s'.streams ≡ write_all sents s.streams

step-Writes : (e : Event) (s : State) → After (Writes (sent_in single (e ∷ [])) s) (step e s)
unfolding step on_sends starts on_closes_done on_leaves on_meets write_all
step-Writes (sends sent) s =
    elim s.loop as (λ ph. After (Writes (sent ∷ []) s) (on_sends ph sent s)) [
      | running ↦ refl
      | leaving ↦ tt
      | gone ↦ tt
    ]
step-Writes starts_close s =
    elim s.is_done
      as (λ done.
        (if done
          then record s { waiting = s.waiting + 1 }
          else record s { closing = s.closing + 1 }).streams
        ≡ s.streams) [ true ↦ refl | false ↦ refl ]
step-Writes closes_done s = elim s.closing as (λ n. After (Writes [] s) (on_closes_done n s)) [
  | zero ↦ tt
  | suc n ↦
      elim s.is_done
        as (λ done. After (Writes [] s) (
          if done
          then panicked
          else goes (record s { is_done = true; closing = n; waiting = s.waiting + 1 }))) [
            | true ↦ tt
            | false ↦ refl
          ]
]
step-Writes leaves s = elim s.loop as (λ ph. After (Writes [] s) (on_leaves ph s.is_done s)) [
  | running ↦ elim s.is_done as (λ done. After (Writes [] s) (on_leaves running done s)) [
    | true ↦ refl
    | false ↦ tt
  ]
  | leaving ↦ tt
  | gone ↦ tt
]
step-Writes meets s = elim s.loop as (λ ph. After (Writes [] s) (on_meets ph s.waiting s)) [
  | running ↦ tt
  | leaving ↦ elim s.waiting as (λ n. After (Writes [] s) (on_meets leaving n s)) [
    | zero ↦ tt
    | suc n ↦ refl
  ]
  | gone ↦ tt
]

sent_in-cons :
    (e : Event) (es : List Event) (t : Streams)
    → write_all (sent_in single (e ∷ es)) t
      ≡ write_all (sent_in single es) (write_all (sent_in single (e ∷ [])) t)
unfolding write_all
sent_in-cons (sends sent) es t = refl
sent_in-cons starts_close es t = refl
sent_in-cons closes_done es t = refl
sent_in-cons leaves es t = refl
sent_in-cons meets es t = refl

run-Writes : (es : List Event) (s : State) → After (Writes (sent_in single es) s) (run es s)
unfolding run write_all
run-Writes [] s = refl
run-Writes (e ∷ es) s =
    run-step (Writes (sent_in single (e ∷ [])) s) _ e es s (step-Writes e s) (λ s' w.
      After-mono (run es s')
        (λ last h. h ∙ (ap (write_all (sent_in single es)) w ∙ sym (sent_in-cons e es s.streams)))
        (run-Writes es s'))

-- The bytes of one log after a run from the start.
stream_after :
    {A : Type 0} (get : Streams → Bytes) (of : Sent → List A) (text : List A → Bytes)
    → Grows A get of text
    → get new_rtp_log_interceptor.streams ≡ []
    → (es : List Event) (s : State) → run es new_rtp_log_interceptor ≡ goes s
    → get s.streams ≡ text (sent_in of es)
stream_after get of text g none_yet es s h =
    ap get (reached _ (run es new_rtp_log_interceptor) s h (run-Writes es new_rtp_log_interceptor))
    ∙ (write_all-Grows get of text g es new_rtp_log_interceptor.streams ∙ rw none_yet refl)

-- After any run, also one with calls of `Close` in it: the entries read back from the two RTP logs are
-- those of the packets that were sent on `rtpIn` and `rtpOut`, in order, and the two RTCP logs are the lines
-- of the packets sent on `rtcpIn` and `rtcpOut`.
pub logs_complete :
    (es : List Event) (s : State)
    → run es new_rtp_log_interceptor ≡ goes s
    → (read_log s.streams.rtp_in_stream ≡ map (λ p. some (entry p)) (sent_in (rtp_of incoming) es))
      × ((read_log s.streams.rtp_out_stream
            ≡ map (λ p. some (entry p)) (sent_in (rtp_of outgoing) es))
          × ((s.streams.rtcp_in_stream ≡ rtcp_lines incoming (sent_in (rtcp_of incoming) es))
              × (s.streams.rtcp_out_stream ≡ rtcp_lines outgoing (sent_in (rtcp_of outgoing) es))))
logs_complete es s h = (
  ap read_log (stream_after _ _ _ rtp_in-Grows refl es s h)
      ∙ read_log-rtp_lines incoming (sent_in (rtp_of incoming) es),
  (
    ap read_log (stream_after _ _ _ rtp_out-Grows refl es s h)
        ∙ read_log-rtp_lines outgoing (sent_in (rtp_of outgoing) es),
    (stream_after _ _ _ rtcp_in-Grows refl es s h, stream_after _ _ _ rtcp_out-Grows refl es s h),
  ),
)
