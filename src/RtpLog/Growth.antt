-- ===== src/RtpLog/Growth.antt =====
-- internal/utils/rtp_log_interceptor.go: what was sent in a run, and what each kind of packet adds to its log.
use rtq_go_endpoint.Common.{◌≡◌, refl, sym, ap, List, [], ◌∷◌, ◌++◌, append-nil, append_assoc}
use rtq_go_endpoint.RtpLog.Text.{
  Bytes, RtcpPacket, rtcp_text, RtpPacket, rtp_text, Direction, incoming, outgoing, line,
}
use rtq_go_endpoint.RtpLog.Text.Lines.{rtp_lines}
use rtq_go_endpoint.RtpLog.{
  Streams, Sent, rtcp_in, rtcp_out, rtp_in, rtp_out, write_line, Event, sends, starts_close,
  closes_done, leaves, meets,
}

-- What was sent in a run, of each kind.
abbrev pub rtp_of : Direction → Sent → List RtpPacket
rtp_of incoming (rtp_in p) = p ∷ []
rtp_of outgoing (rtp_out p) = p ∷ []
rtp_of _ _ = []

abbrev pub rtcp_of : Direction → Sent → List RtcpPacket
rtcp_of incoming (rtcp_in p) = p ∷ []
rtcp_of outgoing (rtcp_out p) = p ∷ []
rtcp_of _ _ = []

abbrev pub single : Sent → List Sent
single sent = sent ∷ []

abbrev pub sent_in : {A : Type 0} → (Sent → List A) → List Event → List A
sent_in of [] = []
sent_in of (sends sent ∷ es) = of sent ++ sent_in of es
sent_in of (starts_close ∷ es) = sent_in of es
sent_in of (closes_done ∷ es) = sent_in of es
sent_in of (leaves ∷ es) = sent_in of es
sent_in of (meets ∷ es) = sent_in of es

unfoldable pub rtcp_lines : Direction → List RtcpPacket → Bytes
rtcp_lines d [] = []
rtcp_lines d (p ∷ ps) = line d (rtcp_text p) ++ rtcp_lines d ps

rtp_lines-append :
    (d : Direction) (ps qs : List RtpPacket)
    → rtp_lines d (ps ++ qs) ≡ rtp_lines d ps ++ rtp_lines d qs
unfolding rtp_lines
rtp_lines-append d [] qs = refl
rtp_lines-append d (p ∷ ps) qs =
    rw (rtp_lines-append d ps qs)
      (sym (append_assoc (line d (rtp_text p)) (rtp_lines d ps) (rtp_lines d qs)))

rtcp_lines-append :
    (d : Direction) (ps qs : List RtcpPacket)
    → rtcp_lines d (ps ++ qs) ≡ rtcp_lines d ps ++ rtcp_lines d qs
unfolding rtcp_lines
rtcp_lines-append d [] qs = refl
rtcp_lines-append d (p ∷ ps) qs =
    rw (rtcp_lines-append d ps qs)
      (sym (append_assoc (line d (rtcp_text p)) (rtcp_lines d ps) (rtcp_lines d qs)))

-- A stream of which each packet sent adds its text.
pub record Grows (A : Type 0) (get : Streams → Bytes) (of : Sent → List A) (text : List A → Bytes)
    : Type 0 where
  pub empty : text [] ≡ []
  pub append : (xs ys : List A) → text (xs ++ ys) ≡ text xs ++ text ys
  pub write : (sent : Sent) (t : Streams) → get (write_line sent t) ≡ get t ++ text (of sent)

pub rtp_in-Grows : Grows RtpPacket (λ t. t.rtp_in_stream) (rtp_of incoming) (rtp_lines incoming)
unfolding write_line rtp_lines
rtp_in-Grows = record {
  empty = refl;
  append = rtp_lines-append incoming;
  write = λ sent t.
      elim sent
        as (λ x.
          (write_line x t).rtp_in_stream
          ≡ t.rtp_in_stream ++ rtp_lines incoming (rtp_of incoming x)) [
            | rtcp_in p ↦ sym (append-nil _)
            | rtcp_out p ↦ sym (append-nil _)
            | rtp_in p ↦ ap (λ l. t.rtp_in_stream ++ l) (sym (append-nil _))
            | rtp_out p ↦ sym (append-nil _)
          ];
}

pub rtp_out-Grows : Grows RtpPacket (λ t. t.rtp_out_stream) (rtp_of outgoing) (rtp_lines outgoing)
unfolding write_line rtp_lines
rtp_out-Grows = record {
  empty = refl;
  append = rtp_lines-append outgoing;
  write = λ sent t.
      elim sent
        as (λ x.
          (write_line x t).rtp_out_stream
          ≡ t.rtp_out_stream ++ rtp_lines outgoing (rtp_of outgoing x)) [
            | rtcp_in p ↦ sym (append-nil _)
            | rtcp_out p ↦ sym (append-nil _)
            | rtp_in p ↦ sym (append-nil _)
            | rtp_out p ↦ ap (λ l. t.rtp_out_stream ++ l) (sym (append-nil _))
          ];
}

pub rtcp_in-Grows :
    Grows RtcpPacket (λ t. t.rtcp_in_stream) (rtcp_of incoming) (rtcp_lines incoming)
unfolding write_line rtcp_lines
rtcp_in-Grows = record {
  empty = refl;
  append = rtcp_lines-append incoming;
  write = λ sent t.
      elim sent
        as (λ x.
          (write_line x t).rtcp_in_stream
          ≡ t.rtcp_in_stream ++ rtcp_lines incoming (rtcp_of incoming x)) [
            | rtcp_in p ↦ ap (λ l. t.rtcp_in_stream ++ l) (sym (append-nil _))
            | rtcp_out p ↦ sym (append-nil _)
            | rtp_in p ↦ sym (append-nil _)
            | rtp_out p ↦ sym (append-nil _)
          ];
}

pub rtcp_out-Grows :
    Grows RtcpPacket (λ t. t.rtcp_out_stream) (rtcp_of outgoing) (rtcp_lines outgoing)
unfolding write_line rtcp_lines
rtcp_out-Grows = record {
  empty = refl;
  append = rtcp_lines-append outgoing;
  write = λ sent t.
      elim sent
        as (λ x.
          (write_line x t).rtcp_out_stream
          ≡ t.rtcp_out_stream ++ rtcp_lines outgoing (rtcp_of outgoing x)) [
            | rtcp_in p ↦ sym (append-nil _)
            | rtcp_out p ↦ ap (λ l. t.rtcp_out_stream ++ l) (sym (append-nil _))
            | rtp_in p ↦ sym (append-nil _)
            | rtp_out p ↦ sym (append-nil _)
          ];
}
