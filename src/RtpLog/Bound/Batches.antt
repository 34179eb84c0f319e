-- ===== src/RtpLog/Bound/Batches.antt =====
-- internal/utils/rtp_log_interceptor.go: batches of packets on the channels, and sends while the loop runs.
use rtq_go_endpoint.Common.{ℕ, ◌+◌, List, [], ◌∷◌, ◌++◌, map, append_assoc, ◌≡◌, ◌∙◌, refl, sym, ap}
use rtq_go_endpoint.RtpLog.Text.{RtcpContent, RtcpPacket, Direction, incoming, outgoing}
use rtq_go_endpoint.RtpLog.Growth.{rtp_of, rtcp_of, sent_in}
use rtq_go_endpoint.RtpLog.{
  Sent, rtcp_in, rtcp_out, State, sends, running, write_line, blocked, panicked, goes, step, run,
  on_sends,
}
use rtq_go_endpoint.RtpLog.Bound.{send_batch}

-- What a list of packets is on its way in one direction, as seen by the log of another.
abbrev pub seen : {A : Type 0} → Direction → Direction → List A → List A
seen incoming incoming xs = xs
seen incoming outgoing xs = []
seen outgoing incoming xs = []
seen outgoing outgoing xs = xs

abbrev pub channel : Direction → RtcpPacket → Sent
channel incoming p = rtcp_in p
channel outgoing p = rtcp_out p

-- The packets of a batch with the readings of the clock.
pub stamped : (ℕ → ℕ) → List RtcpContent → List RtcpPacket
stamped clock [] = []
stamped clock (pkt ∷ pkts) =
    record { packet = pkt; receive_time = clock 0 } ∷ stamped (λ k. clock (k + 1)) pkts

pub batch-rtp :
    (d d' : Direction) (clock : ℕ → ℕ) (pkts : List RtcpContent)
    → sent_in (rtp_of d) (map sends (send_batch (channel d') clock pkts)) ≡ []
unfolding send_batch
batch-rtp d d' clock [] = refl
batch-rtp incoming incoming clock (pkt ∷ pkts) =
    batch-rtp incoming incoming (λ k. clock (k + 1)) pkts
batch-rtp incoming outgoing clock (pkt ∷ pkts) =
    batch-rtp incoming outgoing (λ k. clock (k + 1)) pkts
batch-rtp outgoing incoming clock (pkt ∷ pkts) =
    batch-rtp outgoing incoming (λ k. clock (k + 1)) pkts
batch-rtp outgoing outgoing clock (pkt ∷ pkts) =
    batch-rtp outgoing outgoing (λ k. clock (k + 1)) pkts

pub batch-rtcp :
    (d d' : Direction) (clock : ℕ → ℕ) (pkts : List RtcpContent)
    → sent_in (rtcp_of d) (map sends (send_batch (channel d') clock pkts))
      ≡ seen d d' (stamped clock pkts)
unfolding send_batch stamped
batch-rtcp incoming incoming clock [] = refl
batch-rtcp incoming outgoing clock [] = refl
batch-rtcp outgoing incoming clock [] = refl
batch-rtcp outgoing outgoing clock [] = refl
batch-rtcp incoming incoming clock (pkt ∷ pkts) =
    ap (λ ps. record { packet = pkt; receive_time = clock 0 } ∷ ps)
      (batch-rtcp incoming incoming (λ k. clock (k + 1)) pkts)
batch-rtcp incoming outgoing clock (pkt ∷ pkts) =
    batch-rtcp incoming outgoing (λ k. clock (k + 1)) pkts
batch-rtcp outgoing incoming clock (pkt ∷ pkts) =
    batch-rtcp outgoing incoming (λ k. clock (k + 1)) pkts
batch-rtcp outgoing outgoing clock (pkt ∷ pkts) =
    ap (λ ps. record { packet = pkt; receive_time = clock 0 } ∷ ps)
      (batch-rtcp outgoing outgoing (λ k. clock (k + 1)) pkts)

pub sent_in-append :
    {A : Type 0} (of : Sent → List A) (xs ys : List Sent)
    → sent_in of (map sends (xs ++ ys)) ≡ sent_in of (map sends xs) ++ sent_in of (map sends ys)
sent_in-append of [] ys = refl
sent_in-append of (x ∷ xs) ys =
    ap (λ l. of x ++ l) (sent_in-append of xs ys)
    ∙ sym (append_assoc (of x) (sent_in of (map sends xs)) (sent_in of (map sends ys)))

-- As long as the loop runs, every send is received.
pub run-sends :
    (xs : List Sent) (s : State)
    → s.loop ≡ running
    → (s' : State) × (run (map sends xs) s ≡ goes s')
unfolding run step on_sends
run-sends [] s h = (s, refl)
run-sends (x ∷ xs) s h =
    let t : State = record s { streams = write_line x s.streams } in
    let (s', e) = run-sends xs t h in
    (
      s',
      ap
            (λ p. elim (on_sends p x s) [
              | blocked ↦ blocked
              | panicked ↦ panicked
              | goes u ↦ run (map sends xs) u
            ])
            h
          ∙ e,
    )
