-- ===== src/RtpLog/Bound.antt =====
-- internal/utils/rtp_log_interceptor.go: the four functions that the interceptor puts around a reader or a
-- writer: what a call sends on the channels, in order, and what it returns. The answer of the reader or writer inside is an input,
-- `none` an error; unmarshalling is that of pion/rtp and pion/rtcp.
pub mod Batches
pub mod Calls
use rtq_go_endpoint.Common.{ℕ, suc, ◌+◌, Option, none, some, List, [], ◌∷◌, length}
use rtq_go_endpoint.RtpLog.{Sent, rtcp_in, rtcp_out, rtp_in, rtp_out}
use rtq_go_endpoint.RtpLog.Text.{Bytes, RtcpContent, RtcpPacket, RtpPacket}

pub record Returned : Type 0 where
  pub sent : List Sent
  pub result : Option ℕ

-- `time.Since(r.start)` is read for each packet of a batch; `clock` gives the readings.
unfoldable pub send_batch : (RtcpPacket → Sent) → (ℕ → ℕ) → List RtcpContent → List Sent
send_batch channel clock [] = []
send_batch channel clock (pkt ∷ pkts) =
    channel (record { packet = pkt; receive_time = clock 0 })
    ∷ send_batch channel (λ k. clock (k + 1)) pkts

abbrev failure : Returned
failure = record { sent = []; result = none }

unfoldable pub rtcp_batch : (ℕ → ℕ) → Bytes → Option (List RtcpContent) → Returned
rtcp_batch clock bytes none = failure
rtcp_batch clock bytes (some pkts) = record {
  sent = send_batch rtcp_in clock pkts;
  result = some (length bytes);
}

unfoldable pub rtp_read : ℕ → Bytes → Option (ℕ → RtpPacket) → Returned
rtp_read d bytes none = failure
rtp_read d bytes (some pkt) = record { sent = rtp_in (pkt d) ∷ []; result = some (length bytes) }

module _ (unmarshal_rtcp : Bytes → Option (List RtcpContent))
    (unmarshal_rtp : Bytes → Option (ℕ → RtpPacket)) where
  -- The reader gave the bytes `b[:i]`.
  unfoldable pub bind_rtcp_reader : (ℕ → ℕ) → Option Bytes → Returned
  unfolding rtcp_batch
  bind_rtcp_reader clock none = failure
  bind_rtcp_reader clock (some bytes) = rtcp_batch clock bytes (unmarshal_rtcp bytes)

  -- What the writer answers is returned.
  unfoldable pub bind_rtcp_writer : (ℕ → ℕ) → List RtcpContent → Option ℕ → Returned
  bind_rtcp_writer clock pkts answer = record {
    sent = send_batch rtcp_out clock pkts;
    result = answer;
  }

  unfoldable pub bind_local_stream : ℕ → (ℕ → RtpPacket) → Option ℕ → Returned
  bind_local_stream now pkt answer = record { sent = rtp_out (pkt now) ∷ []; result = answer }

  -- The clock is read before the reader.
  unfoldable pub bind_remote_stream : ℕ → Option Bytes → Returned
  unfolding rtp_read
  bind_remote_stream d none = failure
  bind_remote_stream d (some bytes) = rtp_read d bytes (unmarshal_rtp bytes)

  pub data Call : Type 0 where
    reads_rtcp : (ℕ → ℕ) → Option Bytes → Call
    writes_rtcp : (ℕ → ℕ) → List RtcpContent → Option ℕ → Call
    writes_rtp : ℕ → (ℕ → RtpPacket) → Option ℕ → Call
    reads_rtp : ℕ → Option Bytes → Call

  unfoldable pub call : Call → Returned
  unfolding bind_rtcp_reader bind_rtcp_writer bind_local_stream bind_remote_stream
  call (reads_rtcp clock bytes) = bind_rtcp_reader clock bytes
  call (writes_rtcp clock pkts answer) = bind_rtcp_writer clock pkts answer
  call (writes_rtp now pkt answer) = bind_local_stream now pkt answer
  call (reads_rtp d bytes) = bind_remote_stream d bytes
