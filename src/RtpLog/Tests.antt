-- ===== src/RtpLog/Tests.antt =====
-- internal/utils/rtp_log_interceptor.go: two packets, then two calls of `Close`, of which one returns.
use rtq_go_endpoint.Common.{
  ℕ, ◌+◌, ◌≡◌, ◌⊎◌, refl, true, Option, none, some, List, [], ◌∷◌, map, arith,
}
use rtq_go_endpoint.RtpLog.Text.{
  Bytes, RtcpContent, RtcpPacket, raw_packet, RtpPacket, incoming, outgoing,
}
use rtq_go_endpoint.RtpLog.Text.Lines.{Entry, entry, read_log, rtp_lines, read_log-rtp_lines}
use rtq_go_endpoint.RtpLog.{
  running, gone, State, new_rtp_log_interceptor, rtcp_in, rtp_in, rtp_out, write_line, Event, sends,
  starts_close, closes_done, leaves, meets, blocked, goes, step, run,
}
use rtq_go_endpoint.RtpLog.Growth.{rtcp_lines}
use rtq_go_endpoint.RtpLog.Logged.{logs_complete}
use rtq_go_endpoint.RtpLog.Closing.{close_returns_once, close-returns}
use rtq_go_endpoint.RtpLog.Bound.{Call, reads_rtp, writes_rtp, reads_rtcp}
use rtq_go_endpoint.RtpLog.Bound.Calls.{sent_by, rtp_through, rtcp_through, calls_logged}

abbrev packet : RtpPacket
packet = record {
  payload_type = 96;
  ssrc = 3_735_928_559;
  sequence_number = 65_535;
  timestamp = 1_700_000_000;
  marker = true;
  payload = 1 ∷ 2 ∷ 3 ∷ [];
  receive_time = 25_000_000;
}

abbrev feedback : RtcpPacket
feedback = record { packet = raw_packet (143 ∷ 205 ∷ []); receive_time = 30_000_000 }

abbrev logged : Entry
logged = record {
  millis = 25;
  payload_type = 96;
  ssrc = 3_735_928_559;
  sequence_number = 65_535;
  timestamp = 1_700_000_000;
  marker = true;
  size = 3;
}

two_lines_read :
    read_log (rtp_lines outgoing (packet ∷ packet ∷ [])) ≡ some logged ∷ some logged ∷ []
two_lines_read = read_log-rtp_lines outgoing (packet ∷ packet ∷ [])

abbrev steps : List Event
steps =
    sends (rtp_in packet)
    ∷ sends (rtcp_in feedback)
    ∷ starts_close
    ∷ closes_done
    ∷ starts_close
    ∷ []

abbrev after : State
after = record {
  streams =
      write_line (rtcp_in feedback) (write_line (rtp_in packet) new_rtp_log_interceptor.streams);
  is_done = true;
  loop = running;
  closing = 0;
  waiting = 2;
  returned = 0;
}

steps-run : run steps new_rtp_log_interceptor ≡ goes after
unfolding run step
steps-run = refl

logs_complete_example :
    (read_log after.streams.rtp_in_stream ≡ some logged ∷ [])
    × ((read_log after.streams.rtp_out_stream ≡ [])
        × ((after.streams.rtcp_in_stream ≡ rtcp_lines incoming (feedback ∷ []))
            × (after.streams.rtcp_out_stream ≡ rtcp_lines outgoing [])))
logs_complete_example = logs_complete steps after steps-run

close-returns_example :
    (s' : State) × (((run (meets ∷ []) after ≡ goes s')
        ⊎ (run (leaves ∷ meets ∷ []) after ≡ goes s'))
      × ((s'.returned ≡ 1) × (s'.waiting + 1 ≡ 2)))
close-returns_example = close-returns steps after steps-run (omega arith) refl

abbrev shut : State
shut = record after { loop = gone; waiting = 1; returned = 1 }

shut-run :
    run
      (sends (rtp_in packet)
        ∷ sends (rtcp_in feedback)
        ∷ starts_close
        ∷ closes_done
        ∷ starts_close
        ∷ leaves
        ∷ meets
        ∷ [])
      new_rtp_log_interceptor
    ≡ goes shut
unfolding run step
shut-run = refl

abbrev last : State
last = record shut { waiting = 2 }

close_returns_once_example :
    (last.returned ≡ 1)
    × ((step meets last ≡ blocked) × (step (sends (rtp_out packet)) last ≡ blocked))
unfolding run step
close_returns_once_example =
    close_returns_once
      (sends (rtp_in packet)
        ∷ sends (rtcp_in feedback)
        ∷ starts_close
        ∷ closes_done
        ∷ starts_close
        ∷ leaves
        ∷ meets
        ∷ [])
      (starts_close ∷ []) shut last (rtp_out packet) shut-run refl refl

-- A batch is one raw packet; every packet is `packet` at the time of the call.
abbrev batch_of : Bytes → Option (List RtcpContent)
batch_of bytes = some (raw_packet bytes ∷ [])

abbrev packet_of : Bytes → Option (ℕ → RtpPacket)
packet_of [] = none
packet_of (b ∷ bytes) = some (λ t. record packet { receive_time = t })

-- A read, a read of nothing, a failed write, a batch read.
abbrev four_calls : List (Call batch_of packet_of)
four_calls =
    reads_rtp 5 (some (128 ∷ []))
    ∷ reads_rtp 6 (some [])
    ∷ writes_rtp 7 (λ t. record packet { receive_time = t }) none
    ∷ reads_rtcp (λ k. k) (some (143 ∷ []))
    ∷ []

calls_logged_example :
    (s : State) × (run (map sends (sent_by batch_of packet_of four_calls)) new_rtp_log_interceptor
      ≡ goes s)
    × (read_log s.streams.rtp_in_stream
        ≡ map (λ p. some (entry p)) (rtp_through batch_of packet_of incoming four_calls))
    × (read_log s.streams.rtp_out_stream
        ≡ map (λ p. some (entry p)) (rtp_through batch_of packet_of outgoing four_calls))
    × (s.streams.rtcp_in_stream
        ≡ rtcp_lines incoming (rtcp_through batch_of packet_of incoming four_calls))
    × (s.streams.rtcp_out_stream
        ≡ rtcp_lines outgoing (rtcp_through batch_of packet_of outgoing four_calls))
calls_logged_example = calls_logged batch_of packet_of four_calls
