-- ===== src/RtpLog/Bound/Calls.antt =====
-- internal/utils/rtp_log_interceptor.go: what the logs hold after any calls of the four bound functions.
use rtq_go_endpoint.Common.{ℕ, Option, none, some, List, [], ◌∷◌, ◌++◌, map, ◌≡◌, ◌∙◌, refl, ap}
use rtq_go_endpoint.RtpLog.Text.{
  Bytes, RtcpContent, RtcpPacket, RtpPacket, Direction, incoming, outgoing,
}
use rtq_go_endpoint.RtpLog.Text.Lines.{entry, read_log}
use rtq_go_endpoint.RtpLog.Growth.{rtp_of, rtcp_of, sent_in, rtcp_lines}
use rtq_go_endpoint.RtpLog.Logged.{logs_complete}
use rtq_go_endpoint.RtpLog.{Sent, State, sends, new_rtp_log_interceptor, goes, run}
use rtq_go_endpoint.RtpLog.Bound.{
  rtcp_batch, rtp_read, bind_rtcp_reader, bind_rtcp_writer, bind_local_stream, bind_remote_stream,
  Call, reads_rtcp, writes_rtcp, writes_rtp, reads_rtp, call,
}
use rtq_go_endpoint.RtpLog.Bound.Batches.{
  seen, stamped, batch-rtp, batch-rtcp, sent_in-append, run-sends,
}

module _ (unmarshal_rtcp : Bytes → Option (List RtcpContent))
    (unmarshal_rtp : Bytes → Option (ℕ → RtpPacket)) where
  abbrev pub C : Type 0
  C = Call unmarshal_rtcp unmarshal_rtp

  -- What goes through a call: nothing if the read or the unmarshalling fails.
  abbrev rtp_parsed : ℕ → Option (ℕ → RtpPacket) → List RtpPacket
  rtp_parsed d none = []
  rtp_parsed d (some pkt) = pkt d ∷ []

  abbrev rtp_gotten : ℕ → Option Bytes → List RtpPacket
  rtp_gotten d none = []
  rtp_gotten d (some bytes) = rtp_parsed d (unmarshal_rtp bytes)

  abbrev rtcp_parsed : (ℕ → ℕ) → Option (List RtcpContent) → List RtcpPacket
  rtcp_parsed clock none = []
  rtcp_parsed clock (some pkts) = stamped clock pkts

  abbrev rtcp_gotten : (ℕ → ℕ) → Option Bytes → List RtcpPacket
  rtcp_gotten clock none = []
  rtcp_gotten clock (some bytes) = rtcp_parsed clock (unmarshal_rtcp bytes)

  -- The packets of the calls in one direction, in order; those of a write also if it fails.
  pub rtp_through : Direction → List C → List RtpPacket
  rtp_through d [] = []
  rtp_through d (reads_rtp t bytes ∷ cs) = seen d incoming (rtp_gotten t bytes) ++ rtp_through d cs
  rtp_through d (writes_rtp t pkt answer ∷ cs) = seen d outgoing (pkt t ∷ []) ++ rtp_through d cs
  rtp_through d (reads_rtcp clock bytes ∷ cs) = rtp_through d cs
  rtp_through d (writes_rtcp clock pkts answer ∷ cs) = rtp_through d cs

  pub rtcp_through : Direction → List C → List RtcpPacket
  rtcp_through d [] = []
  rtcp_through d (reads_rtcp clock bytes ∷ cs) =
      seen d incoming (rtcp_gotten clock bytes) ++ rtcp_through d cs
  rtcp_through d (writes_rtcp clock pkts answer ∷ cs) =
      seen d outgoing (stamped clock pkts) ++ rtcp_through d cs
  rtcp_through d (reads_rtp t bytes ∷ cs) = rtcp_through d cs
  rtcp_through d (writes_rtp t pkt answer ∷ cs) = rtcp_through d cs

  -- What the calls send, one call after another.
  pub sent_by : List C → List Sent
  sent_by [] = []
  sent_by (c ∷ cs) = (call unmarshal_rtcp unmarshal_rtp c).sent ++ sent_by cs

  rtp_parsed_lem :
      (d : Direction) (t : ℕ) (bytes : Bytes) (pkt : Option (ℕ → RtpPacket))
      → sent_in (rtp_of d) (map sends (rtp_read t bytes pkt).sent)
        ≡ seen d incoming (rtp_parsed t pkt)
  unfolding rtp_read
  rtp_parsed_lem incoming t bytes none = refl
  rtp_parsed_lem outgoing t bytes none = refl
  rtp_parsed_lem incoming t bytes (some pkt) = refl
  rtp_parsed_lem outgoing t bytes (some pkt) = refl

  rtp_parsed_rtcp :
      (d : Direction) (t : ℕ) (bytes : Bytes) (pkt : Option (ℕ → RtpPacket))
      → sent_in (rtcp_of d) (map sends (rtp_read t bytes pkt).sent) ≡ []
  unfolding rtp_read
  rtp_parsed_rtcp d t bytes none = refl
  rtp_parsed_rtcp incoming t bytes (some pkt) = refl
  rtp_parsed_rtcp outgoing t bytes (some pkt) = refl

  rtcp_parsed_lem :
      (d : Direction) (clock : ℕ → ℕ) (bytes : Bytes) (pkts : Option (List RtcpContent))
      → sent_in (rtcp_of d) (map sends (rtcp_batch clock bytes pkts).sent)
        ≡ seen d incoming (rtcp_parsed clock pkts)
  unfolding rtcp_batch
  rtcp_parsed_lem incoming clock bytes none = refl
  rtcp_parsed_lem outgoing clock bytes none = refl
  rtcp_parsed_lem d clock bytes (some pkts) = batch-rtcp d incoming clock pkts

  rtcp_parsed_rtp :
      (d : Direction) (clock : ℕ → ℕ) (bytes : Bytes) (pkts : Option (List RtcpContent))
      → sent_in (rtp_of d) (map sends (rtcp_batch clock bytes pkts).sent) ≡ []
  unfolding rtcp_batch
  rtcp_parsed_rtp d clock bytes none = refl
  rtcp_parsed_rtp d clock bytes (some pkts) = batch-rtp d incoming clock pkts

  -- One call after another adds what it sends.
  added :
      {A : Type 0} (of : Sent → List A) (c : C) (cs : List C) (first rest : List A)
      → sent_in of (map sends (call unmarshal_rtcp unmarshal_rtp c).sent) ≡ first
      → sent_in of (map sends (sent_by cs)) ≡ rest
      → sent_in of (map sends (sent_by (c ∷ cs))) ≡ first ++ rest
  unfolding sent_by
  added of c cs first rest h h' =
      sent_in-append of (call unmarshal_rtcp unmarshal_rtp c).sent (sent_by cs) ∙ rw (h, h') refl

  rtp_sent :
      (d : Direction) (cs : List C) → sent_in (rtp_of d) (map sends (sent_by cs)) ≡ rtp_through d cs
  unfolding sent_by rtp_through call bind_rtcp_reader bind_rtcp_writer bind_local_stream
      bind_remote_stream
  rtp_sent d [] = refl
  rtp_sent incoming (reads_rtp t none ∷ cs) =
      added _ (reads_rtp t none) cs [] _ refl (rtp_sent incoming cs)
  rtp_sent outgoing (reads_rtp t none ∷ cs) =
      added _ (reads_rtp t none) cs [] _ refl (rtp_sent outgoing cs)
  rtp_sent d (reads_rtp t (some bytes) ∷ cs) =
      added _ (reads_rtp t (some bytes)) cs _ _ (rtp_parsed_lem d t bytes (unmarshal_rtp bytes))
        (rtp_sent d cs)
  rtp_sent incoming (writes_rtp t pkt answer ∷ cs) =
      added _ (writes_rtp t pkt answer) cs [] _ refl (rtp_sent incoming cs)
  rtp_sent outgoing (writes_rtp t pkt answer ∷ cs) =
      added _ (writes_rtp t pkt answer) cs (pkt t ∷ []) _ refl (rtp_sent outgoing cs)
  rtp_sent d (reads_rtcp clock none ∷ cs) =
      added _ (reads_rtcp clock none) cs [] _ refl (rtp_sent d cs)
  rtp_sent d (reads_rtcp clock (some bytes) ∷ cs) =
      added _ (reads_rtcp clock (some bytes)) cs [] _
        (rtcp_parsed_rtp d clock bytes (unmarshal_rtcp bytes)) (rtp_sent d cs)
  rtp_sent d (writes_rtcp clock pkts answer ∷ cs) =
      added _ (writes_rtcp clock pkts answer) cs [] _ (batch-rtp d outgoing clock pkts)
        (rtp_sent d cs)

  rtcp_sent :
      (d : Direction) (cs : List C)
      → sent_in (rtcp_of d) (map sends (sent_by cs)) ≡ rtcp_through d cs
  unfolding sent_by rtcp_through call bind_rtcp_reader bind_rtcp_writer bind_local_stream
      bind_remote_stream
  rtcp_sent d [] = refl
  rtcp_sent incoming (reads_rtcp clock none ∷ cs) =
      added _ (reads_rtcp clock none) cs [] _ refl (rtcp_sent incoming cs)
  rtcp_sent outgoing (reads_rtcp clock none ∷ cs) =
      added _ (reads_rtcp clock none) cs [] _ refl (rtcp_sent outgoing cs)
  rtcp_sent d (reads_rtcp clock (some bytes) ∷ cs) =
      added _ (reads_rtcp clock (some bytes)) cs _ _
        (rtcp_parsed_lem d clock bytes (unmarshal_rtcp bytes)) (rtcp_sent d cs)
  rtcp_sent d (writes_rtcp clock pkts answer ∷ cs) =
      added _ (writes_rtcp clock pkts answer) cs _ _ (batch-rtcp d outgoing clock pkts)
        (rtcp_sent d cs)
  rtcp_sent d (reads_rtp t none ∷ cs) = added _ (reads_rtp t none) cs [] _ refl (rtcp_sent d cs)
  rtcp_sent d (reads_rtp t (some bytes) ∷ cs) =
      added _ (reads_rtp t (some bytes)) cs [] _ (rtp_parsed_rtcp d t bytes (unmarshal_rtp bytes))
        (rtcp_sent d cs)
  rtcp_sent incoming (writes_rtp t pkt answer ∷ cs) =
      added _ (writes_rtp t pkt answer) cs [] _ refl (rtcp_sent incoming cs)
  rtcp_sent outgoing (writes_rtp t pkt answer ∷ cs) =
      added _ (writes_rtp t pkt answer) cs [] _ refl (rtcp_sent outgoing cs)

  -- Whatever calls of the four bound functions follow each other while nothing is closed: no send blocks, and then the entries that are
  -- read back from the two RTP logs are those of the packets that went through, in order, and the two RTCP logs are the lines of
  -- theirs. A packet that is read goes through if the read and the unmarshalling succeed, one that is written in any case.
  pub calls_logged :
      (cs : List C)
      → (s : State) × (run (map sends (sent_by cs)) new_rtp_log_interceptor ≡ goes s)
        × (read_log s.streams.rtp_in_stream ≡ map (λ p. some (entry p)) (rtp_through incoming cs))
        × (read_log s.streams.rtp_out_stream ≡ map (λ p. some (entry p)) (rtp_through outgoing cs))
        × (s.streams.rtcp_in_stream ≡ rtcp_lines incoming (rtcp_through incoming cs))
        × (s.streams.rtcp_out_stream ≡ rtcp_lines outgoing (rtcp_through outgoing cs))
  calls_logged cs =
      let (s, e) = run-sends (sent_by cs) new_rtp_log_interceptor refl in
      let (a, (b, (c, d))) = logs_complete (map sends (sent_by cs)) s e in
      (
        s,
        e,
        a ∙ ap (map (λ p. some (entry p))) (rtp_sent incoming cs),
        b ∙ ap (map (λ p. some (entry p))) (rtp_sent outgoing cs),
        c ∙ ap (rtcp_lines incoming) (rtcp_sent incoming cs),
        d ∙ ap (rtcp_lines outgoing) (rtcp_sent outgoing cs),
      )
