-- ===== src/Rtc/Receiver/Order.antt =====
-- rtc/receiver.go: what the pipeline and the interceptors have got when the loop of `Receive` ends.
use rtq_go_endpoint.Common.{
  ℕ, ◌≡◌, ◌≢◌, ◌∙◌, refl, sym, subst, ap, true, false, Option, none, some, List, [], ◌∷◌, ◌++◌,
  length, take, map, append-nil, append_assoc, All, if◌then◌else◌, Bool-cases, Option-cases, inl,
  inr,
}
use rtq_go_endpoint.Scream.Ntp.{RtcpFeedback, stream_support_scream}
use rtq_go_endpoint.Rtc.Receiver.{
  Interceptor, rtp_log, scream, Receiver, is_eos, End, connection_failed, got_eos, reader_failed,
  Sink, failed, read, Reader, push_reader, intercepting_reader, bind_remote_stream, bind_all,
  rtp_reader, read_loop,
}

take-length : {A : Type 0} (xs : List A) → take (length xs) xs ≡ xs
take-length [] = refl
take-length (x ∷ xs) = ap (λ ys. x ∷ ys) (take-length xs)

module _ {Packet : Type 0} (unmarshal : List ℕ → Option Packet) where
  -- What one packet adds to `handed`: the SCReAM interceptor takes it if the stream supports SCReAM.
  unfoldable pub deliveries :
      List RtcpFeedback → List Interceptor → Packet → List (Interceptor × Packet)
  deliveries fbs [] pkt = []
  deliveries fbs (rtp_log ∷ is) pkt = (rtp_log, pkt) ∷ deliveries fbs is pkt
  deliveries fbs (scream ∷ is) pkt =
      if stream_support_scream fbs
      then (scream, pkt) ∷ deliveries fbs is pkt
      else deliveries fbs is pkt

  -- On `buffer`, which has the packet `pkt`, the reader leaves the sink with `pushed` and `handed`.
  record Takes (reader : Reader unmarshal) (buffer : List ℕ) (s : Sink unmarshal) (pkt : Packet)
      (pushed : List (List ℕ)) (handed : List (Interceptor × Packet)) : Type 0 where
    packet : unmarshal buffer ≡ some pkt
    reads : reader buffer s ≡ read (length buffer) (record { pushed = pushed; handed = handed })

  intercepting-Takes :
      (i : Interceptor) (reader : Reader unmarshal) (buffer : List ℕ) (s : Sink unmarshal)
      (pkt : Packet) (pushed : List (List ℕ)) (handed : List (Interceptor × Packet))
      → Takes reader buffer s pkt pushed handed
      → Takes
          (intercepting_reader unmarshal i reader)
          buffer
          s
          pkt
          pushed
          (handed ++ ((i, pkt) ∷ []))
  unfolding intercepting_reader
  intercepting-Takes i reader buffer s pkt pushed handed t = record {
    packet = t.packet;
    reads =
        rw (t.reads, intercepting_reader)
          (rw (take-length buffer, intercepting_reader) (rw (t.packet, intercepting_reader) refl));
  }

  bind_all-Takes :
      (fbs : List RtcpFeedback) (is : List Interceptor) (reader : Reader unmarshal)
      (buffer : List ℕ) (s : Sink unmarshal) (pkt : Packet) (pushed : List (List ℕ))
      (handed : List (Interceptor × Packet))
      → Takes reader buffer s pkt pushed handed
      → Takes
          (bind_all unmarshal fbs is reader)
          buffer
          s
          pkt
          pushed
          (handed ++ deliveries fbs is pkt)
  unfolding bind_all bind_remote_stream deliveries
  bind_all-Takes fbs [] reader buffer s pkt pushed handed t =
      subst (λ h. Takes reader buffer s pkt pushed h) (sym (append-nil handed)) t
  bind_all-Takes fbs (rtp_log ∷ is) reader buffer s pkt pushed handed t =
      subst
        (λ h.
          Takes (bind_all unmarshal fbs is (intercepting_reader unmarshal rtp_log reader)) buffer s
            pkt pushed h)
        (append_assoc handed ((rtp_log, pkt) ∷ []) (deliveries fbs is pkt))
        (bind_all-Takes fbs is (intercepting_reader unmarshal rtp_log reader) buffer s pkt pushed
          (handed ++ ((rtp_log, pkt) ∷ []))
          (intercepting-Takes rtp_log reader buffer s pkt pushed handed t))
  bind_all-Takes fbs (scream ∷ is) reader buffer s pkt pushed handed t =
      elim (stream_support_scream fbs)
        as (λ b.
          Takes
            (bind_all unmarshal fbs is
              (if b then intercepting_reader unmarshal scream reader else reader))
            buffer s pkt pushed
            (handed
              ++ (if b then (scream, pkt) ∷ deliveries fbs is pkt else deliveries fbs is pkt))) [
                | true ↦
                    subst
                      (λ h.
                        Takes
                          (bind_all unmarshal fbs is (intercepting_reader unmarshal scream reader))
                          buffer s pkt pushed h)
                      (append_assoc handed ((scream, pkt) ∷ []) (deliveries fbs is pkt))
                      (bind_all-Takes fbs is (intercepting_reader unmarshal scream reader) buffer s
                        pkt pushed (handed ++ ((scream, pkt) ∷ []))
                        (intercepting-Takes scream reader buffer s pkt pushed handed t))
                | false ↦ bind_all-Takes fbs is reader buffer s pkt pushed handed t
              ]

  abbrev pub empty : Sink unmarshal
  empty = record { pushed = []; handed = [] }

  -- The packets of `good`, in order, with what they are read from.
  pub record IsGood (d : List ℕ × Packet) : Type 0 where
    pub packet : unmarshal d.0 ≡ some d.1
    pub no_eos : is_eos d.0 ≡ false

  abbrev pub delivered : Receiver → List (List ℕ × Packet) → List (Interceptor × Packet)
  delivered r [] = []
  delivered r ((buffer, pkt) ∷ good) = deliveries r.rtcp_feedback r.ir pkt ++ delivered r good

  rtp_reader-Takes :
      (r : Receiver) (s : Sink unmarshal) (buffer : List ℕ) (pkt : Packet)
      → unmarshal buffer ≡ some pkt
      → Takes
          (rtp_reader unmarshal r)
          buffer
          s
          pkt
          (s.pushed ++ (buffer ∷ []))
          (s.handed ++ deliveries r.rtcp_feedback r.ir pkt)
  unfolding rtp_reader push_reader
  rtp_reader-Takes r s buffer pkt packet =
      bind_all-Takes r.rtcp_feedback r.ir (push_reader unmarshal) buffer s pkt
        (s.pushed ++ (buffer ∷ [])) s.handed (record { packet = packet; reads = refl })

  read_loop-good :
      (r : Receiver) (good : List (List ℕ × Packet)) (reads : List (Option (List ℕ)))
      (s : Sink unmarshal)
      → All IsGood good
      → read_loop unmarshal (rtp_reader unmarshal r) (map (λ d. some d.0) good ++ reads) s
        ≡ read_loop unmarshal (rtp_reader unmarshal r) reads (record {
          pushed = s.pushed ++ map (λ d. d.0) good;
          handed = s.handed ++ delivered r good;
        })
  unfolding read_loop
  read_loop-good r [] reads s _ = rw (append-nil s.pushed, append-nil s.handed) refl
  read_loop-good r ((buffer, pkt) ∷ good) reads s (g, gs) =
      rw (g.no_eos, read_loop)
        (rw ((rtp_reader-Takes r s buffer pkt g.packet).reads, read_loop)
          (read_loop-good r good reads
              (record {
                pushed = s.pushed ++ (buffer ∷ []);
                handed = s.handed ++ deliveries r.rtcp_feedback r.ir pkt;
              })
              gs
            ∙ rw
                (
                  append_assoc s.pushed (buffer ∷ []) (map (λ (d : List ℕ × Packet). d.0) good),
                  append_assoc s.handed (deliveries r.rtcp_feedback r.ir pkt) (delivered r good),
                )
                refl))

  -- Why the loop ends at what a `Read` of the connection gave, if it does.
  unfoldable pub reason : Option (List ℕ) → Option End
  reason none = some connection_failed
  reason (some buffer) =
      if is_eos buffer
      then some got_eos
      else elim (unmarshal buffer) [ none ↦ some reader_failed | some pkt ↦ none ]

  -- What is pushed at the end: a buffer that has no packet.
  unfoldable pub stray : Option (List ℕ) → List (List ℕ)
  stray none = []
  stray (some buffer) = if is_eos buffer then [] else buffer ∷ []

  bind_all-failed :
      (fbs : List RtcpFeedback) (is : List Interceptor) (reader : Reader unmarshal)
      (buffer : List ℕ) (s s' : Sink unmarshal)
      → reader buffer s ≡ failed s'
      → bind_all unmarshal fbs is reader buffer s ≡ failed s'
  unfolding bind_all bind_remote_stream intercepting_reader
  bind_all-failed fbs [] reader buffer s s' h = h
  bind_all-failed fbs (rtp_log ∷ is) reader buffer s s' h =
      bind_all-failed fbs is (intercepting_reader unmarshal rtp_log reader) buffer s s'
        (rw (h, intercepting_reader) refl)
  bind_all-failed fbs (scream ∷ is) reader buffer s s' h =
      bind_all-failed fbs is _ buffer s s'
        (elim (stream_support_scream fbs)
          as (λ b.
            (if b then intercepting_reader unmarshal scream reader else reader) buffer s
            ≡ failed s') [ true ↦ rw (h, intercepting_reader) refl | false ↦ h ])

  no_packet :
      (r : Receiver) (more : List Interceptor) (buffer : List ℕ) (s : Sink unmarshal)
      → r.ir ≡ rtp_log ∷ more
      → unmarshal buffer ≡ none
      → rtp_reader unmarshal r buffer s
        ≡ failed (record { pushed = s.pushed ++ (buffer ∷ []); handed = s.handed })
  unfolding rtp_reader bind_all bind_remote_stream intercepting_reader push_reader
  no_packet r more buffer s has bare =
      rw (has, bind_all)
        (bind_all-failed r.rtcp_feedback more _ buffer s _
          (rw (take-length buffer, intercepting_reader) (rw (bare, intercepting_reader) refl)))

  read_loop-ends :
      (r : Receiver) (more : List Interceptor) (d : Option (List ℕ))
      (later : List (Option (List ℕ))) (s : Sink unmarshal)
      → r.ir ≡ rtp_log ∷ more
      → reason d ≢ none
      → read_loop unmarshal (rtp_reader unmarshal r) (d ∷ later) s
        ≡ (reason d, record { pushed = s.pushed ++ stray d; handed = s.handed })
  unfolding read_loop reason stray
  read_loop-ends r more none later s has h = rw (append-nil s.pushed) refl
  read_loop-ends r more (some buffer) later s has h = elim (Bool-cases (is_eos buffer)) [
    | inl eos ↦ rw (eos, read_loop, append-nil s.pushed) refl
    | inr other ↦ elim (Option-cases (unmarshal buffer)) [
      | inl bare ↦
          rw (other, bare, read_loop) (rw (no_packet r more buffer s has bare, read_loop) refl)
      | inr (pkt, packet) ↦ absurd (h (rw (other, packet) refl))
    ]
  ]

  -- The receiver's first interceptor is the RTP log. Whatever the connection gave before the loop ends was
  -- pushed into the pipeline, in order, and its packets went to the log, and to the SCReAM interceptor if
  -- the stream supports SCReAM. The loop ends at a failed read, at the message `eos`, or at a buffer
  -- that is no packet, which is pushed as well but goes to no interceptor; nothing is taken after that.
  pub receive_in_order :
      (r : Receiver) (more : List Interceptor) (good : List (List ℕ × Packet)) (d : Option (List ℕ))
      (later : List (Option (List ℕ)))
      → r.ir ≡ rtp_log ∷ more
      → All IsGood good
      → reason d ≢ none
      → read_loop unmarshal (rtp_reader unmarshal r) (map (λ g. some g.0) good ++ (d ∷ later)) empty
        ≡ (reason d, record { pushed = map (λ g. g.0) good ++ stray d; handed = delivered r good })
  receive_in_order r more good d later has gs ends =
      read_loop-good r good (d ∷ later) empty gs ∙ read_loop-ends r more d later _ has ends
