-- ===== src/Rtc/Receiver.antt =====
-- rtc/receiver.go: `Receiver` and the goroutine of `Receive`, with the readers that the interceptors of
-- internal/utils/rtp_log_interceptor.go and internal/scream/receiver_interceptor.go put around the one
-- that pushes into the pipeline. The registry of pion/interceptor binds them in the order in which
-- they were added. `unmarshal` is that of pion/rtp. A reader gives the number of bytes, or no number
-- with an error.
pub mod Order
mod Tests
use rtq_go_endpoint.Common.{
  ℕ, Bool, true, false, ◌&&◌, ◌==◌, Option, none, some, List, [], ◌∷◌, ◌++◌, length, take,
  if◌then◌else◌,
}
use rtq_go_endpoint.Scream.Ntp.{RtcpFeedback, stream_support_scream}

pub data Interceptor : Type 0 where
  rtp_log : Interceptor
  scream : Interceptor

pub record Receiver : Type 0 where
  pub rtcp_feedback : List RtcpFeedback
  pub ir : List Interceptor

abbrev pub new_receiver : Receiver
new_receiver = record { rtcp_feedback = []; ir = [] }

unfoldable pub configure_scream_interceptor : Receiver → Receiver
configure_scream_interceptor r = record {
  rtcp_feedback = r.rtcp_feedback ++ (record { type = "ack"; parameter = "ccfb" } ∷ []);
  ir = r.ir ++ (scream ∷ []);
}

unfoldable pub configure_rtp_log_interceptor : Receiver → Receiver
configure_rtp_log_interceptor r = record r { ir = r.ir ++ (rtp_log ∷ []) }

-- `bytes.Compare(buffer[:n], []byte("eos")) == 0`
unfoldable pub is_eos : List ℕ → Bool
is_eos (e ∷ o ∷ s ∷ []) = e == 101 && o == 111 && s == 115
is_eos _ = false

-- What `connErrC` gets.
pub data End : Type 0 where
  connection_failed : End
  got_eos : End
  reader_failed : End

module _ {Packet : Type 0} (unmarshal : List ℕ → Option Packet) where
  -- The buffers pushed into the pipeline, and the packets that the interceptors got, each on its channel:
  -- `rtpIn` of the log, `receive` of SCReAM.
  pub record Sink : Type 0 where
    pub pushed : List (List ℕ)
    pub handed : List (Interceptor × Packet)

  -- What a `Read` returns: an error, or the number of bytes read.
  pub data Result : Type 0 where
    failed : Sink → Result
    read : ℕ → Sink → Result

  abbrev pub Reader : Type 0
  Reader = List ℕ → Sink → Result

  unfoldable pub push_reader : Reader
  push_reader buffer s = read (length buffer) (record s { pushed = s.pushed ++ (buffer ∷ []) })

  -- The readers of both interceptors: read, unmarshal, send the packet on the channel.
  unfoldable pub intercepting_reader : Interceptor → Reader → Reader
  intercepting_reader i reader buffer s = elim (reader buffer s) [
    | failed s' ↦ failed s'
    | read n s' ↦ elim (unmarshal (take n buffer)) [
      | none ↦ failed s'
      | some pkt ↦ read n (record s' { handed = s'.handed ++ ((i, pkt) ∷ []) })
    ]
  ]

  unfoldable pub bind_remote_stream : List RtcpFeedback → Interceptor → Reader → Reader
  bind_remote_stream fbs rtp_log reader = intercepting_reader rtp_log reader
  bind_remote_stream fbs scream reader =
      if stream_support_scream fbs then intercepting_reader scream reader else reader

  unfoldable pub bind_all : List RtcpFeedback → List Interceptor → Reader → Reader
  bind_all fbs [] reader = reader
  bind_all fbs (i ∷ is) reader = bind_all fbs is (bind_remote_stream fbs i reader)

  unfoldable pub rtp_reader : Receiver → Reader
  rtp_reader r = bind_all r.rtcp_feedback r.ir push_reader

  -- The goroutine: what each `Read` of the connection gave, `none` for an error. The reason for which the
  -- loop ended, or `none` if it waits for the next `Read`.
  unfoldable pub read_loop : Reader → List (Option (List ℕ)) → Sink → Option End × Sink
  read_loop reader [] s = (none, s)
  read_loop reader (none ∷ reads) s = (some connection_failed, s)
  read_loop reader (some buffer ∷ reads) s = elim (is_eos buffer) [
    | true ↦ (some got_eos, s)
    | false ↦ elim (reader buffer s) [
      | failed s' ↦ (some reader_failed, s')
      | read n s' ↦ read_loop reader reads s'
    ]
  ]
