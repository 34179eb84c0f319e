-- ===== src/Lib.antt =====
-- rtq-go-endpoint sends and receives video over RTP, on QUIC datagrams or UDP, with a choice of
-- congestion controllers. This library models the parts of it that decide what is sent when.
--
-- The program. main.go opens a transport, the log files and an RTP sender or receiver (`send`,
-- `receive`). The sender's pipeline writes RTP packets through a chain of interceptors: the SCReAM
-- interceptor queues them and lets them go when the controller allows it, the naive interceptor passes
-- them through a channel whose length steers the bitrate. Feedback for SCReAM comes from the receiver in
-- RTCP packets, or is inferred from the acknowledgements and round-trip times of QUIC.
--
-- Which file models which part:
--   Session            main.go: `send` (Session/Send), `receive` (Session/Receive). Session/Closing,
--                      Session/Smooth and Session/Success hold what is proved of them. Session/Command is
--                      `main`, Session/StreamData the two functions that move data on a QUIC stream.
--   Scream/RtpQueue    internal/scream/rtp_queue.go: `queue`, one function per method.
--   Scream/Ssrc        internal/scream/sender_interceptor.go: `extractSSRCs`. Scream/Ssrc/Format is the
--                      packet format, as its writer produces it, Scream/Ssrc/Blocks as its reader meets it.
--   Scream/Ntp         internal/scream/scream.go.
--   Scream/Sender      internal/scream/sender_interceptor.go: the calls of `SenderInterceptor`; its
--                      goroutines, events and reachable states are in Scream/Sender/Loop,
--                      the proofs in Scream/Sender/Queues, Scream/Sender/Alive and
--                      Scream/Sender/Drains.
--   Scream/Receiver    internal/scream/receiver_interceptor.go: `ReceiverInterceptor`.
--   Adaption           internal/utils/rate_adaption_interceptor.go: the control law; its interceptor,
--                      goroutines and reachable states are in Adaption/Interceptor.
--   Tracer             internal/utils/qlog_tracer.go.
--   Rtc/FeedbackInferer  rtc/feedback_inferer.go: the loop `buffer`; Rtc/FeedbackInferer/Acks is
--                      `rtpWriterFunc` and the way of an acknowledgement to that loop.
--   Rtc/Sender         rtc/sender.go: `Write`, `Start`, `runSCReAMStats`, `AcceptFeedback`;
--                      Rtc/Sender/Setup the `Configure…` functions with the switch of main.go that
--                      calls them. Rtc/Writers is what the two writers answer.
--   Rtc/Ending         rtc/sender.go and rtc/receiver.go: the end of `Start` and of `Receive`.
--   Rtc/Receiver       rtc/receiver.go: the chain of readers and the loop of `Receive`.
--   RtpLog             internal/utils/rtp_log_interceptor.go: the loop and `Close`; RtpLog/Text is the
--                      text of the lines, RtpLog/Bound the functions around readers and writers.
--   Logging            internal/utils/logging.go.
--   Transport/Udp      transport/udp.go.
--   Transport/Quic     transport/quic.go: the two functions that open a session; Transport/Quic/Flows is
--                      what runs on it.
--   Gstreamer          internal/gstreamer-src/gst.go and gst.c, internal/gstreamer-sink/gst.go.
--   External           what the code uses of packages outside the repository.
--   Common             shared names, list lemmas, 64-bit words and the outcome of code that can panic.
--
-- How the code corresponds. A struct is a record, a Go method a function of the same name in snake case.
-- Code that may panic returns `Run`. Goroutines are explicit: the state holds where each one stands, an
-- event is one stretch of code of a call or a goroutine, and `Reachable` holds the states that sequences
-- of events lead to. A shared struct stands in a heap, a list, and a pointer is its index. A channel is
-- the list of what it holds; an unbuffered one that only wakes a goroutine is the number of its senders.
-- RTP packets, float64, SCReAM's `Tx` and `Rx` and `sort.Slice` are parameters, with the laws that are
-- used of them, and are instantiated in the tests.
--
-- Bounds and fuel. int and uint64 counters of bytes, losses and drops are the bit patterns of their 64
-- bits; the number of reports of a feedback block wraps at 16 bits. Lengths and counters of rounds are
-- not wrapped. The scan of a feedback packet runs on the packet's length as fuel: a round consumes eight
-- bytes or more.
-- A number is written with as many divisions as the number itself says, which is enough for any base of
-- two or more.
--
-- Not modelled: GStreamer's own work, the parsing of flags, which is that of package flag, and the options of
-- the constructors, which set a field each; float rounding; fairness of the scheduler; mutexes, so that a
-- deadlock on those of the SCReAM interceptor does not show (Scream/Sender says which). The reader of RTCP
-- packets is one event for each batch, and the sends in it do not hold it up. A send to the channels of the
-- interceptors' loops and its receive are one event.
pub mod Adaption
pub mod Common
pub mod External
pub mod Gstreamer
pub mod Logging
pub mod Rtc
pub mod RtpLog
pub mod Scream
pub mod Session
pub mod Tracer
pub mod Transport
