-- ===== src/Rtc/Sender.antt =====
-- rtc/sender.go: `Sender`. `write` is the way of a packet from the pipeline into the interceptors,
-- `on_ticker` a tick of `runSCReAMStats`, which hands the target bitrate of the congestion controller
-- to the encoder. `accept_feedback` is the goroutine of `AcceptFeedback`.
pub mod Encoder
pub mod Feedback
pub mod Setup
pub mod Codecs
mod Tests
use rtq_go_endpoint.Common.{
  ℕ, zero, suc, Bool, true, false, ◌&&◌, not, Option, none, some, List, [], ◌∷◌, ◌++◌, length, ◌==◌,
  if◌then◌else◌,
}
use rtq_go_endpoint.External.{Float64}
use Prim.Native.String.{String}
use rtq_go_endpoint.Gstreamer.Source.{Pipeline, Bin, Registry, new_pipeline, set_ssrc, set_bit_rate}

-- `Write`: `unmarshal` is that of pion/rtp, `rtp_writer` the chain of interceptors, which keeps its state
-- in `S`. An error of either is returned with 0 bytes.
unfoldable pub write :
    {Packet E S : Type 0}
    → (unmarshal : List ℕ → Option Packet) → (rtp_writer : Packet → S → Option E × S) → List ℕ
    → S
    → (ℕ × Bool) × S
write unmarshal rtp_writer p s = elim (unmarshal p) [
  | none ↦ ((0, false), s)
  | some pkt ↦
      let (err, s') = rtp_writer pkt s in
      (elim err [ none ↦ (length p, true) | some e ↦ (0, false) ], s')
]

module _ (fl : Float64) where
  open fl use {Float, is_positive, to_uint64}

  -- The variable `lastBitrate`, and the pipeline's elements.
  pub record Stats : Type 0 where
    pub last_bitrate : ℕ
    pub bin : Bin

  apply_bitrate : Pipeline → ℕ → Stats → Stats
  apply_bitrate p bps s =
      if not (s.last_bitrate == bps)
      then record { last_bitrate = bps; bin = set_bit_rate p bps s.bin }
      else s

  -- `case <-ticker.C`: `bps` is what `GetTargetBitrate(0)` gave, whose error is only logged; there is
  -- no pipeline until `Start` has made it.
  unfoldable pub on_ticker : Option Pipeline → Float → Stats → Stats
  unfolding apply_bitrate
  on_ticker none bps s = s
  on_ticker (some p) bps s = if is_positive bps then apply_bitrate p (to_uint64 bps) s else s

  unfoldable pub run_stats : Option Pipeline → List Float → Stats → Stats
  run_stats p [] s = s
  run_stats p (bps ∷ rest) s = run_stats p rest (on_ticker p bps s)

-- `Start` up to the start of the pipeline: the pipeline and its bin, or none with the error of
-- `NewPipeline`. `parse` is `gst_parse_launch`; `stream_ssrc` that of `streamInfo`.
set_up : (String → Bin) → ℕ → Option Pipeline → Option (Pipeline × Bin)
set_up parse stream_ssrc none = none
set_up parse stream_ssrc (some p) = some (p, set_ssrc p stream_ssrc (parse p.pipeline_str))

unfoldable pub start :
    {W : Type 0}
    → (parse : String → Bin) → (codec src : String) → ℕ
    → W
    → Registry W
    → Option (Pipeline × Bin) × Registry W
unfolding set_up
start {W} parse codec src stream_ssrc w pipelines =
    let (made, pipelines') = new_pipeline W codec src w pipelines in
    (set_up parse stream_ssrc made, pipelines')

-- What a `Read` of the RTCP connection gave: the bytes `buffer[:n]`, and whether it failed; and whether `Start`
-- has set `rtcpReader` by then, which is nil before.
pub record ReadResult : Type 0 where
  pub bytes : List ℕ
  pub failed : Bool
  pub has_reader : Bool

-- Where the goroutine is: at the next `Read`, at a send that nobody receives, or gone with a panic.
pub data Progress : Type 0 where
  reading stuck panicked : Progress

-- The goroutine of `AcceptFeedback`: the buffers that were handed to the RTCP reader. `rejects` says on which
-- buffers the reader fails. The channel of errors is unbuffered: `receivers` is how many errors are received, and the
-- goroutine waits for ever at the next.
pub record Accepted : Type 0 where
  pub handed : List (List ℕ)
  pub progress : Progress

-- `s.feedbackErrC <- err` if `failed`: the receivers left, or none if nobody receives
unfoldable pub send_error : Bool → ℕ → Option ℕ
send_error false receivers = some receivers
send_error true zero = none
send_error true (suc receivers) = some receivers

module _ (rejects : List ℕ → Bool) where
  unfoldable pub accept_feedback : ℕ → List ReadResult → List (List ℕ) → Accepted
  accept_feedback receivers [] handed = record { handed = handed; progress = reading }
  accept_feedback receivers (r ∷ rs) handed = elim (send_error r.failed receivers) [
    | none ↦ record { handed = handed; progress = stuck }
    | some left ↦ elim r.has_reader [
      | false ↦ record { handed = handed; progress = panicked }
      | true ↦ elim (send_error (rejects r.bytes) left) [
        | none ↦ record { handed = handed ++ (r.bytes ∷ []); progress = stuck }
        | some left' ↦ accept_feedback left' rs (handed ++ (r.bytes ∷ []))
      ]
    ]
  ]
