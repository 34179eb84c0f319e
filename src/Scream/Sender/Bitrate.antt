-- ===== src/Scream/Sender/Bitrate.antt =====
-- internal/scream/sender_interceptor.go: `GetTargetBitrate`. `target_bitrate` is `GetTargetBitrate` of scream-go.
use rtq_go_endpoint.Common.{
  ℕ, Option, none, some, ◌≡◌, refl, false, length, lookup, lookup-insert, ==_refl,
}
use rtq_go_endpoint.External.{Rtp, Float64}
use rtq_go_endpoint.Scream.Sender.{ScreamTx, State, call_tx, bind_local_stream}

module _ (rtp : Rtp) (fl : Float64) (stx : ScreamTx rtp fl) where
  open fl use {Float}
  open stx use {Tx}

  -- An unknown SSRC is an error, `none`.
  unfoldable pub get_target_bitrate : (ℕ → Tx → Float) → ℕ → State rtp fl stx → Option Float
  get_target_bitrate target_bitrate ssrc s = elim (lookup ssrc s.rtp_streams) [
    | none ↦ none
    | some ptr ↦ some (target_bitrate ssrc s.tx)
  ]

  -- A stream that was just bound has the bitrate that SCReAM gives after it was registered.
  get_target_bitrate-bind :
      (target_bitrate : ℕ → Tx → Float) (ssrc : ℕ) (s : State rtp fl stx)
      → s.is_closed ≡ false
      → get_target_bitrate target_bitrate ssrc (bind_local_stream rtp fl stx ssrc s)
        ≡ some (target_bitrate ssrc (bind_local_stream rtp fl stx ssrc s).tx)
  unfolding get_target_bitrate bind_local_stream call_tx
  get_target_bitrate-bind target_bitrate ssrc s is_open =
      rw
        (
          is_open,
          get_target_bitrate,
          lookup-insert ssrc ssrc (length s.heap) s.rtp_streams,
          ==_refl ssrc,
        )
        (rw is_open refl)
