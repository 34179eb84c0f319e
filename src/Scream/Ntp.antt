-- ===== src/Scream/Ntp.antt =====
-- internal/scream/scream.go: which streams take part, and the 32-bit time stamps of SCReAM. A
-- `time.Time` is the number of nanoseconds since 1970.
use text.Mathlib.Text.{◌==◌ as str_eq}
use Prim.Native.String.{String}
use rtq_go_endpoint.Common.{
  ℕ, ◌-◌, ◌*◌, ◌/◌, ◌%◌, ◌^◌, Bool, true, false, ◌&&◌, List, [], ◌∷◌, if◌then◌else◌,
}
use rtq_go_endpoint.External.{Float64}

-- The fields `Type` and `Parameter` of an entry of `info.RTCPFeedback`.
pub record RtcpFeedback : Type 0 where
  pub type : String
  pub parameter : String

unfoldable pub stream_support_scream : List RtcpFeedback → Bool
stream_support_scream [] = false
stream_support_scream (fb ∷ fbs) =
    if str_eq fb.type "ack" && str_eq fb.parameter "ccfb" then true else stream_support_scream fbs

abbrev pub unix : ℕ → ℕ
unix t = t / 1_000_000_000

abbrev pub unix_micro : ℕ → ℕ
unix_micro t = t / 1_000

module _ (fl : Float64) where
  open fl use {Float, minus, plus, times, of_int, micro, milli, ntp_unit, to_uint64}

  abbrev pub seconds_of_time : ℕ → Float
  seconds_of_time t =
      let secs = unix t in
      let usecs = unix_micro t - secs * 1_000_000 in plus (of_int secs) (times (of_int usecs) micro)

  unfoldable pub get_ntp_t0 : ℕ → Float
  get_ntp_t0 now = minus (seconds_of_time now) milli

  -- `0xFFFFFFFF & ntp64`
  unfoldable pub get_time_between_ntp : Float → ℕ → ℕ
  get_time_between_ntp t0 tx =
      let tt = minus (seconds_of_time tx) t0 in
      let ntp64 = to_uint64 (times tt ntp_unit) in ntp64 % 2 ^ 32
