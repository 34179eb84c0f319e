-- ===== src/Rtc/Sender/Encoder.antt =====
-- rtc/sender.go with internal/gstreamer-src/gst.go: the encoder follows the target bitrate.
use Prim.Native.String.{String}
use text.Mathlib.Text.{◌==◌ as str_eq}
use rtq_go_endpoint.Common.{
  ℕ, ◌≡◌, ◌⊎◌, true, false, Option, none, some, List, [], ◌∷◌, u32, ◌==◌, if◌then◌else◌,
}
use rtq_go_endpoint.External.{Float64}
use rtq_go_endpoint.Gstreamer.Source.{
  Pipeline, Bin, has_element, get_property_uint, bitrate_property, bitrate_value, ssrc, set_ssrc,
}
use rtq_go_endpoint.Rtc.Sender.{Stats}

module _ (fl : Float64) where
  open fl use {Float, is_positive, to_uint64}

  -- The latest target bitrate above zero, as an integer.
  pub latest : ℕ → List Float → ℕ
  latest n [] = n
  latest n (bps ∷ rest) = latest (if is_positive bps then to_uint64 bps else n) rest

  abbrev pub encoder_bitrate : Pipeline → Bin → ℕ
  encoder_bitrate p bin = get_property_uint "encoder" (bitrate_property p.codec) bin

  -- The encoder has the bitrate `n`, in its unit, unless none was set yet.
  record Follows (p : Pipeline) (id n : ℕ) (s : Stats fl) : Type 0 where
    last : s.last_bitrate ≡ n
    encoder : has_element "encoder" s.bin.elements ≡ true
    apart : str_eq "encoder" p.payloader ≡ false
    source : ssrc p s.bin ≡ u32 id
    bitrate : (n ≡ 0) ⊎ (encoder_bitrate p s.bin ≡ u32 (bitrate_value p.codec n))

  -- What `Start` has made.
  abbrev Started : (String → Bin) → ℕ → Option (Pipeline × Bin) → Type 0
  Started parse id none = Unit
  Started parse id (some (p, bin)) =
      (str_eq "encoder" p.payloader ≡ false) × (bin ≡ set_ssrc p id (parse p.pipeline_str))
