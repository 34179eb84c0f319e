-- ===== src/Gstreamer/Source/Properties.antt =====
-- internal/gstreamer-src/gst.go: what is read after a property was set.
use Prim.Native.String.{String}
use text.Mathlib.TextPositions.{eq_refl}
use text.Mathlib.Text.{◌==◌ as str_eq}
use rtq_go_endpoint.Common.{
  ℕ, ◌%◌, ◌^◌, ◌≡◌, refl, Option, none, some, Bool-cases, inl, inr, true, false, ◌∷◌, u32,
  if◌then◌else◌,
}
use rtq_go_endpoint.Gstreamer.Source.{
  Registry, pipeline_text, register, new_pipeline, Pipeline, Bin, has_element, set_property_uint,
  get_property_uint, ssrc, set_ssrc, bitrate_property, bitrate_value, set_bit_rate, get_bitrate,
}

pub set_property_uint-elements :
    (name prop : String) (v : ℕ) (bin : Bin)
    → (set_property_uint name prop v bin).elements ≡ bin.elements
unfolding set_property_uint
set_property_uint-elements name prop v bin =
    elim (has_element name bin.elements)
      as (λ b.
        (if b
          then record bin { properties = ((name, prop), u32 v) ∷ bin.properties }
          else bin).elements
        ≡ bin.elements) [ true ↦ refl | false ↦ refl ]

-- A property of an element that is there keeps what was set, in 32 bits.
pub get-set_property_uint :
    (name prop : String) (v : ℕ) (bin : Bin)
    → has_element name bin.elements ≡ true
    → get_property_uint name prop (set_property_uint name prop v bin) ≡ u32 v
unfolding get_property_uint set_property_uint
get-set_property_uint name prop v bin h =
    rw (h, get_property_uint) (rw (h, eq_refl name, eq_refl prop))

-- A property of another element is not touched.
pub get-set_other :
    (name prop other prop' : String) (v : ℕ) (bin : Bin)
    → str_eq other name ≡ false
    → get_property_uint name prop (set_property_uint other prop' v bin)
      ≡ get_property_uint name prop bin
unfolding get_property_uint set_property_uint
get-set_other name prop other prop' v bin apart =
    elim (has_element other bin.elements)
      as (λ b.
        get_property_uint name prop
          (if b then record bin { properties = ((other, prop'), u32 v) ∷ bin.properties } else bin)
        ≡ get_property_uint name prop bin) [
          | true ↦ rw (apart, get_property_uint) refl
          | false ↦ refl
        ]

-- A pipeline that is made has a payloader that is not the encoder.
abbrev pub Made : Option Pipeline → Type 0
Made none = Unit
Made (some p) = str_eq "encoder" p.payloader ≡ false

abbrev Apart : Option (String × String) → Type 0
Apart none = Unit
Apart (some (payloader, text)) = str_eq "encoder" payloader ≡ false

pipeline_text-Apart : (codec src : String) → Apart (pipeline_text codec src)
unfolding pipeline_text
pipeline_text-Apart codec src = elim (Bool-cases (str_eq codec "vp8")) [
  | inl vp8 ↦ rw (vp8, pipeline_text) refl
  | inr no_vp8 ↦ elim (Bool-cases (str_eq codec "vp9")) [
    | inl vp9 ↦ rw (no_vp8, vp9, pipeline_text) refl
    | inr no_vp9 ↦ elim (Bool-cases (str_eq codec "h264")) [
      | inl h264 ↦ rw (no_vp8, no_vp9, h264, pipeline_text) refl
      | inr no_h264 ↦ rw (no_vp8, no_vp9, no_h264, pipeline_text) tt
    ]
  ]
]

register-Made :
    (W : Type 0) (codec : String) (w : W) (reg : Registry W) (o : Option (String × String))
    → Apart o
    → Made (register W codec w reg o).0
unfolding register
register-Made W codec w reg none h = tt
register-Made W codec w reg (some (payloader, text)) h = h

pub new_pipeline-Made :
    (W : Type 0) (codec src : String) (w : W) (reg : Registry W)
    → Made (new_pipeline W codec src w reg).0
unfolding new_pipeline
new_pipeline-Made W codec src w reg =
    register-Made W codec w reg (pipeline_text codec src) (pipeline_text-Apart codec src)

-- The SSRC that is read is the one that was set, cut to 32 bits, where the payloader is in the pipeline.
pub ssrc-set_ssrc :
    (p : Pipeline) (value : ℕ) (bin : Bin)
    → has_element p.payloader bin.elements ≡ true
    → ssrc p (set_ssrc p value bin) ≡ value % 2 ^ 32
unfolding ssrc set_ssrc
ssrc-set_ssrc p value bin h = get-set_property_uint p.payloader "ssrc" value bin h

-- `GetBitrate` reads an element that has the name of the codec, and the encoder is named otherwise: unless
-- some other element is called like that, it gives 0, whatever bitrate was set.
pub get_bitrate-blind :
    (p : Pipeline) (bitrate : ℕ) (bin : Bin)
    → has_element p.codec bin.elements ≡ false
    → get_bitrate p (set_bit_rate p bitrate bin) ≡ 0
unfolding get_bitrate set_bit_rate get_property_uint
get_bitrate-blind p bitrate bin h = rw (
  set_property_uint-elements "encoder" (bitrate_property p.codec) (bitrate_value p.codec bitrate)
      bin,
  h,
)
