-- ===== src/Gstreamer/Source.antt =====
-- internal/gstreamer-src/gst.go: the pipelines of the sender, with the getter and the setter of
-- internal/gstreamer-src/gst.c that it calls. What `gst_parse_launch` made of a pipeline's text is its
-- bin: the names of the elements and the unsigned properties that were set, newest first; an element
-- that is not there is ignored by the setter and read as 0. A `uint` is cut to the 32 bits of a C int.
pub mod Registry
pub mod Properties
mod Tests
use Prim.Native.String.{String, ◌++◌ as ◌<>◌}
use text.Mathlib.Text.{◌==◌ as str_eq}
use rtq_go_endpoint.Common.{
  ℕ, ◌/◌, Bool, true, false, ◌&&◌, ◌||◌, Option, none, some, List, [], ◌∷◌, ◌++◌, length, lookup,
  insert, u32, if◌then◌else◌,
}

pub record Pipeline : Type 0 where
  pub id : ℕ
  pub pipeline_str : String
  pub payloader : String
  pub codec : String

-- The switch on `codec`: the payloader and the text of the pipeline; `none` is `ErrUnknownCodec`.
unfoldable pub pipeline_text : String → String → Option (String × String)
pipeline_text codec src =
    if str_eq codec "vp8"
    then some (
      "rtpvp8pay",
      src
          <> "! vp8enc name=encoder error-resilient=partitions keyframe-max-dist=10 auto-alt-ref=true cpu-used=5 deadline=1 ! rtpvp8pay name=rtpvp8pay mtu=1200 ! appsink name=appsink",
    )
    else if str_eq codec "vp9"
    then some (
      "rtpvp9pay",
      src
          <> " ! vp9enc name=encoder keyframe-max-dist=10 auto-alt-ref=true cpu-used=5 ! rtpvp9pay name=rtpvp9pay mtu=1200 ! appsink name=appsink",
    )
    else if str_eq codec "h264"
    then some (
      "rtph264pay",
      src
          <> " ! x264enc name=encoder pass=5 speed-preset=4 tune=4 ! rtph264pay name=rtph264pay mtu=1200 ! appsink name=appsink",
    )
    else none

module _ (W : Type 0) where
  -- `pipelines`: the pipeline of each id with its writer
  abbrev pub Registry : Type 0
  Registry = List (ℕ × (Pipeline × W))

  unfoldable pub register :
      String → W → Registry → Option (String × String) → Option Pipeline × Registry
  register codec w pipelines none = (none, pipelines)
  register codec w pipelines (some (payloader, text)) =
      let sp : Pipeline = record {
        id = length pipelines;
        pipeline_str = text;
        payloader = payloader;
        codec = codec;
      } in
      (some sp, insert sp.id (sp, w) pipelines)

  unfoldable pub new_pipeline : String → String → W → Registry → Option Pipeline × Registry
  unfolding register
  new_pipeline codec src w pipelines = register codec w pipelines (pipeline_text codec src)

  -- `goHandlePipelineBuffer`: the writer that gets the buffer, in one `Write`. A buffer for an id that
  -- is not there is discarded, and of an empty one `io.Copy` writes nothing.
  unfoldable pub handle_pipeline_buffer : List ℕ → ℕ → Registry → Option (W × List ℕ)
  handle_pipeline_buffer [] id pipelines = none
  handle_pipeline_buffer (b ∷ bs) id pipelines = elim (lookup id pipelines) [
    | none ↦ none
    | some (sp, w) ↦ some (w, b ∷ bs)
  ]

pub record Bin : Type 0 where
  pub elements : List String
  pub properties : List ((String × String) × ℕ)

-- `gst_bin_get_by_name`
abbrev pub has_element : String → List String → Bool
has_element name [] = false
has_element name (e ∷ es) = str_eq e name || has_element name es

-- `g_object_get` of an unsigned property
abbrev pub property : String → String → List ((String × String) × ℕ) → ℕ
property name prop [] = 0
property name prop (((e, p), v) ∷ ps) =
    if str_eq e name && str_eq p prop then v else property name prop ps

unfoldable pub set_property_uint : String → String → ℕ → Bin → Bin
set_property_uint name prop value bin =
    if has_element name bin.elements
    then record bin { properties = ((name, prop), u32 value) ∷ bin.properties }
    else bin

unfoldable pub get_property_uint : String → String → Bin → ℕ
get_property_uint name prop bin =
    if has_element name bin.elements then property name prop bin.properties else 0

unfoldable pub ssrc : Pipeline → Bin → ℕ
ssrc p bin = get_property_uint p.payloader "ssrc" bin

unfoldable pub set_ssrc : Pipeline → ℕ → Bin → Bin
set_ssrc p value bin = set_property_uint p.payloader "ssrc" value bin

abbrev pub is_vpx : String → Bool
is_vpx codec = str_eq codec "vp8" || str_eq codec "vp9"

-- the name of the encoder's property, and the value in its unit
unfoldable pub bitrate_property : String → String
bitrate_property codec = if is_vpx codec then "target-bitrate" else "bitrate"

unfoldable pub bitrate_value : String → ℕ → ℕ
bitrate_value codec bitrate =
    if is_vpx codec then bitrate else if str_eq codec "h264" then bitrate / 1000 else bitrate

unfoldable pub set_bit_rate : Pipeline → ℕ → Bin → Bin
set_bit_rate p bitrate bin =
    set_property_uint "encoder" (bitrate_property p.codec) (bitrate_value p.codec bitrate) bin

unfoldable pub get_bitrate : Pipeline → Bin → ℕ
get_bitrate p bin = get_property_uint p.codec (bitrate_property p.codec) bin
