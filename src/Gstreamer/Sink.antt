-- ===== src/Gstreamer/Sink.antt =====
-- internal/gstreamer-sink/gst.go: the text of the receiver's pipeline.
use Prim.Native.String.{String, ◌++◌ as ◌<>◌}
use text.Mathlib.Text.{◌==◌ as str_eq}
use rtq_go_endpoint.Common.{Option, none, some, if◌then◌else◌}

-- `none` is `ErrUnknownCodec`.
unfoldable pub pipeline_text : String → String → Option String
pipeline_text codec dst =
    if str_eq codec "vp8"
    then some (
        "appsrc name=src ! application/x-rtp, encoding-name=VP8-DRAFT-IETF-01 ! rtpjitterbuffer ! queue ! rtpvp8depay ! decodebin ! "
        <> dst)
    else if str_eq codec "vp9"
    then some (
        "appsrc name=src ! application/x-rtp, encoding-name=VP9-DRAFT-IETF-01 ! rtpjitterbuffer ! queue ! rtpvp9depay ! decodebin ! "
        <> dst)
    else if str_eq codec "h264"
    then some (
        "appsrc name=src ! application/x-rtp ! rtpjitterbuffer ! queue ! rtph264depay ! decodebin ! "
        <> dst)
    else none
