-- ===== src/Gstreamer/Source/Tests.antt =====
-- internal/gstreamer-src/gst.go: three pipelines of which one has an unknown codec, and the pipeline of h264.
use rtq_go_endpoint.Common.{ℕ, ◌≡◌, refl, some, List, [], ◌∷◌, All}
use rtq_go_endpoint.Gstreamer.Source.{
  Pipeline, Bin, handle_pipeline_buffer, set_bit_rate, get_bitrate,
}
use rtq_go_endpoint.Gstreamer.Source.Registry.{Request, create, buffers_reach_writer}
use rtq_go_endpoint.Gstreamer.Source.Properties.{get_bitrate-blind}

abbrev requests : List (Request ℕ)
requests =
    ("vp8", "videotestsrc", 10) ∷ ("av1", "videotestsrc", 11) ∷ ("h264", "videotestsrc", 12) ∷ []

buffers_reach_writer_example :
    All
      (λ (m : Pipeline × ℕ).
        handle_pipeline_buffer ℕ (128 ∷ 96 ∷ []) m.0.id (create ℕ requests []).1
        ≡ some (m.1, 128 ∷ 96 ∷ []))
      (create ℕ requests []).0
buffers_reach_writer_example = buffers_reach_writer ℕ requests 128 (96 ∷ [])

abbrev h264 : Pipeline
h264 = record { id = 0; pipeline_str = ""; payloader = "rtph264pay"; codec = "h264" }

abbrev bin : Bin
bin = record { elements = "encoder" ∷ "rtph264pay" ∷ "appsink" ∷ []; properties = [] }

bitrate_unread : get_bitrate h264 (set_bit_rate h264 1_000_000 bin) ≡ 0
bitrate_unread = get_bitrate-blind h264 1_000_000 bin refl
