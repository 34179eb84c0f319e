-- ===== src/Rtc/Sender/Tests.antt =====
-- rtc/sender.go: an encoder that gets three target bitrates, and a connection that fails.
use Prim.Native.String.{String}
use rtq_go_endpoint.Common.{
  ℕ, ◌≡◌, ◌<◌, ◌≤◌, ◌↔◌, refl, Bool, true, false, List, [], ◌∷◌, map, none,
}
use rtq_go_endpoint.Gstreamer.Source.{Pipeline, Bin, pipeline_text, set_ssrc}
use rtq_go_endpoint.Gstreamer.Sink
use rtq_go_endpoint.Gstreamer.Codecs.{Unknown}
use rtq_go_endpoint.Rtc.Sender.Codecs.{codecs_agree}
use rtq_go_endpoint.Rtc.Sender.{start, ReadResult, stuck, panicked, send_error, accept_feedback}
use rtq_go_endpoint.Rtc.Sender.Feedback.{served, at_end, errors, accept_feedback_ends}

abbrev h264 : Pipeline
h264 = record {
  id = 0;
  pipeline_str =
      "videotestsrc ! x264enc name=encoder pass=5 speed-preset=4 tune=4 ! rtph264pay name=rtph264pay mtu=1200 ! appsink name=appsink";
  payloader = "rtph264pay";
  codec = "h264";
}

abbrev rates : List ℕ
rates = 1_000_000 ∷ 1_500_000 ∷ 0 ∷ []

abbrev parse : String → Bin
parse text = record { elements = "encoder" ∷ "rtph264pay" ∷ "appsink" ∷ []; properties = [] }

abbrev begun : Bin
begun = set_ssrc h264 7 (parse h264.pipeline_str)

abbrev is_empty : List ℕ → Bool
is_empty [] = true
is_empty (b ∷ bs) = false

-- A packet, then the connection is gone.
abbrev reads : List ReadResult
reads =
    record { bytes = 143 ∷ 205 ∷ []; failed = false; has_reader = true }
    ∷ record { bytes = []; failed = true; has_reader = true }
    ∷ []

reads-stuck : (accept_feedback is_empty 1 reads []).progress ≡ stuck
unfolding accept_feedback send_error
reads-stuck = refl

accept_feedback_ends_example :
    ((accept_feedback is_empty 1 reads []).progress ≡ stuck ↔ 1 < errors is_empty reads)
    × (errors is_empty reads ≤ 1
        → ((accept_feedback is_empty 1 reads []).handed
            ≡ map (λ (r : ReadResult). r.bytes) (served is_empty reads))
          × ((accept_feedback is_empty 1 reads []).progress ≡ at_end is_empty reads))
accept_feedback_ends_example = accept_feedback_ends is_empty 1 reads

-- Feedback comes before `Start`.
too_early :
    (accept_feedback is_empty 1
      (record { bytes = 143 ∷ []; failed = false; has_reader = false } ∷ [])
      []).progress
    ≡ panicked
unfolding accept_feedback send_error
too_early = refl

codecs_agree_example :
    (((start {W = ℕ} parse "av1" "videotestsrc" 7 1 []).0 ≡ none) ↔ Unknown "av1")
    × ((Sink.pipeline_text "av1" "autovideosink" ≡ none) ↔ Unknown "av1")
codecs_agree_example = codecs_agree parse "av1" 7 1 [] "videotestsrc" "autovideosink"
