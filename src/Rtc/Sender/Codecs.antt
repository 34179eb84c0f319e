-- ===== src/Rtc/Sender/Codecs.antt =====
-- rtc/sender.go, rtc/receiver.go: with which codecs `Start` and `Receive` fail.
use Prim.Native.String.{String}
use rtq_go_endpoint.Common.{ℕ, Option, none, some, ◌≡◌, ◌↔◌, refl}
use rtq_go_endpoint.Gstreamer.Source.{Bin, Registry, pipeline_text, register, new_pipeline}
use rtq_go_endpoint.Gstreamer.Sink
use rtq_go_endpoint.Gstreamer.Codecs.{Unknown, source-none_iff, sink-none_iff}
use rtq_go_endpoint.Rtc.Sender.{set_up, start}

module _ {W : Type 0} (parse : String → Bin) (codec : String) (stream_ssrc : ℕ) (w : W)
    (pipelines : Registry W) where
  -- `Start` goes on exactly with the text that the switch gives.
  set_up-none_iff :
      (text : Option (String × String))
      → ((set_up parse stream_ssrc (register W codec w pipelines text).0 ≡ none) ↔ (text ≡ none))
  unfolding set_up register
  set_up-none_iff none = ((λ h. refl), (λ h. refl))
  set_up-none_iff (some text) = ((λ h. absurd cc), (λ h. absurd cc))

  -- `Start` of the sender fails for the same codecs as the `NewPipeline` that `Receive` of the receiver calls, and
  -- returns its error: those other than `vp8`, `vp9` and `h264`, whatever the source and the destination.
  pub codecs_agree :
      (src dst : String)
      → (((start parse codec src stream_ssrc w pipelines).0 ≡ none) ↔ Unknown codec)
        × ((Sink.pipeline_text codec dst ≡ none) ↔ Unknown codec)
  unfolding start new_pipeline
  codecs_agree src dst =
      let (to, from) = set_up-none_iff (pipeline_text codec src) in
      let (to', from') = source-none_iff codec src in
      let starts : ((start parse codec src stream_ssrc w pipelines).0 ≡ none) ↔ Unknown codec =
        ((λ h. to' (to h)), (λ h. from (from' h))) in
      (starts, sink-none_iff codec dst)
