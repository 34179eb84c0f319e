-- ===== src/Gstreamer/Codecs.antt =====
-- internal/gstreamer-src/gst.go, internal/gstreamer-sink/gst.go: for which codecs there is a pipeline.
use Prim.Native.String.{String}
use text.Mathlib.Text.{◌==◌ as str_eq}
use text.Mathlib.TextEquality.{eq_iff}
use rtq_go_endpoint.Common.{
  Bool, true, false, none, some, ◌≡◌, ◌↔◌, refl, if◌then◌else◌, Bool-cases, inl, inr,
}
use rtq_go_endpoint.Gstreamer.Source.{pipeline_text}
use rtq_go_endpoint.Gstreamer.Sink

abbrev pub Unknown : String → Type 0
Unknown codec = ¬ (codec ≡ "vp8") × ¬ (codec ≡ "vp9") × ¬ (codec ≡ "h264")

-- The switch gives nothing exactly if no case is taken.
switch-none :
    {A : Type 0} (a b c : Bool) (x y z : A)
    → (if a then some x else if b then some y else if c then some z else none) ≡ none
      ↔ ((a ≡ false) × (b ≡ false) × (c ≡ false))
switch-none true b c x y z = ((λ h. absurd cc), (λ h. absurd (let (e, f, g) = h in cc e)))
switch-none false true c x y z = ((λ h. absurd cc), (λ h. absurd (let (f, e, g) = h in cc e)))
switch-none false false true x y z = ((λ h. absurd cc), (λ h. absurd (let (f, g, e) = h in cc e)))
switch-none false false false x y z = ((λ h. (refl, refl, refl)), (λ h. refl))

differs_iff : (s t : String) → (str_eq s t ≡ false) ↔ ¬ (s ≡ t)
differs_iff s t =
    let (to, from) = eq_iff s t in
    let back : ¬ (s ≡ t) → str_eq s t ≡ false =
      (λ apart. elim (Bool-cases (str_eq s t)) [ inl h ↦ absurd (apart (to h)) | inr h ↦ h ]) in
    ((λ h e. cc (h, from e)), back)

-- Three tests against the three names.
tests_iff :
    (codec : String)
    → ((str_eq codec "vp8" ≡ false) × (str_eq codec "vp9" ≡ false) × (str_eq codec "h264" ≡ false))
      ↔ Unknown codec
tests_iff codec =
    let (to, from) = differs_iff codec "vp8" in
    let (to', from') = differs_iff codec "vp9" in
    let (to'', from'') = differs_iff codec "h264" in
    (
      (λ h. let (a, b, c) = h in (to a, to' b, to'' c)),
      (λ h. let (a, b, c) = h in (from a, from' b, from'' c)),
    )

both : {A B C : Type 0} → A ↔ B → B ↔ C → A ↔ C
both (f, g) (f', g') = ((λ a. f' (f a)), (λ c. g (g' c)))

pub source-none_iff : (codec src : String) → (pipeline_text codec src ≡ none) ↔ Unknown codec
unfolding pipeline_text
source-none_iff codec src =
    both (switch-none (str_eq codec "vp8") (str_eq codec "vp9") (str_eq codec "h264") _ _ _)
      (tests_iff codec)

pub sink-none_iff : (codec dst : String) → (Sink.pipeline_text codec dst ≡ none) ↔ Unknown codec
unfolding Sink.pipeline_text
sink-none_iff codec dst =
    both (switch-none (str_eq codec "vp8") (str_eq codec "vp9") (str_eq codec "h264") _ _ _)
      (tests_iff codec)
