-- ===== src/Rtsp/Plan.antt =====
-- Which streams `build_rtsp_publication_plan` of rtsp_publisher.cpp accepts, and what it promises.
use insight_io.Base.{
  ◌≡◌, refl, sym, inl, inr, Bool, true, false, not, ◌||◌, Option, none, some, [], ◌∷◌, arith,
  if◌then◌else◌, Text, codes, text_eq, text_eq_refl, is_empty, Bool-cases,
}
use insight_io.Types.{ResolvedCaps, one_of, is_audio}
use insight_io.Rtsp.{
  RtspPublicationPlan, raw_video_pixel_format, raw_input_args, is_pcm_audio, is_passthrough_video,
  input_args_for_caps, output_args_for_caps, no_args, build_rtsp_publication_plan,
}

-- The formats that the publisher can take from a pipe.
abbrev pub publishable : ResolvedCaps → Bool
publishable caps =
    if is_audio caps
    then one_of caps.format
        (codes "u8" ∷ codes "s16le" ∷ codes "s24le" ∷ codes "s32le" ∷ codes "f32le" ∷ [])
    else one_of caps.format (
        codes "mjpeg"
        ∷ codes "h264"
        ∷ codes "h265"
        ∷ codes "hevc"
        ∷ codes "yuyv"
        ∷ codes "uyvy"
        ∷ codes "nv12"
        ∷ codes "nv21"
        ∷ codes "rgb24"
        ∷ codes "bgr24"
        ∷ codes "gray8"
        ∷ [])

raw_input_args-none :
    (caps : ResolvedCaps)
    → no_args (raw_input_args caps)
      ≡ not (
          one_of caps.format (
            codes "yuyv"
            ∷ codes "uyvy"
            ∷ codes "nv12"
            ∷ codes "nv21"
            ∷ codes "rgb24"
            ∷ codes "bgr24"
            ∷ codes "gray8"
            ∷ []))
unfolding raw_input_args raw_video_pixel_format one_of
raw_input_args-none caps = ground arith

input_args-none :
    (caps : ResolvedCaps) → no_args (input_args_for_caps caps) ≡ not (publishable caps)
unfolding input_args_for_caps one_of is_pcm_audio
input_args-none caps = ground (arith, raw_input_args-none caps)

abbrev pub is_some {ℓ} : {A : Type ℓ} → Option A → Bool
is_some none = false
is_some (some a) = true

passthrough-full : (t : Text) → is_passthrough_video t ≡ true → is_empty t ≡ false
unfolding is_passthrough_video one_of text_eq
passthrough-full [] h = sym h
passthrough-full (c ∷ t) h = refl

output_args-full :
    (caps : ResolvedCaps)
    → (no_args (output_args_for_caps caps).0 || is_empty (output_args_for_caps caps).1) ≡ false
unfolding output_args_for_caps
output_args-full caps = ground (arith, passthrough-full caps.format)

passthrough_promise :
    (t : Text)
    → is_passthrough_video t ≡ true
    → one_of
        (if text_eq t (codes "hevc") then codes "h265" else t)
        (codes "h264" ∷ codes "h265" ∷ [])
      ≡ true
unfolding is_passthrough_video one_of text_eq
passthrough_promise t h = elim (Bool-cases (text_eq t (codes "hevc"))) [
  | inl hevc ↦ rw hevc refl
  | inr other ↦ rw other (ground arith)
]

h264_promise : one_of (codes "h264") (codes "h264" ∷ codes "h265" ∷ []) ≡ true
unfolding one_of text_eq
h264_promise = refl

-- What the output side promises.
promise :
    (caps : ResolvedCaps)
    → (if is_audio caps
        then text_eq (output_args_for_caps caps).1 (codes "aac")
        else one_of (output_args_for_caps caps).1 (codes "h264" ∷ codes "h265" ∷ []))
      ≡ true
unfolding output_args_for_caps
promise caps =
    ground (arith, passthrough_promise caps.format, h264_promise, text_eq_refl (codes "aac"))

-- There is a plan exactly for the formats that the publisher can take from a pipe.
pub plan-publishable :
    (caps : ResolvedCaps) → is_some (build_rtsp_publication_plan caps) ≡ publishable caps
unfolding build_rtsp_publication_plan
plan-publishable caps = ground (arith, input_args-none caps, output_args-full caps)

-- A plan names the format of the capabilities, and promises AAC for audio and H.264 or H.265 for
-- video.
pub plan_promise :
    (caps : ResolvedCaps) (plan : RtspPublicationPlan)
    → build_rtsp_publication_plan caps ≡ some plan
    → (plan.actual_format ≡ caps.format)
      × (if is_audio caps
          then text_eq plan.promised_format (codes "aac")
          else one_of plan.promised_format (codes "h264" ∷ codes "h265" ∷ []))
        ≡ true
unfolding build_rtsp_publication_plan
plan_promise caps plan e = ground (arith, promise caps)
