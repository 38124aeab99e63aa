-- ===== src/Rtsp.antt =====
-- The publication plan of backend/src/publication/rtsp_publisher.cpp: the arguments that
-- `ffmpeg` is given for one stream, and the format that is promised.
pub mod Plan
use insight_io.Base.{
  ℕ, ◌+◌, Bool, true, false, ◌&&◌, ◌||◌, Option, none, some, List, [], ◌∷◌, ◌++◌, max, ltb, ◌==◌,
  if◌then◌else◌, Text, codes, text_eq, is_empty,
}
use insight_io.Types.{ResolvedCaps, one_of, is_audio, sample_rate, channels}
use insight_io.Types.Decimal.{to_string}

unfoldable pub raw_video_pixel_format : Text → Option Text
raw_video_pixel_format format =
    if text_eq format (codes "yuyv")
    then some (codes "yuyv422")
    else if text_eq format (codes "uyvy")
    then some (codes "uyvy422")
    else if one_of format (codes "nv12" ∷ codes "nv21" ∷ codes "rgb24" ∷ codes "bgr24" ∷ [])
    then some format
    else if text_eq format (codes "gray8")
    then some (codes "gray")
    else none

unfoldable pub is_passthrough_video : Text → Bool
is_passthrough_video format = one_of format (codes "h264" ∷ codes "h265" ∷ codes "hevc" ∷ [])

unfoldable pub is_pcm_audio : Text → Bool
is_pcm_audio format =
    one_of format (codes "u8" ∷ codes "s16le" ∷ codes "s24le" ∷ codes "s32le" ∷ codes "f32le" ∷ [])

abbrev pub frame_rate : ResolvedCaps → Text
frame_rate caps = to_string (if caps.fps == 0 then 30 else caps.fps)

-- The audio branch of `input_args_for_caps`.
unfoldable pub audio_input_args : ResolvedCaps → List Text
audio_input_args caps =
    if is_pcm_audio caps.format
    then codes "-f"
      ∷ caps.format
      ∷ codes "-ar"
      ∷ to_string (sample_rate caps)
      ∷ codes "-ac"
      ∷ to_string (max (channels caps) 1)
      ∷ codes "-i"
      ∷ codes "pipe:0"
      ∷ []
    else []

-- Its last branch.
unfoldable pub raw_input_args : ResolvedCaps → List Text
raw_input_args caps = elim (raw_video_pixel_format caps.format) [
  | none ↦ []
  | some pixel_format ↦
      codes "-f"
      ∷ codes "rawvideo"
      ∷ codes "-pixel_format"
      ∷ pixel_format
      ∷ codes "-video_size"
      ∷ (to_string caps.width ++ codes "x" ++ to_string caps.height)
      ∷ codes "-framerate"
      ∷ frame_rate caps
      ∷ codes "-i"
      ∷ codes "pipe:0"
      ∷ []
]

unfoldable pub input_args_for_caps : ResolvedCaps → List Text
unfolding audio_input_args raw_input_args
input_args_for_caps caps =
    if is_audio caps
    then audio_input_args caps
    else if text_eq caps.format (codes "mjpeg")
    then codes "-f"
      ∷ codes "mjpeg"
      ∷ codes "-framerate"
      ∷ frame_rate caps
      ∷ codes "-i"
      ∷ codes "pipe:0"
      ∷ []
    else if text_eq caps.format (codes "h264")
    then codes "-f" ∷ codes "h264" ∷ codes "-i" ∷ codes "pipe:0" ∷ []
    else if one_of caps.format (codes "h265" ∷ codes "hevc" ∷ [])
    then codes "-f" ∷ codes "hevc" ∷ codes "-i" ∷ codes "pipe:0" ∷ []
    else raw_input_args caps

-- The arguments and `promised_format`.
unfoldable pub output_args_for_caps : ResolvedCaps → List Text × Text
output_args_for_caps caps =
    if is_audio caps
    then (codes "-vn" ∷ codes "-c:a" ∷ codes "aac" ∷ codes "-b:a" ∷ codes "128k" ∷ [], codes "aac")
    else if is_passthrough_video caps.format
    then (
      codes "-an" ∷ codes "-c:v" ∷ codes "copy" ∷ [],
      if text_eq caps.format (codes "hevc") then codes "h265" else caps.format,
    )
    else (
      codes "-an"
          ∷ codes "-c:v"
          ∷ codes "libx264"
          ∷ codes "-preset"
          ∷ codes "ultrafast"
          ∷ codes "-tune"
          ∷ codes "zerolatency"
          ∷ codes "-pix_fmt"
          ∷ codes "yuv420p"
          ∷ codes "-g"
          ∷ frame_rate caps
          ∷ [],
      codes "h264",
    )

pub record RtspPublicationPlan : Type 0 where
  pub promised_format : Text
  pub actual_format : Text
  pub input_args : List Text
  pub output_args : List Text

abbrev pub no_args : List Text → Bool
no_args [] = true
no_args (a ∷ rest) = false

unfoldable pub build_rtsp_publication_plan : ResolvedCaps → Option RtspPublicationPlan
build_rtsp_publication_plan caps =
    let input_args = input_args_for_caps caps in
    let (output_args, promised_format) = output_args_for_caps caps in
    if no_args input_args
    then none
    else if no_args output_args || is_empty promised_format
    then none
    else some (record {
      promised_format = promised_format;
      actual_format = caps.format;
      input_args = input_args;
      output_args = output_args;
    })
