-- ===== src/Catalog/Caps.antt =====
-- The choice among the capabilities of a stream, of backend/src/catalog.cpp.
pub mod Best
use insight_io.Base.{
  ℕ, zero, suc, ◌+◌, Bool, true, false, ◌&&◌, ◌||◌, Option, none, some, List, [], ◌∷◌, ◌++◌, ltb,
  ◌==◌, if◌then◌else◌, Text, codes, text_eq,
}
use insight_io.Types.{ResolvedCaps, StreamInfo, DeviceInfo, channels, sample_rate}
use insight_io.Types.Decimal.{to_string}
use insight_io.Base.Map
use insight_io.Catalog.Profiles.{Profile, profile_eq, find, assign}

unfoldable pub resolution_label : ℕ → ℕ → Text
resolution_label width height =
    if width == 640 && height == 400
    then codes "400p"
    else if width == 640 && height == 480
    then codes "480p"
    else if width == 1280 && height == 720
    then codes "720p"
    else if width == 1280 && height == 800
    then codes "800p"
    else if width == 1920 && height == 1080
    then codes "1080p"
    else if width == 3840 && height == 2160
    then codes "2160p"
    else to_string width ++ b'x' ∷ to_string height

-- The index of the first equal text, or the number of texts.
unfoldable pub index_in : Text → List Text → ℕ
index_in t [] = 0
index_in t (s ∷ ss) = let rest = index_in t ss in if text_eq s t then 0 else suc rest

unfoldable pub video_format_rank : Text → ℕ
unfolding index_in
video_format_rank format =
    index_in format (
      codes "hevc"
      ∷ codes "h265"
      ∷ codes "h264"
      ∷ codes "mjpeg"
      ∷ codes "yuyv"
      ∷ codes "rgb24"
      ∷ [])

unfoldable pub audio_format_rank : Text → ℕ
unfolding index_in
audio_format_rank format =
    index_in format (codes "s16le" ∷ codes "s24le" ∷ codes "s32le" ∷ codes "f32le" ∷ [])

abbrev pub profile_of : ResolvedCaps → Profile
profile_of caps = record { width = caps.width; height = caps.height; fps = caps.fps }

-- Whether no capability was taken before, or one of a higher rank.
abbrev pub improves : ResolvedCaps → Option ResolvedCaps → Bool
improves caps none = true
improves caps (some best) = ltb (video_format_rank caps.format) (video_format_rank best.format)

-- A round of `choose_video_caps_by_profile`.
unfoldable pub choose_round :
    List (Profile × ResolvedCaps) → ResolvedCaps → List (Profile × ResolvedCaps)
choose_round chosen caps =
    if improves caps (find (profile_of caps) chosen)
    then assign (profile_of caps) caps chosen
    else chosen

unfoldable pub choose_rounds :
    List ResolvedCaps → List (Profile × ResolvedCaps) → List (Profile × ResolvedCaps)
choose_rounds [] chosen = chosen
choose_rounds (caps ∷ rest) chosen = choose_rounds rest (choose_round chosen caps)

unfoldable pub choose_video_caps_by_profile : StreamInfo → List (Profile × ResolvedCaps)
unfolding choose_rounds
choose_video_caps_by_profile stream = choose_rounds stream.supported_caps []

unfoldable pub find_in : Text → List StreamInfo → Option StreamInfo
find_in stream_id [] = none
find_in stream_id (stream ∷ streams) =
    let rest = find_in stream_id streams in
    if text_eq stream.stream_id stream_id then some stream else rest

unfoldable pub find_stream : DeviceInfo → Text → Option StreamInfo
unfolding find_in
find_stream device stream_id = find_in stream_id device.streams

unfoldable pub any_cap : Profile → List ResolvedCaps → Bool
any_cap profile [] = false
any_cap profile (caps ∷ rest) = profile_eq (profile_of caps) profile || any_cap profile rest

unfoldable pub contains_cap : StreamInfo → Profile → Bool
unfolding any_cap
contains_cap stream profile = any_cap profile stream.supported_caps

-- A round of `find_cap`.
unfoldable pub find_cap_round : Profile → Option ResolvedCaps → ResolvedCaps → Option ResolvedCaps
find_cap_round profile best caps =
    if profile_eq (profile_of caps) profile && improves caps best then some caps else best

unfoldable pub find_cap_rounds :
    Profile → List ResolvedCaps → Option ResolvedCaps → Option ResolvedCaps
find_cap_rounds profile [] best = best
find_cap_rounds profile (caps ∷ rest) best =
    find_cap_rounds profile rest (find_cap_round profile best caps)

unfoldable pub find_cap : StreamInfo → Profile → Option ResolvedCaps
unfolding find_cap_rounds
find_cap stream profile = find_cap_rounds profile stream.supported_caps none

-- The test of the loop of `build_pipewire_sources` against what was chosen before.
unfoldable pub better_audio : ResolvedCaps → Option ResolvedCaps → Bool
better_audio caps none = true
better_audio caps (some it) =
    let better_rate =
      ((sample_rate caps == 48000) && (if sample_rate it == 48000 then false else true))
      || ltb (sample_rate it) (sample_rate caps) in
    better_rate || ltb (audio_format_rank caps.format) (audio_format_rank it.format)

unfoldable pub choose_audio_round : List (ℕ × ResolvedCaps) → ResolvedCaps → List (ℕ × ResolvedCaps)
choose_audio_round chosen caps =
    if channels caps == 0 || ltb 2 (channels caps)
    then chosen
    else if better_audio caps (Map.lookup (channels caps) chosen)
    then Map.insert (channels caps) caps chosen
    else chosen

unfoldable pub choose_audio_caps :
    List ResolvedCaps → List (ℕ × ResolvedCaps) → List (ℕ × ResolvedCaps)
choose_audio_caps [] chosen = chosen
choose_audio_caps (caps ∷ rest) chosen = choose_audio_caps rest (choose_audio_round chosen caps)
