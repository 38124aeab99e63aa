-- ===== src/Runtime/Plan/Payload.antt =====
-- `payload_size_for_caps` of backend/src/session_service.cpp: the room for a frame.
pub mod Room
use insight_io.Base.{
  ℕ, ◌*◌, ◌/◌, ◌%◌, false, ◌||◌, [], ◌∷◌, max, List, refl, ap, sym, ◌∙◌, true, Bool, if◌then◌else◌,
  Text, codes, text_eq, u64_mod, ◌≤◌, ◌<◌, ◌^◌, ◌≡◌, arith, mul_mono, mul_mono_right, if_by_cases,
  Bool-cases, inl, inr,
}
use insight_io.Types.{
  ResolvedCaps, one_of, is_audio, sample_rate, channels, is_compressed_video, is_depth_format,
}

unfoldable pub bytes_per_sample : Text → ℕ
bytes_per_sample format =
    if text_eq format (codes "u8")
    then 1
    else if one_of format (codes "s16le" ∷ codes "s16be" ∷ [])
    then 2
    else if one_of format (
        codes "s24le"
        ∷ codes "s24be"
        ∷ codes "s32le"
        ∷ codes "s32be"
        ∷ codes "f32le"
        ∷ codes "f32be"
        ∷ [])
    then 4
    else 2

-- Products of `std::size_t`, which has 64 bits.
abbrev pub times : ℕ → ℕ → ℕ
times a b = a * b % u64_mod

unfoldable pub audio_payload_size : ResolvedCaps → ℕ
audio_payload_size caps =
    let samples = max (max (sample_rate caps) 8000 / 20) 256 in
    max (times (times samples (max (channels caps) 1)) (bytes_per_sample caps.format)) 4096

-- The bytes of a video frame of so many pixels.
unfoldable pub frame_bytes : Text → ℕ → ℕ
frame_bytes format pixels =
    if is_compressed_video format
    then max pixels (128 * 1024)
    else if one_of format (codes "rgb24" ∷ codes "bgr24" ∷ [])
    then times pixels 3
    else if one_of format (codes "rgba" ∷ codes "bgra" ∷ [])
    then times pixels 4
    else if one_of format (codes "nv12" ∷ codes "nv21" ∷ codes "yuv420" ∷ codes "yvu420" ∷ [])
    then times pixels 3 / 2
    else if one_of format (codes "yuyv" ∷ codes "uyvy" ∷ []) || is_depth_format format
    then times pixels 2
    else pixels

unfoldable pub video_payload_size : ResolvedCaps → ℕ
video_payload_size caps = frame_bytes caps.format (times (max caps.width 16) (max caps.height 16))

unfoldable pub payload_size_for_caps : ResolvedCaps → ℕ
payload_size_for_caps caps =
    if is_audio caps then audio_payload_size caps else video_payload_size caps
