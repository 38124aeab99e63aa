-- ===== src/Runtime/Plan/Payload/Room.antt =====
-- What `payload_size_for_caps` of backend/src/session_service.cpp leaves room for.
use insight_io.Base.{
  ℕ, ◌*◌, ◌/◌, false, ◌||◌, [], ◌∷◌, max, List, refl, ap, ◌∙◌, true, if◌then◌else◌, Text, codes,
  text_eq, u64_mod, ◌≤◌, ◌<◌, ◌^◌, ◌≡◌, arith, mul_mono, mul_mono_right, if_by_cases, Bool-cases,
  inl, inr,
}
use insight_io.Types.{
  ResolvedCaps, one_of, is_audio, sample_rate, channels, is_compressed_video, is_depth_format,
}
use insight_io.Runtime.Plan.Payload.{
  bytes_per_sample, times, audio_payload_size, frame_bytes, video_payload_size,
  payload_size_for_caps,
}

-- Small products do not wrap around.
pixels_bounds :
    (a b : ℕ)
    → 16 ≤ a
    → a ≤ 2 ^ 30
    → 16 ≤ b
    → b ≤ 2 ^ 30
    → (256 ≤ times a b) × (times a b ≡ a * b) × (times a b ≤ 2 ^ 60)
pixels_bounds a b la ha lb hb =
    let low = mul_mono_right 16 a b la in
    let high = mul_mono_right a (2 ^ 30) b ha in (omega arith, omega arith, omega arith)

frame_bytes-bounds :
    (format : Text) (p : ℕ)
    → p ≤ 2 ^ 60
    → (p ≤ frame_bytes format p) × (frame_bytes format p < u64_mod)
unfolding frame_bytes
frame_bytes-bounds format p small =
    let P = λ (n : ℕ). (p ≤ n) × (n < u64_mod) in
    if_by_cases P (is_compressed_video format) _ _ (λ _. (omega arith, omega arith))
      (λ _.
        if_by_cases P (one_of format _) _ _ (λ _. (omega arith, omega arith))
          (λ _.
            if_by_cases P (one_of format _) _ _ (λ _. (omega arith, omega arith))
              (λ _.
                if_by_cases P (one_of format _) _ _ (λ _. (omega arith, omega arith))
                  (λ _.
                    if_by_cases P (one_of format _ || is_depth_format format) _ _
                      (λ _. (omega arith, omega arith)) (λ _. (omega arith, omega arith))))))

video-bounds :
    (caps : ResolvedCaps)
    → caps.width ≤ 2 ^ 30
    → caps.height ≤ 2 ^ 30
    → (256 ≤ video_payload_size caps)
      × (video_payload_size caps < u64_mod)
      × (caps.width * caps.height ≤ video_payload_size caps)
unfolding video_payload_size
video-bounds caps w h =
    let a = max caps.width 16 in
    let b = max caps.height 16 in
    let (low, exact, high) =
      pixels_bounds a b (omega arith) (omega arith) (omega arith) (omega arith) in
    let (kept, fits) = frame_bytes-bounds caps.format (times a b) high in
    let wide = mul_mono_right caps.width a caps.height (omega arith) in
    let tall = mul_mono a caps.height b (omega arith) in (omega arith, fits, omega arith)

audio-bounds :
    (caps : ResolvedCaps) → (4096 ≤ audio_payload_size caps) × (audio_payload_size caps < u64_mod)
unfolding audio_payload_size
audio-bounds caps = (omega arith, omega arith)

-- The bits for each pixel, by format; a format that is not here has 8.
abbrev pub bits_per_pixel : List (Text × ℕ)
bits_per_pixel =
    (codes "rgb24", 24)
    ∷ (codes "bgr24", 24)
    ∷ (codes "rgba", 32)
    ∷ (codes "bgra", 32)
    ∷ (codes "nv12", 12)
    ∷ (codes "nv21", 12)
    ∷ (codes "yuv420", 12)
    ∷ (codes "yvu420", 12)
    ∷ (codes "yuyv", 16)
    ∷ (codes "uyvy", 16)
    ∷ (codes "y16", 16)
    ∷ (codes "z16", 16)
    ∷ (codes "gray16", 16)
    ∷ []

-- The bits for each sample of a channel; a format that is not here has 16.
abbrev pub bits_per_sample : List (Text × ℕ)
bits_per_sample =
    (codes "u8", 8)
    ∷ (codes "s16le", 16)
    ∷ (codes "s16be", 16)
    ∷ (codes "s24le", 32)
    ∷ (codes "s24be", 32)
    ∷ (codes "s32le", 32)
    ∷ (codes "s32be", 32)
    ∷ (codes "f32le", 32)
    ∷ (codes "f32be", 32)
    ∷ []

abbrev pub bits_of : ℕ → List (Text × ℕ) → Text → ℕ
bits_of default [] format = default
bits_of default ((name, bits) ∷ table) format =
    if text_eq format name then bits else bits_of default table format

-- The room for a frame, in exact numbers: for audio 50 ms of samples of all channels, for compressed
-- video a byte for each pixel or 128 KiB, and else the bits of all pixels.
abbrev pub room : ResolvedCaps → ℕ
room caps =
    let area = max caps.width 16 * max caps.height 16 in
    let samples = max 256 (max 8000 (sample_rate caps) / 20) * max 1 (channels caps) in
    if is_audio caps
    then max 4096 (samples * (bits_of 16 bits_per_sample caps.format / 8))
    else if is_compressed_video caps.format
    then max area 131072
    else area * bits_of 8 bits_per_pixel caps.format / 8

sample_lem : (format : Text) → bytes_per_sample format ≡ bits_of 16 bits_per_sample format / 8
unfolding bytes_per_sample one_of
sample_lem format = ground arith

frame_lem :
    (format : Text) (p : ℕ)
    → p ≤ 2 ^ 60
    → is_compressed_video format ≡ false
    → frame_bytes format p ≡ p * bits_of 8 bits_per_pixel format / 8
unfolding frame_bytes one_of is_depth_format
frame_lem format p small raw = ground arith

times_exact : (a b : ℕ) → a ≤ 2 ^ 30 → b ≤ 2 ^ 30 → (times a b ≡ a * b) × (a * b ≤ 2 ^ 60)
times_exact a b ha hb = let high = mul_mono_right a (2 ^ 30) b ha in (omega arith, omega arith)

times_small : (a b : ℕ) → a ≤ 2 ^ 60 → b ≤ 4 → (times a b ≡ a * b) × (a * b ≤ 2 ^ 62)
times_small a b ha hb = let high = mul_mono a b 4 hb in (omega arith, omega arith)

bytes_per_sample-le : (format : Text) → bytes_per_sample format ≤ 4
unfolding bytes_per_sample one_of
bytes_per_sample-le format = ground arith

sample_rate-le : (caps : ResolvedCaps) → sample_rate caps ≤ caps.width
unfolding sample_rate
sample_rate-le caps = ground arith

channels-le : (caps : ResolvedCaps) → channels caps ≤ caps.height
unfolding channels
channels-le caps = ground arith

audio_lem :
    (caps : ResolvedCaps)
    → caps.width ≤ 2 ^ 30
    → caps.height ≤ 2 ^ 30
    → is_audio caps ≡ true
    → (audio_payload_size caps ≡ room caps) × (room caps < u64_mod)
unfolding audio_payload_size
audio_lem caps w h audio =
    let samples = max (max (sample_rate caps) 8000 / 20) 256 in
    let count = max (channels caps) 1 in
    let (exact, high) =
      times_exact samples count (omega (arith, sample_rate-le caps))
        (omega (arith, channels-le caps)) in
    let (whole, fits) =
      times_small (samples * count) (bytes_per_sample caps.format) high
        (bytes_per_sample-le caps.format) in
    let same_samples : max 256 (max 8000 (sample_rate caps) / 20) ≡ samples = omega arith in
    let same_count : max 1 (channels caps) ≡ count = omega arith in
    rw (audio, same_samples, same_count, ← sample_lem caps.format, exact, whole)
      (omega arith, omega arith)

pixel_bits-le : (format : Text) → bits_of 8 bits_per_pixel format ≤ 32
pixel_bits-le format = ground arith

compressed_lem :
    (format : Text) (p : ℕ)
    → is_compressed_video format ≡ true
    → frame_bytes format p ≡ max p 131072
unfolding frame_bytes
compressed_lem format p packed = rw packed refl

video_lem :
    (caps : ResolvedCaps)
    → caps.width ≤ 2 ^ 30
    → caps.height ≤ 2 ^ 30
    → is_audio caps ≡ false
    → (video_payload_size caps ≡ room caps) × (room caps < u64_mod)
unfolding video_payload_size
video_lem caps w h silent =
    let a = max caps.width 16 in
    let b = max caps.height 16 in
    let (exact, high) = times_exact a b (omega arith) (omega arith) in
    let p_small : times a b ≤ 2 ^ 60 = omega arith in
    let sized : frame_bytes caps.format (times a b) ≡ frame_bytes caps.format (a * b) =
      ap (frame_bytes caps.format) exact in
    elim (Bool-cases (is_compressed_video caps.format)) [
      | inl packed ↦
          rw (silent, packed) (sized ∙ compressed_lem caps.format (a * b) packed, omega arith)
      | inr raw ↦
          let bits = bits_of 8 bits_per_pixel caps.format in
          let wide = mul_mono (a * b) bits 32 (pixel_bits-le caps.format) in
          rw (silent, raw) (sized ∙ frame_lem caps.format (a * b) high raw, omega arith)
    ]

-- For capabilities of which the width, or the sample rate, and the height, or the channels, are at most
-- 2 ^ 30, the payload size is exactly the room for a frame of the format: for audio 50 ms of samples of
-- all channels, but at least 256 samples and 4096 bytes; for compressed video a byte for each pixel or
-- 128 KiB; for other video the bits of the format's pixels, with at least 16 in each direction. The
-- products of the code do not wrap around, and the size is at least 256 bytes, less than 2 ^ 64, and
-- for video one byte or more for each pixel.
pub payload_size_for_caps-room :
    (caps : ResolvedCaps)
    → caps.width ≤ 2 ^ 30
    → caps.height ≤ 2 ^ 30
    → (payload_size_for_caps caps ≡ room caps)
      × (room caps < u64_mod)
      × (256 ≤ payload_size_for_caps caps)
      × (is_audio caps ≡ false → caps.width * caps.height ≤ payload_size_for_caps caps)
unfolding payload_size_for_caps
payload_size_for_caps-room caps w h = elim (Bool-cases (is_audio caps)) [
  | inl audio ↦
      let (exact, fits) = audio_lem caps w h audio in
      let (low, _) = audio-bounds caps in
      let choice : payload_size_for_caps caps ≡ audio_payload_size caps = rw audio refl in
      (choice ∙ exact, fits, omega (arith, choice), λ silent. absurd cc)
  | inr video ↦
      let (exact, fits) = video_lem caps w h video in
      let (low, _, full) = video-bounds caps w h in
      let choice : payload_size_for_caps caps ≡ video_payload_size caps = rw video refl in
      (choice ∙ exact, fits, omega (arith, choice), λ _. omega (arith, choice))
]
