-- ===== src/Catalog/Sources/Distinct.antt =====
-- The selectors that backend/src/catalog.cpp gives the streams of one device.
use insight_io.Base.{ℕ, ◌≡◌, refl, List, [], ◌∷◌, ◌++◌, map, arith, Text, codes, text_eq}
use insight_io.Json.{JsonApi}
use insight_io.Types.{ResolvedCaps, StreamInfo, DeviceInfo, v4l2, pipe_wire, orbbec, one_of}
use insight_io.Catalog.Caps.{choose_video_caps_by_profile, find_stream, choose_audio_caps}
use insight_io.Catalog.Sources.Source.{CatalogSource, make_source}
use insight_io.Catalog.Sources.Orbbec.{OrbbecCatalogProbe, supports_480, build_orbbec_sources}
use insight_io.Catalog.Sources.{
  v4l2_source, pipewire_source, build_v4l2_sources, build_pipewire_sources,
  build_sources_for_device,
}
use insight_io.Catalog.Sources.Apart.{AllDistinct, AllDistinct-append, Apart-append, Apart-Prefixed}
use insight_io.Catalog.Sources.Chosen.{
  labels-AllDistinct, chosen-Keyed, chosen-Ordered, Keys, choose_audio_caps-Keys,
}
use insight_io.Catalog.Sources.Families.{
  clash_color-depth, clash_color-preset, clash_depth-preset, selectors, selectors-map,
  selectors-append, by_when_some, Family, color-Family, depth-Family, preset-Family,
}

module _ (J : JsonApi) (device : DeviceInfo) (public_name rtsp_host : Text) where
  v4l2-AllDistinct : AllDistinct (selectors J (build_v4l2_sources J device public_name rtsp_host))
  unfolding build_v4l2_sources
  v4l2-AllDistinct =
      by_when_some J (find_stream device (codes "image")) _ (λ l. AllDistinct (selectors J l)) tt
        (λ stream.
          let m = choose_video_caps_by_profile stream in
          let same =
            selectors-map J [] (v4l2_source J device public_name rtsp_host stream)
              (λ c. unfold v4l2_source in unfold make_source in refl) m in
          rw same (labels-AllDistinct [] m (chosen-Keyed stream) (chosen-Ordered stream)))

  three-AllDistinct :
      (a b c : List (CatalogSource J))
      → Family J (codes "orbbec/color/") a
      → Family J (codes "orbbec/depth/") b
      → Family J (codes "orbbec/preset/") c
      → AllDistinct (selectors J (a ++ (b ++ c)))
  unfolding Family
  three-AllDistinct a b c (da, pa) (db, pb) (dc, pc) =
      let color = codes "orbbec/color/" in
      let depth = codes "orbbec/depth/" in
      let preset = codes "orbbec/preset/" in
      let bc =
        AllDistinct-append (selectors J b) (selectors J c) db dc
          (Apart-Prefixed depth preset clash_depth-preset _ _ pb pc) in
      rw (selectors-append J a (b ++ c), selectors-append J b c)
        (AllDistinct-append (selectors J a) (selectors J b ++ selectors J c) da bc (
          Apart-append (selectors J a) (selectors J b) (selectors J c)
            (Apart-Prefixed color depth clash_color-depth _ _ pa pb)
            (Apart-Prefixed color preset clash_color-preset _ _ pa pc)))

  audio-AllDistinct :
      (stream : StreamInfo) (m : List (ℕ × ResolvedCaps))
      → Keys 0 m
      → AllDistinct (selectors J (map (pipewire_source J device public_name rtsp_host stream) m))
  unfolding pipewire_source make_source one_of text_eq
  audio-AllDistinct stream [] h = tt
  audio-AllDistinct stream ((j, c) ∷ []) h = (refl, tt)
  audio-AllDistinct stream ((j, c) ∷ (k, d) ∷ []) (lo, hi, (lt, le, h)) =
      let one : j ≡ 1 = omega arith in
      let two : k ≡ 2 = omega arith in rw (one, two) (refl, (refl, tt))
  audio-AllDistinct stream ((j, c) ∷ (k, d) ∷ (l, e) ∷ m) (lo, hi, (lt, le, (lt2, le2, h))) =
      absurd (omega arith)

  orbbec-AllDistinct :
      (probe : DeviceInfo → OrbbecCatalogProbe)
      → AllDistinct (selectors J (build_orbbec_sources J probe device public_name rtsp_host))
  unfolding build_orbbec_sources
  orbbec-AllDistinct probe =
      let color = find_stream device (codes "color") in
      let depth = find_stream device (codes "depth") in
      let supported = supports_480 J (probe device) color depth in
      let nothing : (p : Text) → Family J p [] = λ p. unfold Family in (tt, tt) in
      let colors =
        by_when_some J color _ (Family J (codes "orbbec/color/")) (nothing (codes "orbbec/color/"))
          (color-Family J device public_name rtsp_host) in
      let depths =
        by_when_some J depth _ (Family J (codes "orbbec/depth/")) (nothing (codes "orbbec/depth/"))
          (λ stream. depth-Family J device public_name rtsp_host stream supported) in
      let presets =
        by_when_some J color _ (Family J (codes "orbbec/preset/"))
          (nothing (codes "orbbec/preset/"))
          (λ color_stream.
            by_when_some J depth _ (Family J (codes "orbbec/preset/"))
              (nothing (codes "orbbec/preset/"))
              (λ depth_stream.
                preset-Family J device public_name rtsp_host color_stream depth_stream
                  supported)) in
      three-AllDistinct _ _ _ colors depths presets

  pipewire-AllDistinct :
      AllDistinct (selectors J (build_pipewire_sources J device public_name rtsp_host))
  unfolding build_pipewire_sources
  pipewire-AllDistinct =
      by_when_some J (find_stream device (codes "audio")) _ (λ l. AllDistinct (selectors J l)) tt
        (λ stream.
          audio-AllDistinct stream (choose_audio_caps stream.supported_caps [])
            (choose_audio_caps-Keys stream.supported_caps [] tt))

  -- The streams that the catalog publishes for a device of any kind have different selectors J, so
  -- that no two of them share a row of the table of streams.
  pub build_sources_for_device-AllDistinct :
      (probe : DeviceInfo → OrbbecCatalogProbe)
      → AllDistinct (selectors J (build_sources_for_device J probe device public_name rtsp_host))
  unfolding build_sources_for_device
  build_sources_for_device-AllDistinct probe =
      elim device.kind
        as (λ kind. AllDistinct (
          selectors J (elim kind as (λ _. List (CatalogSource J)) [
            | v4l2 ↦ build_v4l2_sources J device public_name rtsp_host
            | pipe_wire ↦ build_pipewire_sources J device public_name rtsp_host
            | orbbec ↦ build_orbbec_sources J probe device public_name rtsp_host
          ]))) [
            | v4l2 ↦ v4l2-AllDistinct
            | pipe_wire ↦ pipewire-AllDistinct
            | orbbec ↦ orbbec-AllDistinct probe
          ]
