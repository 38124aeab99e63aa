-- ===== src/Catalog/Sources.antt =====
-- The streams that the catalog publishes for a device: `build_v4l2_sources`,
-- `build_pipewire_sources` and `build_sources_for_device` of backend/src/catalog.cpp.
pub mod Source
pub mod Orbbec
pub mod Labels
pub mod Apart
pub mod Chosen
pub mod Families
pub mod Distinct
use insight_io.Base.{
  ℕ, ◌+◌, Bool, true, false, not, ◌&&◌, ◌||◌, Option, none, some, List, [], ◌∷◌, ◌++◌, map, ◌==◌,
  if◌then◌else◌, Text, codes,
}
use insight_io.Json.{JsonApi}
use insight_io.Types.{
  ResolvedCaps, StreamInfo, DeviceInfo, v4l2, pipe_wire, orbbec, is_audio, sample_rate, channels,
  to_named,
}
use insight_io.Types.Decimal.{to_string}
use insight_io.Uri.{path_of, uri_prefix, rtsp_prefix}
use insight_io.Catalog.Profiles.{Profile}
use insight_io.Catalog.Caps.{
  resolution_label, choose_video_caps_by_profile, choose_audio_caps, find_stream, find_cap,
  contains_cap,
}
use insight_io.Catalog.Sources.Source.{
  CatalogSource, profile_at, profile_label, audio_label, when_some, when, caps_to_json, make_source,
}
use insight_io.Catalog.Sources.Orbbec.{OrbbecCatalogProbe, build_orbbec_sources}

module _ (J : JsonApi) where
  unfoldable pub stream_policy : Text → DeviceInfo → StreamInfo → ResolvedCaps → J.Json
  stream_policy driver device stream caps = J.object (
      (codes "driver", J.text driver)
      ∷ (codes "device_uri", J.text device.uri)
      ∷ (codes "stream_id", J.text stream.stream_id)
      ∷ (codes "stream_name", J.text stream.name)
      ∷ (codes "selected_caps", caps_to_json J caps)
      ∷ [])

  -- The sources of the loop of `build_v4l2_sources`.
  unfoldable pub v4l2_source :
      DeviceInfo → Text → Text → StreamInfo → ResolvedCaps → CatalogSource J
  v4l2_source device public_name rtsp_host stream caps =
      make_source J public_name rtsp_host (profile_label caps) (codes "video") (codes "exact") caps
        (stream_policy (codes "v4l2") device stream caps) J.null [] []

  unfoldable pub build_v4l2_sources : DeviceInfo → Text → Text → List (CatalogSource J)
  build_v4l2_sources device public_name rtsp_host =
      when_some J (find_stream device (codes "image")) (λ stream.
        map (λ entry. v4l2_source device public_name rtsp_host stream entry.1)
          (choose_video_caps_by_profile stream))

  unfoldable pub pipewire_source :
      DeviceInfo → Text → Text → StreamInfo → ℕ × ResolvedCaps → CatalogSource J
  pipewire_source device public_name rtsp_host stream (channels, caps) =
      make_source J public_name rtsp_host (audio_label channels) (codes "audio") (codes "exact")
        caps (stream_policy (codes "pipewire") device stream caps) J.null [] []

  unfoldable pub build_pipewire_sources : DeviceInfo → Text → Text → List (CatalogSource J)
  build_pipewire_sources device public_name rtsp_host =
      when_some J (find_stream device (codes "audio")) (λ stream.
        map (pipewire_source device public_name rtsp_host stream)
          (choose_audio_caps stream.supported_caps []))

  unfoldable pub build_sources_for_device :
      (DeviceInfo → OrbbecCatalogProbe) → DeviceInfo → Text → Text → List (CatalogSource J)
  build_sources_for_device probe device public_name rtsp_host = elim device.kind [
    | v4l2 ↦ build_v4l2_sources device public_name rtsp_host
    | pipe_wire ↦ build_pipewire_sources device public_name rtsp_host
    | orbbec ↦ build_orbbec_sources J probe device public_name rtsp_host
  ]
