-- ===== src/Catalog/Sources/Orbbec.antt =====
-- `build_orbbec_sources` of backend/src/catalog.cpp.
use insight_io.Base.{
  Bool, true, false, not, ◌&&◌, ◌||◌, Option, none, some, List, [], ◌∷◌, ◌++◌, map, Text, codes,
}
use insight_io.Json.{JsonApi}
use insight_io.Types.{ResolvedCaps, StreamInfo, DeviceInfo}
use insight_io.Catalog.Caps.{choose_video_caps_by_profile, find_stream, find_cap, contains_cap}
use insight_io.Catalog.Sources.Source.{
  CatalogSource, profile_at, profile_label, when_some, when, caps_to_json, make_source,
}

pub record OrbbecCatalogProbe : Type 0 where
  pub probe_ran : Bool
  pub supports_hw_d2c_480 : Bool

abbrev is_some {ℓ} : {A : Type ℓ} → Option A → Bool
is_some none = false
is_some (some a) = true

module _ (J : JsonApi) where
  unfoldable pub color_source : DeviceInfo → Text → Text → ResolvedCaps → CatalogSource J
  color_source device public_name rtsp_host caps =
      make_source J public_name rtsp_host (codes "orbbec/color/" ++ profile_label caps)
        (codes "video") (codes "exact") caps
        (J.object (
          (codes "driver", J.text (codes "orbbec"))
          ∷ (codes "device_uri", J.text device.uri)
          ∷ (codes "stream_id", J.text (codes "color"))
          ∷ (codes "selected_caps", caps_to_json J caps)
          ∷ []))
        J.null (codes "color") (codes "orbbec-rgbd")

  unfoldable pub depth_source : DeviceInfo → Text → Text → ResolvedCaps → CatalogSource J
  depth_source device public_name rtsp_host caps =
      make_source J public_name rtsp_host (codes "orbbec/depth/" ++ profile_label caps)
        (codes "depth") (codes "exact") caps
        (J.object (
          (codes "driver", J.text (codes "orbbec"))
          ∷ (codes "device_uri", J.text device.uri)
          ∷ (codes "stream_id", J.text (codes "depth"))
          ∷ (codes "selected_caps", caps_to_json J caps)
          ∷ (codes "mode", J.text (codes "native_depth"))
          ∷ (codes "d2c", J.text (codes "off"))
          ∷ []))
        J.null (codes "depth") (codes "orbbec-rgbd")

  abbrev pub aligned_caps : ResolvedCaps → ResolvedCaps
  aligned_caps native = record {
    index = native.index;
    format = native.format;
    width = 640;
    height = 480;
    fps = native.fps;
  }

  unfoldable pub aligned_source : DeviceInfo → Text → Text → ResolvedCaps → CatalogSource J
  aligned_source device public_name rtsp_host native =
      make_source J public_name rtsp_host (codes "orbbec/depth/480p_30") (codes "depth")
        (codes "exact") (aligned_caps native)
        (J.object (
          (codes "driver", J.text (codes "orbbec"))
          ∷ (codes "device_uri", J.text device.uri)
          ∷ (codes "stream_id", J.text (codes "depth"))
          ∷ (codes "native_caps", caps_to_json J native)
          ∷ (codes "selected_caps", caps_to_json J (aligned_caps native))
          ∷ (codes "mode", J.text (codes "aligned_depth"))
          ∷ (codes "d2c", J.text (codes "hardware"))
          ∷ (
            codes "comment",
            J.text (
                codes "Delivered 480p depth is a D2C-aligned output backed by native 400p capture"),
          )
          ∷ []))
        J.null (codes "depth") (codes "orbbec-rgbd")

  -- An entry of `members`.
  abbrev pub member : Text → Text → Text → J.Json
  member route selector media = J.object (
      (codes "route", J.text route)
      ∷ (codes "selector", J.text selector)
      ∷ (codes "media", J.text media)
      ∷ [])

  unfoldable pub grouped_480_source :
      DeviceInfo → Text → Text → ResolvedCaps → ResolvedCaps → CatalogSource J
  grouped_480_source device public_name rtsp_host color depth =
      make_source J public_name rtsp_host (codes "orbbec/preset/480p_30") (codes "grouped")
        (codes "grouped") color
        (J.object (
          (codes "driver", J.text (codes "orbbec"))
          ∷ (codes "device_uri", J.text device.uri)
          ∷ (codes "mode", J.text (codes "grouped_preset"))
          ∷ (codes "preset", J.text (codes "480p_30"))
          ∷ (codes "color_caps", caps_to_json J color)
          ∷ (codes "depth_native_caps", caps_to_json J depth)
          ∷ (
            codes "depth_delivered_caps",
            J.object (
                (codes "format", J.text depth.format)
                ∷ (codes "width", J.number 640)
                ∷ (codes "height", J.number 480)
                ∷ (codes "fps", J.number 30)
                ∷ (codes "named", J.text (depth.format ++ codes "_640x480_30"))
                ∷ []),
          )
          ∷ (codes "d2c", J.text (codes "hardware"))
          ∷ []))
        (J.array (
          member (codes "orbbec/color") (codes "orbbec/color/480p_30") (codes "video")
          ∷ member (codes "orbbec/depth") (codes "orbbec/depth/480p_30") (codes "depth")
          ∷ []))
        [] (codes "orbbec-rgbd")

  unfoldable pub grouped_720_source :
      DeviceInfo → Text → Text → ResolvedCaps → ResolvedCaps → CatalogSource J
  grouped_720_source device public_name rtsp_host color depth =
      make_source J public_name rtsp_host (codes "orbbec/preset/720p_30") (codes "grouped")
        (codes "grouped") color
        (J.object (
          (codes "driver", J.text (codes "orbbec"))
          ∷ (codes "device_uri", J.text device.uri)
          ∷ (codes "mode", J.text (codes "grouped_preset"))
          ∷ (codes "preset", J.text (codes "720p_30"))
          ∷ (codes "color_caps", caps_to_json J color)
          ∷ (codes "depth_native_caps", caps_to_json J depth)
          ∷ (codes "depth_delivered_caps", caps_to_json J depth)
          ∷ (codes "d2c", J.text (codes "off"))
          ∷ (
            codes "comment",
            J.text (
                codes
                  "Grouped 720p preset keeps native 800p depth because no aligned 720p depth path"
                ++ codes " is published"),
          )
          ∷ []))
        (J.array (
          member (codes "orbbec/color") (codes "orbbec/color/720p_30") (codes "video")
          ∷ member (codes "orbbec/depth") (codes "orbbec/depth/800p_30") (codes "depth")
          ∷ []))
        [] (codes "orbbec-rgbd")

  -- The entries for each profile of the color stream.
  unfoldable pub color_sources : DeviceInfo → Text → Text → StreamInfo → List (CatalogSource J)
  color_sources device public_name rtsp_host color =
      map (λ entry. color_source device public_name rtsp_host entry.1)
        (choose_video_caps_by_profile color)

  -- The entries for each profile of the depth stream, and the aligned one.
  unfoldable pub depth_sources :
      DeviceInfo → Text → Text → StreamInfo → Bool → List (CatalogSource J)
  depth_sources device public_name rtsp_host depth supports_480_family =
      map (λ entry. depth_source device public_name rtsp_host entry.1)
        (choose_video_caps_by_profile depth)
      ++ when_some J (find_cap depth (profile_at 640 400 30)) (λ native_400.
        when J (not (contains_cap depth (profile_at 640 480 30)) && supports_480_family)
          (aligned_source device public_name rtsp_host native_400 ∷ []))

  -- The presets of both streams.
  unfoldable pub preset_sources :
      DeviceInfo → Text → Text → StreamInfo → StreamInfo → Bool → List (CatalogSource J)
  preset_sources device public_name rtsp_host color depth supports_480_family =
      when_some J (find_cap color (profile_at 640 480 30)) (λ color_480.
        when_some J (find_cap depth (profile_at 640 400 30)) (λ depth_400.
          when J supports_480_family
            (grouped_480_source device public_name rtsp_host color_480 depth_400 ∷ [])))
      ++ when_some J (find_cap color (profile_at 1280 720 30)) (λ color_720.
        when_some J (find_cap depth (profile_at 1280 800 30))
          (λ depth_800. grouped_720_source device public_name rtsp_host color_720 depth_800 ∷ []))

  unfoldable pub supports_480 : OrbbecCatalogProbe → Option StreamInfo → Option StreamInfo → Bool
  supports_480 probe none depth = false
  supports_480 probe (some color) depth =
      is_some (find_cap color (profile_at 640 480 30))
      && is_some depth
      && (probe.supports_hw_d2c_480 || not probe.probe_ran)

  -- `probe` is what `probe_orbbec_catalog_480p` answers for the device.
  unfoldable pub build_orbbec_sources :
      (DeviceInfo → OrbbecCatalogProbe) → DeviceInfo → Text → Text → List (CatalogSource J)
  build_orbbec_sources probe device public_name rtsp_host =
      let color = find_stream device (codes "color") in
      let depth = find_stream device (codes "depth") in
      let supports_480_family = supports_480 (probe device) color depth in
      when_some J color (color_sources device public_name rtsp_host)
      ++ (when_some J depth
            (λ stream. depth_sources device public_name rtsp_host stream supports_480_family)
          ++ when_some J color (λ color_stream. when_some J depth (λ depth_stream.
            preset_sources device public_name rtsp_host color_stream depth_stream
              supports_480_family)))
