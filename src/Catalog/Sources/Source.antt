-- ===== src/Catalog/Sources/Source.antt =====
-- An entry of the catalog: `CatalogSource`, `caps_to_json` and `make_source` of
-- backend/include/insightio/backend/catalog.hpp and backend/src/catalog.cpp.
use insight_io.Base.{
  ℕ, Bool, Option, none, some, List, [], ◌∷◌, ◌++◌, ◌==◌, if◌then◌else◌, Text, codes,
}
use insight_io.Json.{JsonApi}
use insight_io.Types.{ResolvedCaps, is_audio, sample_rate, channels, to_named}
use insight_io.Types.Decimal.{to_string}
use insight_io.Uri.{path_of, uri_prefix, rtsp_prefix}
use insight_io.Catalog.Profiles.{Profile}
use insight_io.Catalog.Caps.{resolution_label}

pub record CatalogSource (J : JsonApi) : Type 0 where
  pub stream_id : ℕ
  pub selector : Text
  pub public_name : Text
  pub default_name : Text
  pub uri : Text
  pub media_kind : Text
  pub shape_kind : Text
  pub channel : Text
  pub group_key : Text
  pub caps_json : J.Json
  pub capture_policy_json : J.Json
  pub members_json : J.Json
  pub publications_json : J.Json

abbrev pub profile_at : ℕ → ℕ → ℕ → Profile
profile_at width height fps = record { width = width; height = height; fps = fps }

-- `resolution_label(...) + "_" + std::to_string(fps)`
abbrev pub profile_label : ResolvedCaps → Text
profile_label caps = resolution_label caps.width caps.height ++ b'_' ∷ to_string caps.fps

abbrev pub audio_label : ℕ → Text
audio_label channels = if channels == 1 then codes "audio/mono" else codes "audio/stereo"

module _ (J : JsonApi) where
  abbrev pub when_some {ℓ} :
      {A : Type ℓ} → Option A → (A → List (CatalogSource J)) → List (CatalogSource J)
  when_some none f = []
  when_some (some a) f = f a

  abbrev pub when : Bool → List (CatalogSource J) → List (CatalogSource J)
  when b l = if b then l else []

  unfoldable pub caps_to_json : ResolvedCaps → J.Json
  caps_to_json caps =
      let json =
        J.object
          ((codes "format", J.text caps.format) ∷ (codes "named", J.text (to_named caps)) ∷ []) in
      if is_audio caps
      then J.assign (J.assign json (codes "sample_rate") (J.number (sample_rate caps)))
          (codes "channels") (J.number (channels caps))
      else J.assign
          (J.assign (J.assign json (codes "width") (J.number caps.width)) (codes "height")
            (J.number caps.height))
          (codes "fps") (J.number caps.fps)

  -- The texts are those of the call, and `members`, `channel` and `group_key` in their order.
  unfoldable pub make_source :
      Text
      → Text
      → Text
      → Text
      → Text
      → ResolvedCaps
      → J.Json
      → J.Json
      → Text
      → Text
      → CatalogSource J
  make_source public_name rtsp_host selector media_kind shape_kind caps policy members channel
        group =
      record {
        stream_id = 0;
        selector = selector;
        public_name = selector;
        default_name = selector;
        uri = uri_prefix ++ path_of (codes "localhost") public_name selector;
        media_kind = media_kind;
        shape_kind = shape_kind;
        channel = channel;
        group_key = group;
        caps_json = caps_to_json caps;
        capture_policy_json = policy;
        members_json = members;
        publications_json = J.object (
            (
              codes "rtsp",
              J.object (
                  (codes "url", J.text (rtsp_prefix ++ path_of rtsp_host public_name selector))
                  ∷ (codes "profile", J.text (codes "default"))
                  ∷ []),
            )
            ∷ []);
      }
  -- The capture policy of `build_v4l2_sources` and `build_pipewire_sources`.
