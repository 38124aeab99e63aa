-- ===== src/Runtime/Plan/Catalog.antt =====
-- The plans of `build_runtime_plan` in backend/src/session_service.cpp for the sources that
-- backend/src/catalog.cpp writes.
use insight_io.Base.{
  ℕ, ◌≡◌, refl, ap, ◌∙◌, inl, inr, true, Option, none, some, List, [], ◌∷◌, ◌++◌, arith,
  if◌then◌else◌, Text, codes, text_eq, Result, ok, Bool-cases, is_empty,
}
use mathlib.Core.Option
use insight_io.Json.{JsonApi}
use insight_io.Json.Laws.{JsonLaws, find_member, is_there}
use insight_io.Types.{
  ResolvedCaps, StreamInfo, DeviceInfo, is_audio, sample_rate, channels, to_named,
}
use insight_io.Types.Decimal.{to_string}
use insight_io.Uri.Split.{strip_prefix}
use insight_io.Catalog.Sources.{v4l2_source, stream_policy}
use insight_io.Catalog.Sources.Source.{CatalogSource, caps_to_json, make_source, profile_label}
use insight_io.Runtime.Plan.{
  caps_from_json, Build, PlanSource, SessionPlan, v4l2_worker, add_channel, is_test_device,
  v4l2_plan, build_runtime_plan,
}

-- The fields of a session on a source of the catalog.
abbrev pub session_on : (J : JsonApi) → ℕ → CatalogSource J → J.Json → PlanSource J
session_on J stream_id source resolved_members = record {
  stream_id = stream_id;
  selector = source.selector;
  media_kind = source.media_kind;
  channel = source.channel;
  capture_policy_json = source.capture_policy_json;
  members_json = source.members_json;
  resolved_members_json = resolved_members;
}

module _ (J : JsonApi) (laws : JsonLaws J) where
  caps_from-audio :
      (json : J.Json) (format : Text) (rate count : ℕ)
      → J.is_object json ≡ true
      → J.at json (codes "format") ≡ some (J.text format)
      → J.at json (codes "sample_rate") ≡ some (J.number rate)
      → J.at json (codes "channels") ≡ some (J.number count)
      → caps_from_json J json
        ≡ record { index = 0; format = format; width = rate; height = count; fps = 0 }
  unfolding caps_from_json
  caps_from-audio json format rate count object at_format at_rate at_channels =
      let has = laws.contains_at json (codes "sample_rate") object ∙ ap is_there at_rate in
      let f = laws.value_text_at json (codes "format") format [] at_format in
      let r = laws.value_number_at json (codes "sample_rate") rate 0 at_rate in
      let c = laws.value_number_at json (codes "channels") count 0 at_channels in
      rw object (rw has (rw (f, r, c) refl))

  caps_from-video :
      (json : J.Json) (format : Text) (width height fps : ℕ)
      → J.is_object json ≡ true
      → J.at json (codes "sample_rate") ≡ none
      → J.at json (codes "format") ≡ some (J.text format)
      → J.at json (codes "width") ≡ some (J.number width)
      → J.at json (codes "height") ≡ some (J.number height)
      → J.at json (codes "fps") ≡ some (J.number fps)
      → caps_from_json J json
        ≡ record { index = 0; format = format; width = width; height = height; fps = fps }
  unfolding caps_from_json
  caps_from-video json format width height fps object missing at_format at_width at_height at_fps =
      let has = laws.contains_at json (codes "sample_rate") object ∙ ap is_there missing in
      let f = laws.value_text_at json (codes "format") format [] at_format in
      let w = laws.value_number_at json (codes "width") width 0 at_width in
      let h = laws.value_number_at json (codes "height") height 0 at_height in
      let r = laws.value_number_at json (codes "fps") fps 0 at_fps in
      rw object (rw has (rw (f, w, h, r) refl))

  audio_caps :
      (caps : ResolvedCaps)
      → is_audio caps ≡ true
      → (caps.fps ≡ 0) × (sample_rate caps ≡ caps.width) × (channels caps ≡ caps.height)
  unfolding is_audio sample_rate channels
  audio_caps caps h = ground arith

  -- `caps_from_json` reads back the capability that `caps_to_json` writes, all but its index, which
  -- is not written.
  pub caps_from_json-caps_to_json :
      (caps : ResolvedCaps) → caps_from_json J (caps_to_json J caps) ≡ record caps { index = 0 }
  unfolding caps_to_json find_member text_eq
  caps_from_json-caps_to_json caps =
      let members : List (Text × J.Json) =
        (codes "format", J.text caps.format) ∷ (codes "named", J.text (to_named caps)) ∷ [] in
      let base = J.object members in
      let o0 = laws.object_is members in
      elim (Bool-cases (is_audio caps)) [
        | inl audio ↦
            let (no_fps, rate, count) = audio_caps caps audio in
            let r = J.number (sample_rate caps) in
            let c = J.number (channels caps) in
            let j1 = J.assign base (codes "sample_rate") r in
            let o1 = laws.assign_is base (codes "sample_rate") r o0 in
            rw audio (
              caps_from-audio (J.assign j1 (codes "channels") c) caps.format (sample_rate caps)
                (channels caps) (laws.assign_is j1 (codes "channels") c o1)
                (laws.at_assign j1 (codes "channels") c (codes "format") o1
                  ∙ laws.at_assign base (codes "sample_rate") r (codes "format") o0
                  ∙ laws.at_object members (codes "format"))
                (laws.at_assign j1 (codes "channels") c (codes "sample_rate") o1
                  ∙ laws.at_assign base (codes "sample_rate") r (codes "sample_rate") o0)
                (laws.at_assign j1 (codes "channels") c (codes "channels") o1)
              ∙ rw (rate, count, no_fps) refl)
        | inr video ↦
            let w = J.number caps.width in
            let h = J.number caps.height in
            let f = J.number caps.fps in
            let j1 = J.assign base (codes "width") w in
            let o1 = laws.assign_is base (codes "width") w o0 in
            let j2 = J.assign j1 (codes "height") h in
            let o2 = laws.assign_is j1 (codes "height") h o1 in
            let below = λ (k : Text). laws.at_assign j2 (codes "fps") f k o2 in
            rw video (
              caps_from-video (J.assign j2 (codes "fps") f) caps.format caps.width caps.height
                caps.fps (laws.assign_is j2 (codes "fps") f o2)
                (below (codes "sample_rate")
                  ∙ laws.at_assign j1 (codes "height") h (codes "sample_rate") o1
                  ∙ laws.at_assign base (codes "width") w (codes "sample_rate") o0
                  ∙ laws.at_object members (codes "sample_rate"))
                (below (codes "format")
                  ∙ laws.at_assign j1 (codes "height") h (codes "format") o1
                  ∙ laws.at_assign base (codes "width") w (codes "format") o0
                  ∙ laws.at_object members (codes "format"))
                (below (codes "width")
                  ∙ laws.at_assign j1 (codes "height") h (codes "width") o1
                  ∙ laws.at_assign base (codes "width") w (codes "width") o0)
                (below (codes "height") ∙ laws.at_assign j1 (codes "height") h (codes "height") o1)
                (below (codes "fps")))
      ]

  plan-v4l2 :
      (build : Build) (session : PlanSource J) (json : J.Json)
      → J.is_object session.capture_policy_json ≡ true
      → J.value_text session.capture_policy_json (codes "driver") [] ≡ codes "v4l2"
      → J.at session.capture_policy_json (codes "selected_caps") ≡ some json
      → build_runtime_plan J build session ≡ some (v4l2_plan J session (caps_from_json J json))
  unfolding build_runtime_plan text_eq
  plan-v4l2 build session json object driver selected = rw object (
      rw driver (
        ap
          (λ o. Option.map (v4l2_plan J session) (elim o as (λ _. Option ResolvedCaps) [
            | none ↦ none
            | some found ↦ some (caps_from_json J found)
          ]))
          selected))

  v4l2_plan-device :
      (session : PlanSource J) (caps : ResolvedCaps) (name path : Text)
      → J.value_text session.capture_policy_json
          (codes "stream_id")
          (if is_empty session.channel then codes "image" else session.channel)
        ≡ name
      → J.value_text session.capture_policy_json (codes "device_uri") [] ≡ codes "v4l2:" ++ path
      → v4l2_plan J session caps
        ≡ ok (record {
          channels = add_channel name name session.selector session.media_kind caps ∷ [];
          worker = v4l2_worker (codes "stream:" ++ to_string session.stream_id) path caps;
        })
  unfolding v4l2_plan is_test_device strip_prefix
  v4l2_plan-device session caps name path named uri =
      let plan : Text → Result SessionPlan = λ n. ok (record {
        channels = add_channel n n session.selector session.media_kind caps ∷ [];
        worker = v4l2_worker (codes "stream:" ++ to_string session.stream_id) path caps;
      }) in
      rw uri (ap plan named)

  -- The plan for a source that the catalog makes of a capability of a V4L2 device, whose address is
  -- `v4l2:` and a path: one channel, of the stream, with the capability but its index, and the V4L2
  -- worker on the path with the same capability.
  pub build_runtime_plan-v4l2_source :
      (build : Build) (device : DeviceInfo) (public_name rtsp_host : Text) (stream : StreamInfo)
      (caps : ResolvedCaps) (path : Text) (stream_id : ℕ) (resolved_members : J.Json)
      → device.uri ≡ codes "v4l2:" ++ path
      → let source = v4l2_source J device public_name rtsp_host stream caps in
        let selected = record caps { index = 0 } in
        build_runtime_plan J build (session_on J stream_id source resolved_members)
        ≡ some (
            ok (record {
              channels =
                  add_channel stream.stream_id stream.stream_id
                    (profile_label caps)
                    (codes "video")
                    selected
                  ∷ [];
              worker = v4l2_worker (codes "stream:" ++ to_string stream_id) path selected;
            }))
  unfolding v4l2_source make_source stream_policy find_member text_eq
  build_runtime_plan-v4l2_source build device public_name rtsp_host stream caps path stream_id
        resolved at_path =
      let members : List (Text × J.Json) =
        (codes "driver", J.text (codes "v4l2"))
        ∷ (codes "device_uri", J.text device.uri)
        ∷ (codes "stream_id", J.text stream.stream_id)
        ∷ (codes "stream_name", J.text stream.name)
        ∷ (codes "selected_caps", caps_to_json J caps)
        ∷ [] in
      let policy = J.object members in
      let object = laws.object_is members in
      let driver =
        laws.value_text_at policy (codes "driver") (codes "v4l2") []
          (laws.at_object members (codes "driver")) in
      let uri =
        laws.value_text_at policy (codes "device_uri") device.uri []
          (laws.at_object members (codes "device_uri")) in
      let name =
        laws.value_text_at policy (codes "stream_id") stream.stream_id (codes "image")
          (laws.at_object members (codes "stream_id")) in
      let selected = laws.at_object members (codes "selected_caps") in
      let session =
        session_on J stream_id (v4l2_source J device public_name rtsp_host stream caps) resolved in
      let read = caps_from_json-caps_to_json caps in
      plan-v4l2 build session (caps_to_json J caps) object driver selected
      ∙ ap (λ c. some (v4l2_plan J session c)) read
      ∙ ap some (
          v4l2_plan-device session (record caps { index = 0 }) stream.stream_id path name
            (uri ∙ at_path))
