-- ===== src/Runtime/Plan.antt =====
-- `build_runtime_plan` and its helpers, of `ServingRuntimeRegistry` in
-- backend/src/session_service.cpp: the channels and the capture worker of a session.
pub mod Payload
pub mod Suffix
pub mod Catalog
pub mod Created
use insight_io.Base.{
  ℕ, ◌+◌, ◌-◌, ◌*◌, ◌/◌, ◌%◌, Bool, true, false, not, ◌&&◌, ◌||◌, Option, none, some, List, [], ◌∷◌,
  ◌++◌, max, leb, ◌==◌, if◌then◌else◌, Text, codes, text_eq, is_empty, Result, ok, err, Error,
  u64_mod, u32_mod,
}
use mathlib.Core.Option
use insight_io.Json.{JsonApi}
use insight_io.Types.{
  ResolvedCaps, one_of, is_audio, sample_rate, channels, is_compressed_video, is_depth_format,
}
use insight_io.Types.Decimal.{to_string}
use insight_io.Uri.Split.{strip_prefix}
use insight_io.Runtime.Plan.Payload.{payload_size_for_caps}
use insight_io.Runtime.Plan.Suffix.{parse_unsigned_suffix}
use insight_io.Runtime.State.{RuntimeChannelPlan, RuntimePlan}

abbrev starts_with : Text → Text → Bool
starts_with prefix t = elim (strip_prefix prefix t) [ none ↦ false | some rest ↦ true ]

unfoldable pub is_test_device : Text → Bool
is_test_device uri = starts_with (codes "test:") uri

pub data D2CMode : Type 0 where
  off hardware software : D2CMode

-- The worker that `create_worker` makes, with its configuration.
pub data Worker : Type 0 where
  synthetic : Text → List (Text × ResolvedCaps) → Worker
  v4l2_worker : Text → Text → ResolvedCaps → Worker
  pipewire_worker : Text → ℕ → ResolvedCaps → Worker
  orbbec_worker : Text → Text → List (Text × ResolvedCaps) → D2CMode → Worker

pub record SessionPlan : Type 0 where
  pub channels : List RuntimeChannelPlan
  pub worker : Worker

-- What the backend was compiled with.
pub record Build : Type 0 where
  pub has_pipewire : Bool
  pub has_orbbec : Bool

-- The fields of a session that the plan is made of.
pub record PlanSource (J : JsonApi) : Type 0 where
  pub stream_id : ℕ
  pub selector : Text
  pub media_kind : Text
  pub channel : Text
  pub capture_policy_json : J.Json
  pub members_json : J.Json
  pub resolved_members_json : J.Json

infixl 10 ◌>>=◌
abbrev pub ◌>>=◌ : {A B : Type 0} → Option A → (A → Option B) → Option B
none >>= f = none
some a >>= f = f a

abbrev plan_error : Text → Text → Result SessionPlan
plan_error code message = err (record { code = code; message = message })

abbrev pub add_channel : Text → Text → Text → Text → ResolvedCaps → RuntimeChannelPlan
add_channel stream_name route_name selector media_kind caps = record {
  stream_name = stream_name;
  route_name = route_name;
  selector = selector;
  media_kind = media_kind;
  delivered_caps = caps;
  max_payload_bytes = payload_size_for_caps caps;
}

-- The error of `create_worker`, if it cannot make the worker.
unfoldable pub create_worker : Build → Worker → Option Error
create_worker build (synthetic name streams) = none
create_worker build (v4l2_worker name path caps) = none
create_worker build (pipewire_worker name node_id caps) =
    if build.has_pipewire
    then none
    else some (record {
      code = codes "runtime_unsupported";
      message = codes "PipeWire runtime support was not compiled in";
    })
create_worker build (orbbec_worker name uri streams d2c) =
    if build.has_orbbec
    then none
    else some (record {
      code = codes "runtime_unsupported";
      message = codes "Orbbec runtime support was not compiled in";
    })

-- The plan as the registry takes it.
unfoldable pub runtime_plan : Build → SessionPlan → RuntimePlan
runtime_plan build plan = record {
  channels = plan.channels;
  worker = create_worker build plan.worker;
}

module _ (J : JsonApi) where
  unfoldable pub caps_from_json : J.Json → ResolvedCaps
  caps_from_json json =
      if not (J.is_object json)
      then record { index = 0; format = []; width = 0; height = 0; fps = 0 }
      else if J.contains json (codes "sample_rate")
      then record {
        index = 0;
        format = J.value_text json (codes "format") [];
        width = J.value_number json (codes "sample_rate") 0;
        height = J.value_number json (codes "channels") 0;
        fps = 0;
      }
      else record {
        index = 0;
        format = J.value_text json (codes "format") [];
        width = J.value_number json (codes "width") 0;
        height = J.value_number json (codes "height") 0;
        fps = J.value_number json (codes "fps") 0;
      }

  unfoldable pub resolved_members_for : PlanSource J → J.Json
  resolved_members_for session =
      if not (J.is_empty session.resolved_members_json)
      then session.resolved_members_json
      else if not (J.is_empty session.members_json)
      then session.members_json
      else J.null

  unfoldable pub member_in : List J.Json → Text → Text → Text
  member_in [] route_name field = []
  member_in (m ∷ members) route_name field =
      let rest = member_in members route_name field in
      if J.is_object m && text_eq (J.value_text m (codes "route") []) route_name
      then J.value_text m field []
      else rest

  unfoldable pub member_value : J.Json → Text → Text → Text
  member_value members route_name field =
      if J.is_array members then member_in (J.elements members) route_name field else []

  -- `capture.value("stream_id", ...)`, with the channel of the source, or a name, as the default.
  abbrev stream_name_or : PlanSource J → Text → Text
  stream_name_or session name =
      J.value_text session.capture_policy_json (codes "stream_id")
        (if is_empty session.channel then name else session.channel)

  abbrev d2c_of : J.Json → D2CMode
  d2c_of capture =
      let d2c = J.value_text capture (codes "d2c") (codes "off") in
      if text_eq d2c (codes "hardware")
      then hardware
      else if text_eq d2c (codes "software")
      then software
      else off

  abbrev worker_name : PlanSource J → Text
  worker_name session = codes "stream:" ++ to_string session.stream_id

  abbrev device_uri : PlanSource J → Text
  device_uri session = J.value_text session.capture_policy_json (codes "device_uri") []

  -- The branch of "v4l2", from the selected capabilities on.
  unfoldable pub v4l2_plan : PlanSource J → ResolvedCaps → Result SessionPlan
  v4l2_plan session selected =
      let stream_name = stream_name_or session (codes "image") in
      let channel =
        add_channel stream_name stream_name session.selector session.media_kind selected in
      let uri = device_uri session in
      if is_test_device uri
      then ok (record {
        channels = channel ∷ [];
        worker = synthetic (worker_name session) ((stream_name, selected) ∷ []);
      })
      else elim (strip_prefix (codes "v4l2:") uri) [
        | none ↦
            plan_error (codes "runtime_config_invalid")
              (codes "v4l2 runtime requires v4l2: device_uri")
        | some path ↦ ok (record {
          channels = channel ∷ [];
          worker = v4l2_worker (worker_name session) path selected;
        })
      ]

  unfoldable pub pipewire_plan : Build → PlanSource J → ResolvedCaps → Result SessionPlan
  pipewire_plan build session selected =
      let stream_name = stream_name_or session (codes "audio") in
      let channel =
        add_channel stream_name stream_name session.selector session.media_kind selected in
      let uri = device_uri session in
      if is_test_device uri
      then ok (record {
        channels = channel ∷ [];
        worker = synthetic (worker_name session) ((stream_name, selected) ∷ []);
      })
      else if not build.has_pipewire
      then plan_error (codes "runtime_unsupported")
          (codes "PipeWire runtime support was not compiled in")
      else elim (parse_unsigned_suffix uri (codes "pw:")) [
        | none ↦
            plan_error (codes "runtime_config_invalid")
              (codes "pipewire runtime requires pw:<node_id> device_uri")
        | some node_id ↦ ok (record {
          channels = channel ∷ [];
          worker = pipewire_worker (worker_name session) node_id selected;
        })
      ]

  -- The end of both branches of "orbbec": the channels, the streams of a synthetic worker and those
  -- of the camera.
  unfoldable pub orbbec_plan :
      Build
      → PlanSource J
      → List RuntimeChannelPlan
      → List (Text × ResolvedCaps)
      → List (Text × ResolvedCaps)
      → Result SessionPlan
  orbbec_plan build session channels delivered native =
      let uri = device_uri session in
      if is_test_device uri
      then ok (record { channels = channels; worker = synthetic (worker_name session) delivered })
      else if not build.has_orbbec
      then plan_error (codes "runtime_unsupported")
          (codes "Orbbec runtime support was not compiled in")
      else ok (record {
        channels = channels;
        worker =
            orbbec_worker (worker_name session) uri native (d2c_of session.capture_policy_json);
      })

  -- `caps_from_json(capture.at(key))`: `at` throws if there is no such member.
  abbrev pub caps_at : J.Json → Text → Option ResolvedCaps
  caps_at capture key = elim (J.at capture key) [
    | none ↦ none
    | some json ↦ some (caps_from_json json)
  ]

  -- The route of a member of a group, and its own name if it has none.
  abbrev group_route : J.Json → Text → Text
  group_route members route =
      let found = member_value members route (codes "route") in
      if is_empty found then route else found

  abbrev group_channel : J.Json → Text → Text → ResolvedCaps → RuntimeChannelPlan
  group_channel members name route caps =
      add_channel name (group_route members route) (member_value members route (codes "selector"))
        (member_value members route (codes "media")) caps

  -- The branch of a grouped preset.
  unfoldable pub grouped_plan :
      Build → PlanSource J → ResolvedCaps → ResolvedCaps → ResolvedCaps → Result SessionPlan
  grouped_plan build session color native delivered =
      let members = resolved_members_for session in
      orbbec_plan build session
        (group_channel members (codes "color") (codes "orbbec/color") color
          ∷ group_channel members (codes "depth") (codes "orbbec/depth") delivered
          ∷ [])
        ((codes "color", color) ∷ (codes "depth", delivered) ∷ [])
        ((codes "color", color) ∷ (codes "depth", native) ∷ [])

  -- `worker_caps`: what the camera is asked for.
  unfoldable pub native_caps : J.Json → ResolvedCaps → ResolvedCaps
  native_caps capture selected =
      let aligned = text_eq (J.value_text capture (codes "mode") []) (codes "aligned_depth") in
      let on = not (text_eq (J.value_text capture (codes "d2c") []) (codes "off")) in
      if (aligned || on) && J.contains capture (codes "native_caps")
      then elim (caps_at capture (codes "native_caps")) [ none ↦ selected | some caps ↦ caps ]
      else selected

  unfoldable pub exact_orbbec_plan : Build → PlanSource J → ResolvedCaps → Result SessionPlan
  exact_orbbec_plan build session selected =
      let name = stream_name_or session (codes "color") in
      let route = codes "orbbec/" ++ name in
      orbbec_plan build session
        (add_channel name route session.selector session.media_kind selected ∷ [])
        ((name, selected) ∷ []) ((name, native_caps session.capture_policy_json selected) ∷ [])

  abbrev pub delivered_caps : J.Json → ResolvedCaps → Option ResolvedCaps
  delivered_caps capture native =
      if J.contains capture (codes "depth_delivered_caps")
      then caps_at capture (codes "depth_delivered_caps")
      else some native

  unfoldable pub preset_plan : Build → PlanSource J → Option (Result SessionPlan)
  preset_plan build session = do
    color ← caps_at session.capture_policy_json (codes "color_caps")
    native ← caps_at session.capture_policy_json (codes "depth_native_caps")
    delivered ← delivered_caps session.capture_policy_json native
    some (grouped_plan build session color native delivered)

  unfoldable pub any_orbbec_plan : Build → PlanSource J → Option (Result SessionPlan)
  any_orbbec_plan build session =
      let capture = session.capture_policy_json in
      if text_eq (J.value_text capture (codes "mode") []) (codes "grouped_preset")
      then preset_plan build session
      else Option.map (exact_orbbec_plan build session) (caps_at capture (codes "selected_caps"))

  -- No result is the exception of `at` for a policy without the capabilities of its driver.
  unfoldable pub build_runtime_plan : Build → PlanSource J → Option (Result SessionPlan)
  build_runtime_plan build session =
      let capture = session.capture_policy_json in
      let driver = J.value_text capture (codes "driver") [] in
      if not (J.is_object capture)
      then some (
          plan_error (codes "runtime_config_invalid")
            (codes "capture_policy_json must be an object"))
      else if text_eq driver (codes "v4l2")
      then Option.map (v4l2_plan session) (caps_at capture (codes "selected_caps"))
      else if text_eq driver (codes "pipewire")
      then Option.map (pipewire_plan build session) (caps_at capture (codes "selected_caps"))
      else if text_eq driver (codes "orbbec")
      then any_orbbec_plan build session
      else some (
          plan_error (codes "runtime_config_invalid")
            (codes "unsupported driver in capture_policy_json"))
