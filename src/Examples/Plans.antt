-- ===== src/Examples/Plans.antt =====
-- Runs of the runtime plans, on the camera of the catalog's runs.
use insight_io.Base.{
  ◌≡◌, refl, ◌≤◌, ◌<◌, ◌*◌, false, none, some, [], ◌∷◌, ◌++◌, arith, codes, ok, u64_mod,
}
use insight_io.Types.{ResolvedCaps, is_audio}
use insight_io.Types.Decimal.{to_string}
use insight_io.Catalog.Sources.{v4l2_source}
use insight_io.Catalog.Sources.Source.{caps_to_json, profile_label}
use insight_io.Runtime.Plan.{
  caps_from_json, Build, build_runtime_plan, add_channel, v4l2_worker, create_worker, SessionPlan,
}
use insight_io.Runtime.Plan.Payload.{payload_size_for_caps}
use insight_io.Runtime.Plan.Payload.Room.{room, payload_size_for_caps-room}
use insight_io.Runtime.Plan.Catalog.{
  caps_from_json-caps_to_json, session_on, build_runtime_plan-v4l2_source,
}
use insight_io.Runtime.Plan.Created.{create_worker-build_runtime_plan}
use insight_io.Examples.Values.{values, values-JsonLaws}
use insight_io.Examples.Catalog.{camera, image, cap}

abbrev yuyv : ResolvedCaps
yuyv = cap (codes "yuyv")

caps_from_json-caps_to_json_example :
    caps_from_json values (caps_to_json values yuyv) ≡ record yuyv { index = 0 }
caps_from_json-caps_to_json_example = caps_from_json-caps_to_json values values-JsonLaws yuyv

abbrev build : Build
build = record { has_pipewire = false; has_orbbec = false }

abbrev plan : SessionPlan
plan = record {
  channels =
      add_channel (codes "image") (codes "image") (profile_label yuyv) (codes "video") yuyv ∷ [];
  worker = v4l2_worker (codes "stream:" ++ to_string 3) (codes "/dev/video0") yuyv;
}

build_runtime_plan-v4l2_source_example :
    build_runtime_plan values build (
      session_on values 3
        (v4l2_source values camera (codes "cam") (codes "host") image yuyv)
        values.null)
    ≡ some (ok plan)
build_runtime_plan-v4l2_source_example =
    build_runtime_plan-v4l2_source values values-JsonLaws build camera (codes "cam") (codes "host")
      image yuyv (codes "/dev/video0") 3 values.null refl

create_worker-build_runtime_plan_example : create_worker build plan.worker ≡ none
create_worker-build_runtime_plan_example =
    create_worker-build_runtime_plan values build
      (session_on values 3 (v4l2_source values camera (codes "cam") (codes "host") image yuyv)
        values.null)
      plan build_runtime_plan-v4l2_source_example

payload_size_for_caps-room_example :
    (payload_size_for_caps yuyv ≡ room yuyv)
    × (room yuyv < u64_mod)
    × (256 ≤ payload_size_for_caps yuyv)
    × (is_audio yuyv ≡ false → 640 * 480 ≤ payload_size_for_caps yuyv)
payload_size_for_caps-room_example = payload_size_for_caps-room yuyv (omega arith) (omega arith)
